-- ===== src/EventLog/Read/Recovery.antt =====
-- `New` of internal/eventlog/eventlog.go over a file that `CheckedEvents` has read.
use cann_o_call.Prelude.{
  ℕ, suc, ◌+◌, ◌<◌, ◌≡◌, ◌≢◌, refl, sym, ap, ◌∙◌, subst, inl, inr, String, Bool, true, false, ◌&&◌,
  List, [], ◌∷◌, some, arith, ◌==◌, eq_iff, length, All,
}
use cann_o_call.Prelude.Int64.{pos, inc, limit, inc-pos}
use cann_o_call.Prelude.Result.{ok, Result-cases}
use cann_o_call.EventLog.{Event, Codec, genesis, requires_rust_acknowledgement}
use cann_o_call.EventLog.History.{validate_history, validate_from, check_event, head_hash, next_seq}
use cann_o_call.EventLog.History.Chain.{check_event-Linked, validate_from-cons, check_event-seq}
use cann_o_call.EventLog.Service.{Service}
use cann_o_call.EventLog.Service.Append.{IsHead}
use cann_o_call.EventLog.Read.{
  scan, load_limit, read_limit, lenient, strict, checked_lines, checked_events, load_event,
  load_events, load, new,
}

next_seq-pos :
    (n : ℕ) (es : List Event) → n + length es < limit → next_seq (pos n) es ≡ pos (n + length es)
unfolding next_seq
next_seq-pos n [] h = ap pos (omega arith)
next_seq-pos n (ev ∷ es) h =
    ap (λ x. next_seq x es) (inc-pos n (omega arith))
    ∙ next_seq-pos (suc n) es (omega arith)
    ∙ ap pos (omega arith)

pub next_seq-length :
    (es : List Event) → suc (length es) < limit → next_seq (pos 1) es ≡ inc (pos (length es))
next_seq-length es h =
    next_seq-pos 1 es (omega arith) ∙ ap pos (omega arith) ∙ sym (inc-pos (length es) h)

scan_fits : (max : ℕ) (ls : List String) → (scan max ls).1 ≡ true → (scan max ls).0 ≡ ls
unfolding scan
scan_fits max [] h = refl
scan_fits max (l ∷ ls) h = ground (arith, scan_fits max ls)

module _ (codec : Codec) where
  -- Where no line is malformed the two readers agree.
  lenient-strict :
      (ls : List String) (es : List Event) → strict codec ls ≡ ok es → lenient codec ls ≡ es
  unfolding strict lenient
  lenient-strict [] es h = cc
  lenient-strict (l ∷ ls) es h = elim (Result-cases (strict codec ls)) [
    | inl (e, f) ↦ ground (arith, f)
    | inr (rest, f) ↦ ground (arith, f, lenient-strict ls rest f)
  ]

  -- SHA-256 in hexadecimal is never the empty text.
  abbrev pub NonEmptyHash : Type 0
  NonEmptyHash = (b : String) → codec.sha256_hex b ≢ ""

  load_event_next :
      NonEmptyHash
      → (s : Service) (k : ℕ) (ev : Event) → s.seq ≡ pos k
      → (s.sidecar_url == "" && requires_rust_acknowledgement ev) ≡ false
      → check_event codec s.last_hash (pos (suc k)) ev ≡ ok tt
      → load_event codec s ev ≡ ok (record s { seq = pos (suc k); last_hash = ev.hash })
  unfolding load_event
  load_event_next nonempty s k ev at allowed checked =
      let z = check_event-Linked codec s.last_hash (pos (suc k)) ev checked in
      let shown : ev.hash ≢ "" = λ e. nonempty z.bytes (z.hashed ∙ e) in
      ground (
        arith,
        check_event-seq codec s.last_hash (pos (suc k)) ev checked,
        shown,
        eq_iff ev.hash "",
      )

  abbrev pub Allowed : String → Event → Type 0
  Allowed url ev = (url == "" && requires_rust_acknowledgement ev) ≡ false

  load_events-head :
      NonEmptyHash
      → (s : Service) (k : ℕ) (es : List Event) → s.seq ≡ pos k
      → suc k + length es < limit
      → All (Allowed s.sidecar_url) es
      → validate_from codec s.last_hash (pos (suc k)) es ≡ ok tt
      → load_events codec s es
        ≡ ok (record s { seq = pos (k + length es); last_hash = head_hash s.last_hash es })
  unfolding load_events head_hash
  load_events-head nonempty s k [] at bound allowed valid = ground arith
  load_events-head nonempty s k (ev ∷ es) at bound allowed valid =
      let (now, later) = validate_from-cons codec s.last_hash (pos (suc k)) ev es valid in
      let next : Service = record s { seq = pos (suc k); last_hash = ev.hash } in
      rw (load_event_next nonempty s k ev at allowed.0 now) (
        load_events-head nonempty next (suc k) es refl (omega arith) allowed.1 (
          subst (λ x. validate_from codec ev.hash x es ≡ ok tt) (inc-pos (suc k) (omega arith))
            later)
        ∙ ap (λ (m : ℕ). ok (record s { seq = pos m; last_hash = head_hash ev.hash es }))
            (omega arith))

  checked_lines-strict :
      (t : List String × Bool) (es : List Event)
      → checked_lines codec t ≡ ok es
      → (t.1 ≡ true) × (strict codec t.0 ≡ ok es) × (validate_history codec es ≡ ok tt)
  unfolding checked_lines
  checked_lines-strict (before, fits) es h = elim (Result-cases (strict codec before)) [
    | inl (e, f) ↦ ground (arith, f)
    | inr (rest, f) ↦ elim (Result-cases (validate_history codec rest)) [
      | inl (e, g) ↦ ground (arith, f, g)
      | inr (u, g) ↦ ground (arith, f, g)
    ]
  ]

  -- What `New` makes of a file.
  load_file :
      (s : Service) (ls : List String) (t : Service)
      → load_events codec s (lenient codec ls) ≡ ok t
      → s.file ≡ some ls
      → (scan load_limit ls).1 ≡ true
      → load codec true s ≡ ok t
  unfolding load
  load_file s ls t loaded there fits =
      let all = scan_fits load_limit ls fits in ground (arith, loaded, there, fits, all)

  -- If no hash is empty, every line of the file fits the buffer of `load`, `CheckedEvents` accepts
  -- the file, none of its events needs a ledger that is not configured, and the number of events
  -- is below the end of `int64`, then `New` over that file succeeds with a service at the head of
  -- those events.
  pub new-IsHead :
      (url : String) (s : Service) (ls : List String) (es : List Event)
      → NonEmptyHash
      → s.file ≡ some ls
      → checked_events codec true s ≡ ok es
      → (scan load_limit ls).1 ≡ true
      → All (Allowed url) es
      → suc (length es) < limit
      → (t : Service) × (new codec true url (some ls) ≡ ok t) × IsHead codec es t
  unfolding new checked_events validate_history
  new-IsHead url s ls es nonempty there checked fits allowed bound = (
    t,
    load_file start ls t loaded refl fits,
    record { valid = parts.2; at_seq = next_seq-length es bound; at_hash = refl },
  )
    where
      start : Service
      start = record { last_hash = genesis; seq = pos 0; sidecar_url = url; file = some ls }

      t : Service
      t = record start { seq = pos (length es); last_hash = head_hash genesis es }

      parts :
          ((scan read_limit ls).1 ≡ true)
          × (strict codec (scan read_limit ls).0 ≡ ok es)
          × (validate_history codec es ≡ ok tt)
      parts = checked_lines-strict (scan read_limit ls) es (ground (arith, there, checked))

      read : strict codec ls ≡ ok es
      read = rw (← scan_fits read_limit ls parts.0) parts.1

      loaded : load_events codec start (lenient codec ls) ≡ ok t
      loaded = rw (lenient-strict ls es read) (
          load_events-head nonempty start 0 es refl (omega arith) allowed parts.2
          ∙ ap (λ (m : ℕ). ok (record start { seq = pos m; last_hash = head_hash genesis es }))
              (omega arith))
