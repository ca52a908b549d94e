-- ===== src/EventLog/History/Chain.antt =====
-- The chains of `ValidateHistory` and `Verify` (internal/eventlog/list.go, verify.go), compared.
use cann_o_call.Prelude.{
  ℕ, suc, ◌+◌, ◌≡◌, ◌≢◌, refl, sym, ap, ◌∙◌, ◌⊎◌, inl, inr, String, true, false, List, [], ◌∷◌,
  ◌++◌, none, some, map, arith, ◌==◌, eq_iff, eq_refl, length, Bool-cases, Option-cases, eq→path,
}
use cann_o_call.Prelude.Int64.{ℤ, pos, inc, int_eq_iff}
use cann_o_call.Prelude.Result.{Result, ok, err, ◌>>◌}
use cann_o_call.EventLog.{
  Event, Codec, genesis, requires_rust_acknowledgement, validate_rust_acknowledgement, hash_event,
  hashed_bytes,
}
use cann_o_call.EventLog.History.{
  HistoryError, Report, check_event, validate_from, validate_history, verify_from, verify,
  head_hash, next_seq,
}

module _ (codec : Codec) where
  -- A history is valid in two parts exactly when it is valid as a whole.
  pub validate_from-append :
      (prev : String) (expected : ℤ) (es fs : List Event)
      → validate_from codec prev expected (es ++ fs) ≡ (
          validate_from codec prev expected es
          >> validate_from codec (head_hash prev es) (next_seq expected es) fs)
  unfolding validate_from head_hash next_seq
  validate_from-append prev expected [] fs = refl
  validate_from-append prev expected (ev ∷ es) fs =
      ground (arith, validate_from-append ev.hash (inc expected) es fs)

  abbrev pub Agrees : ℕ → String → List Event → Result HistoryError (Unit {0}) → Report → Type 0
  Agrees n prev es (ok _) r =
      (r.ok ≡ true)
      × (r.events_checked ≡ n + length es)
      × (r.last_hash ≡ head_hash prev es)
      × (r.reason ≡ none)
  Agrees n prev es (err e) r = (r.ok ≡ false) × (r.reason ≡ some e)

  verify_from-Agrees :
      (prev : String) (expected : ℤ) (n : ℕ) (es : List Event)
      → Agrees n prev es
          (validate_from codec prev expected es)
          (verify_from codec prev expected n es)
  unfolding validate_from check_event verify_from head_hash
  verify_from-Agrees prev expected n [] = (refl, omega arith, refl, refl)
  verify_from-Agrees prev expected n (ev ∷ es) =
      ground (arith, verify_from-Agrees ev.hash (inc expected) (suc n) es)

  -- `Verify` reports success with every event counted and the head hash exactly where
  -- `ValidateHistory` accepts the history, and otherwise reports the fault that `ValidateHistory`
  -- returns.
  pub verify-Agrees :
      (es : List Event) → Agrees 0 genesis es (validate_history codec es) (verify codec es)
  unfolding validate_history verify
  verify-Agrees es = verify_from-Agrees genesis (pos 1) 0 es

  -- Two texts with one SHA-256.
  abbrev pub Collision : Type 0
  Collision = (a : String) × (b : String) × (a ≢ b) × (codec.sha256_hex a ≡ codec.sha256_hex b)

  -- The encoded text of an event shows its `prev_hash`: `json.Unmarshal` reads it back.
  abbrev pub ShowsPrev : Type 0
  ShowsPrev =
      (e : Event) (b : String)
      → codec.marshal e ≡ some b
      → (f : Event) × (codec.unmarshal b ≡ some f) × (f.prev_hash ≡ e.prev_hash)

  -- What a round that does not fail has checked of the event.
  pub record Linked (prev : String) (ev : Event) : Type 0 where
    pub bytes : String
    pub encoded : hashed_bytes codec ev ≡ some bytes
    pub hashed : codec.sha256_hex bytes ≡ ev.hash
    pub linked : ev.prev_hash ≡ prev

  pub check_event-Linked :
      (prev : String) (expected : ℤ) (ev : Event)
      → check_event codec prev expected ev ≡ ok tt
      → Linked prev ev
  unfolding check_event hash_event
  check_event-Linked prev expected ev h = elim (Option-cases (hashed_bytes codec ev)) [
    | inl e ↦ ground (arith, e)
    | inr (b, e) ↦ record {
      bytes = b;
      encoded = e;
      hashed = ground (arith, e, eq_iff (codec.sha256_hex b) ev.hash);
      linked = ground (arith, e, eq_iff ev.prev_hash prev);
    }
  ]

  pub check_event-seq :
      (prev : String) (expected : ℤ) (ev : Event)
      → check_event codec prev expected ev ≡ ok tt
      → ev.seq ≡ expected
  unfolding check_event
  check_event-seq prev expected ev h = ground (arith, int_eq_iff ev.seq expected)

  same_bytes_same_prev :
      ShowsPrev
      → (e f : Event) (b : String) → hashed_bytes codec e ≡ some b
      → hashed_bytes codec f ≡ some b
      → e.prev_hash ≡ f.prev_hash
  unfolding hashed_bytes
  same_bytes_same_prev shows e f b p q =
      let (e', re, pe) = shows (record e { hash = ""; rust_ack = none }) b p in
      let (f', rf, pf) = shows (record f { hash = ""; rust_ack = none }) b q in
      ground (arith, re, pe, rf, pf)

  Bound : List Event → List Event → Type 0
  Bound es fs = map (hashed_bytes codec) es ≡ map (hashed_bytes codec) fs

  binding_step :
      ShowsPrev
      → (p q : String) (e f : Event) → Linked p e
      → Linked q f
      → e.hash ≡ f.hash
      → ((p ≡ q) × (hashed_bytes codec e ≡ hashed_bytes codec f)) ⊎ Collision
  binding_step shows p q e f le lf h = elim (Bool-cases (le.bytes == lf.bytes)) [
    | inl same ↦
        let b : le.bytes ≡ lf.bytes = eq→path le.bytes lf.bytes same in
        let prevs = same_bytes_same_prev shows e f lf.bytes (le.encoded ∙ ap some b) lf.encoded in
        inl (sym le.linked ∙ prevs ∙ lf.linked, le.encoded ∙ ap some b ∙ sym lf.encoded)
    | inr other ↦ inr (
      le.bytes,
      lf.bytes,
      λ b. ground (arith, b, eq_iff le.bytes lf.bytes),
      le.hashed ∙ h ∙ sym lf.hashed,
    )
  ]

  >>-ok :
      {E : Type 0} (m : Result E (Unit {0})) (k : Result E (Unit {0}))
      → (m >> k) ≡ ok tt
      → (m ≡ ok tt) × (k ≡ ok tt)
  >>-ok (ok _) k h = (refl, h)
  >>-ok (err e) k h = cc

  pub validate_from-cons :
      (prev : String) (n : ℤ) (ev : Event) (es : List Event)
      → validate_from codec prev n (ev ∷ es) ≡ ok tt
      → (check_event codec prev n ev ≡ ok tt) × (validate_from codec ev.hash (inc n) es ≡ ok tt)
  unfolding validate_from
  validate_from-cons prev n ev es = >>-ok (check_event codec prev n ev) _

  binding_from :
      ShowsPrev
      → (p q : String) (n : ℤ) (es fs : List Event) → length es ≡ length fs
      → validate_from codec p n es ≡ ok tt
      → validate_from codec q n fs ≡ ok tt
      → head_hash p es ≡ head_hash q fs
      → ((p ≡ q) × Bound es fs) ⊎ Collision
  unfolding validate_from head_hash Bound
  binding_from shows p q n [] [] l ve vf h = inl (h, refl)
  binding_from shows p q n [] (f ∷ fs) l ve vf h = absurd (omega arith)
  binding_from shows p q n (e ∷ es) [] l ve vf h = absurd (omega arith)
  binding_from shows p q n (e ∷ es) (f ∷ fs) l ve vf h =
      let (ce, re) = >>-ok (check_event codec p n e) _ ve in
      let (cf, rf) = >>-ok (check_event codec q n f) _ vf in
      let rest = binding_from shows e.hash f.hash (inc n) es fs (omega arith) re rf h in
      elim rest [
        | inr c ↦ inr c
        | inl (hashes, bound) ↦
            elim (binding_step shows p q e f (check_event-Linked p n e ce)
              (check_event-Linked q n f cf) hashes) [
                | inr c ↦ inr c
                | inl (prevs, here) ↦ inl (prevs, λ i. here i ∷ bound i)
              ]
      ]

  -- If the encoded text of an event shows its previous hash, two valid histories of one length
  -- that end in the same hash have the same hashed bytes event by event, or two different texts
  -- have one hash.
  pub history_binding :
      ShowsPrev
      → (es fs : List Event) → length es ≡ length fs
      → validate_history codec es ≡ ok tt
      → validate_history codec fs ≡ ok tt
      → head_hash genesis es ≡ head_hash genesis fs
      → (map (hashed_bytes codec) es ≡ map (hashed_bytes codec) fs) ⊎ Collision
  unfolding validate_history Bound
  history_binding shows es fs l ve vf h =
      elim (binding_from shows genesis genesis (pos 1) es fs l ve vf h) [
        | inl (_, bound) ↦ inl bound
        | inr c ↦ inr c
      ]

pub head_hash-snoc :
    (prev : String) (es : List Event) (ev : Event) → head_hash prev (es ++ ev ∷ []) ≡ ev.hash
unfolding head_hash
head_hash-snoc prev [] ev = refl
head_hash-snoc prev (e ∷ es) ev = head_hash-snoc e.hash es ev

pub next_seq-snoc :
    (n : ℤ) (es : List Event) (ev : Event) → next_seq n (es ++ ev ∷ []) ≡ inc (next_seq n es)
unfolding next_seq
next_seq-snoc n [] ev = refl
next_seq-snoc n (e ∷ es) ev = next_seq-snoc (inc n) es ev

module _ (codec : Codec) where
  check_event-ok :
      (prev : String) (n : ℤ) (ev : Event)
      → hash_event codec ev ≡ some ev.hash
      → ev.seq ≡ n
      → ev.prev_hash ≡ prev
      → (requires_rust_acknowledgement ev ≡ true → validate_rust_acknowledgement ev ≡ ok tt)
      → check_event codec prev n ev ≡ ok tt
  unfolding check_event
  check_event-ok prev n ev hashed same_seq same_prev acked =
      ground (arith, hashed, int_eq_iff ev.seq n, eq_iff ev.prev_hash prev, eq_refl ev.hash, acked)

  -- A valid history goes on with an event that carries its number and its head hash.
  pub validate_history-snoc :
      (es : List Event) (ev : Event)
      → validate_history codec es ≡ ok tt
      → hash_event codec ev ≡ some ev.hash
      → ev.seq ≡ next_seq (pos 1) es
      → ev.prev_hash ≡ head_hash genesis es
      → (requires_rust_acknowledgement ev ≡ true → validate_rust_acknowledgement ev ≡ ok tt)
      → validate_history codec (es ++ ev ∷ []) ≡ ok tt
  unfolding validate_history validate_from
  validate_history-snoc es ev valid hashed same_seq same_prev acked = ground (
    arith,
    validate_from-append codec genesis (pos 1) es (ev ∷ []),
    check_event-ok (head_hash genesis es) (next_seq (pos 1) es) ev hashed same_seq same_prev acked,
  )
