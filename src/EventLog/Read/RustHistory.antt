-- ===== src/EventLog/Read/RustHistory.antt =====
-- Recovery from the Rust ledger: what `RustAcknowledgedEvents` has checked, and where it leaves the service.
use cann_o_call.Prelude.{
  ℕ, suc, ◌<◌, ◌≡◌, ◌≢◌, inl, inr, subst, none, some, String, List, [], ◌∷◌, arith, length, All,
  ne→false, ap, sym, ◌∙◌,
}
use cann_o_call.Prelude.Int64.{pos, inc, limit}
use cann_o_call.Prelude.Result.{Result, ok, err, Result-cases}
use cann_o_call.EventLog.{Event, Codec, genesis, validate_rust_acknowledgement}
use cann_o_call.EventLog.History.{validate_history, head_hash}
use cann_o_call.EventLog.Service.{Service}
use cann_o_call.EventLog.Service.Append.{IsHead}
use cann_o_call.EventLog.Read.{
  ReadError, HistoryReply, RustRecord, unreachable, response, rust_event, rust_events, rust_history,
  rebase, rust_acknowledged_events,
}
use cann_o_call.EventLog.Read.Recovery.{next_seq-length}

-- The event carries an acknowledgement of its identity and its number.
abbrev pub Acknowledged : Event → Type 0
Acknowledged ev = validate_rust_acknowledgement ev ≡ ok tt

module _ (codec : Codec) where
  rust_event-Acknowledged :
      (n : ℕ) (prev : String) (r : RustRecord) (ev : Event)
      → rust_event codec n prev r ≡ ok ev
      → Acknowledged ev
  unfolding rust_event
  rust_event-Acknowledged n prev r ev h = ground arith

  rust_events-Acknowledged :
      (n : ℕ) (prev : String) (rs : List RustRecord) (es : List Event)
      → rust_events codec n prev rs ≡ ok es
      → All Acknowledged es
  unfolding rust_events
  rust_events-Acknowledged n prev [] [] h = tt
  rust_events-Acknowledged n prev [] (e ∷ es) h = absurd (ground arith)
  rust_events-Acknowledged n prev (r ∷ rs) es h = elim (Result-cases (rust_event codec n prev r)) [
    | inl (e, f) ↦ absurd (ground (arith, f))
    | inr (ev, f) ↦ elim (Result-cases (rust_events codec (suc n) r.hash rs)) [
      | inl (e, g) ↦ absurd (ground (arith, f, g))
      | inr (later, g) ↦
          let same : (ev ∷ later) ≡ es = ground (arith, f, g) in
          subst (All Acknowledged) same (
            rust_event-Acknowledged n prev r ev f,
            rust_events-Acknowledged (suc n) r.hash rs later g,
          )
    ]
  ]

  Checked : List Event → Type 0
  Checked es = (validate_history codec es ≡ ok tt) × All Acknowledged es

  rust_history-Checked :
      (reply : HistoryReply) (es : List Event) → rust_history codec reply ≡ ok es → Checked es
  unfolding rust_history Checked
  rust_history-Checked unreachable es h = cc
  rust_history-Checked (response status none) es h = ground arith
  rust_history-Checked (response status (some rs)) es h =
      elim (Result-cases (rust_events codec 0 genesis rs)) [
        | inl (e, f) ↦ absurd (ground (arith, f))
        | inr (fs, f) ↦ elim (Result-cases (validate_history codec fs)) [
          | inl (e, g) ↦ absurd (ground (arith, f, g))
          | inr (u, g) ↦
              let same : fs ≡ es = ground (arith, f, g) in
              subst Checked same (g, rust_events-Acknowledged 0 genesis rs fs f)
        ]
      ]

  rebase-IsHead :
      (s : Service) (r : Result ReadError (List Event)) (es : List Event)
      → (validate_history codec es ≡ ok tt)
      → suc (length es) < limit
      → (rebase codec s r).1 ≡ ok es
      → IsHead codec es (rebase codec s r).0
  unfolding rebase
  rebase-IsHead s (err e) es valid bound h = cc
  rebase-IsHead s (ok fs) es valid bound h =
      let same : fs ≡ es = ground arith in
      record {
        valid = valid;
        at_seq = next_seq-length es bound ∙ ap (λ gs. inc (pos (length gs))) (sym same);
        at_hash = ap (head_hash genesis) (sym same);
      }

  rebase-result :
      (s : Service) (r : Result ReadError (List Event)) (es : List Event)
      → (rebase codec s r).1 ≡ ok es
      → r ≡ ok es
  unfolding rebase
  rebase-result s (err e) es h = cc
  rebase-result s (ok fs) es h = h

  -- With a ledger configured and fewer events than `int64` counts, when `RustAcknowledgedEvents`
  -- succeeds the service stands at the head of the events that it returns, which are a valid
  -- history, and each of them has a valid acknowledgement.
  pub rust_acknowledged_events-IsHead :
      (reply : HistoryReply) (s : Service) (es : List Event)
      → s.sidecar_url ≢ ""
      → suc (length es) < limit
      → (rust_acknowledged_events codec reply s).1 ≡ ok es
      → IsHead codec es (rust_acknowledged_events codec reply s).0 × All Acknowledged es
  unfolding rust_acknowledged_events Checked
  rust_acknowledged_events-IsHead reply s es url bound = rw (ne→false s.sidecar_url "" url) λ h.
      let (valid, acked) =
        rust_history-Checked reply es (rebase-result s (rust_history codec reply) es h) in
      (rebase-IsHead s (rust_history codec reply) es valid bound h, acked)
