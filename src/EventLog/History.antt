-- ===== src/EventLog/History.antt =====
-- internal/eventlog/list.go `ValidateHistory` and internal/eventlog/verify.go `Verify`: the two walks
-- along a hash chain.
pub mod Chain
use cann_o_call.Prelude.{
  ℕ, suc, String, Bool, true, false, List, [], ◌∷◌, Option, none, some, ◌==◌, if◌then◌else◌,
}
use cann_o_call.Prelude.Int64.{ℤ, pos, ◌==ℤ◌, inc}
use cann_o_call.Prelude.Result.{Result, ok, err, ◌>>=◌, ◌>>◌, guard, or_fail, wrap_err}
use cann_o_call.EventLog.{
  Event, Codec, AckError, genesis, requires_rust_acknowledgement, validate_rust_acknowledgement,
  hash_event,
}

pub data HistoryError : Type 0 where
  wrong_seq prev_hash_mismatch no_hash hash_mismatch : HistoryError
  bad_ack : AckError → HistoryError

-- What `Verify` reports; the reason is a text in the source.
pub record Report : Type 0 where
  pub ok : Bool
  pub events_checked : ℕ
  pub failed_seq : Option ℤ
  pub reason : Option HistoryError
  pub last_hash : String

unfoldable pub check_ack_of : Event → Result HistoryError (Unit {0})
check_ack_of ev =
    if requires_rust_acknowledgement ev
    then wrap_err bad_ack (validate_rust_acknowledgement ev)
    else ok tt

module _ (codec : Codec) where
  -- One round of the loop of `ValidateHistory`.
  unfoldable pub check_event : String → ℤ → Event → Result HistoryError (Unit {0})
  unfolding check_ack_of
  check_event prev expected ev = do
    guard (ev.seq ==ℤ expected) wrong_seq
    guard (ev.prev_hash == prev) prev_hash_mismatch
    computed ← or_fail (hash_event codec ev) no_hash
    guard (computed == ev.hash) hash_mismatch
    check_ack_of ev

  unfoldable pub validate_from : String → ℤ → List Event → Result HistoryError (Unit {0})
  validate_from prev expected [] = ok tt
  validate_from prev expected (ev ∷ events) =
      let rest = validate_from ev.hash (inc expected) events in check_event prev expected ev >> rest

  unfoldable pub validate_history : List Event → Result HistoryError (Unit {0})
  unfolding validate_from check_event
  validate_history events = validate_from genesis (pos 1) events

  abbrev failure : ℕ → String → Event → HistoryError → Report
  failure checked prev ev e = record {
    ok = false;
    events_checked = checked;
    failed_seq = some ev.seq;
    reason = some e;
    last_hash = prev;
  }

  -- `Verify` tests each event for itself, in its own order of early returns.
  verify_from : String → ℤ → ℕ → List Event → Report
  verify_from prev expected checked [] = record {
    ok = true;
    events_checked = checked;
    failed_seq = none;
    reason = none;
    last_hash = prev;
  }
  verify_from prev expected checked (ev ∷ events) =
      let rest = verify_from ev.hash (inc expected) (suc checked) events in
      let acknowledged : Report = elim (validate_rust_acknowledgement ev) [
        | err e ↦ failure checked prev ev (bad_ack e)
        | ok _ ↦ rest
      ] in
      if ev.seq ==ℤ expected
      then (if ev.prev_hash == prev
          then elim (hash_event codec ev) [
            | none ↦ failure checked prev ev no_hash
            | some computed ↦
                if computed == ev.hash
                then (if requires_rust_acknowledgement ev then acknowledged else rest)
                else failure checked prev ev hash_mismatch
          ]
          else failure checked prev ev prev_hash_mismatch)
      else failure checked prev ev wrong_seq

  -- `Verify`, of the events that `List` read.
  unfoldable pub verify : List Event → Report
  unfolding verify_from
  verify events = verify_from genesis (pos 1) 0 events

-- The hash and the number that the next event continues.
unfoldable pub head_hash : String → List Event → String
head_hash prev [] = prev
head_hash prev (ev ∷ events) = head_hash ev.hash events

unfoldable pub next_seq : ℤ → List Event → ℤ
next_seq expected [] = expected
next_seq expected (ev ∷ events) = next_seq (inc expected) events
