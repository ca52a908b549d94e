-- ===== src/Transition/Checkpoint.antt =====
-- internal/transition/rebuild.go: `Checkpoint`, `VerifyCheckpoint` and `RebuildFromCheckpoint`.
use cann_o_call.Prelude.{
  String, Bool, true, false, ◌&&◌, List, [], ◌∷◌, map, Option, none, some, ◌==◌, if◌then◌else◌,
}
use cann_o_call.Prelude.Text.{str_lt}
use cann_o_call.Prelude.Sort.{sort}
use cann_o_call.Prelude.Int64.{ℤ, pos, ◌==ℤ◌, ltb_ℤ}
use cann_o_call.Prelude.Result.{Result, ok, ◌>>=◌, ◌>>◌, guard, or_fail, wrap_err}
use cann_o_call.EventLog.{Event, RustAcknowledgement, genesis, validate_rust_acknowledgement}
use cann_o_call.EventLog.History.{validate_history}
use cann_o_call.Transition.{
  Stop, panicked, DurableBinding, AcceptedTransition, Projection, Authority, Codec,
}
use cann_o_call.Transition.Encode.{clone_projection, projection_bytes, hash_projection}
use cann_o_call.Transition.Propose.{canonical_proposal, lookup, insert, ref_eq}
use cann_o_call.Transition.Rebuild.{corrupt, as_corrupt, absent, new, replay, rebuild}

pub record Checkpoint : Type 0 where
  pub state : Projection
  pub history_sequence : ℤ
  pub history_hash : String
  pub accepted : List AcceptedTransition

-- `acceptedSlice`: the values in the order of the keys of the map.
pub accepted_slice : Authority → List AcceptedTransition
accepted_slice a = map (λ e. e.1.accepted) (sort str_lt (λ e. e.0) a.accepted)

-- The greatest sequence that an accepted transition is bound to, and its hash.
head_of : ℤ → String → List AcceptedTransition → ℤ × String
head_of n hash [] = (n, hash)
head_of n hash (a ∷ rest) =
    let found = head_of a.durable.sequence a.durable.event_hash rest in
    let kept = head_of n hash rest in if ltb_ℤ n a.durable.sequence then found else kept

-- The method `Checkpoint`.
unfoldable pub checkpoint : Authority → Checkpoint
unfolding accepted_slice head_of
checkpoint a =
    let (n, hash) = head_of (pos 0) genesis (accepted_slice a) in
    record {
      state = clone_projection a.state;
      history_sequence = n;
      history_hash = hash;
      accepted = accepted_slice a;
    }

same_acknowledgement : Option RustAcknowledgement → Option RustAcknowledgement → Bool
same_acknowledgement none none = true
same_acknowledgement none (some b) = false
same_acknowledgement (some a) none = false
same_acknowledgement (some a) (some b) =
    a.id == b.id && a.sequence ==ℤ b.sequence && a.hash == b.hash

same_durable_binding : DurableBinding → DurableBinding → Bool
unfolding same_acknowledgement
same_durable_binding a b =
    a.event_id == b.event_id
    && a.sequence ==ℤ b.sequence
    && a.event_hash == b.event_hash
    && same_acknowledgement a.rust_ack b.rust_ack

same_one : AcceptedTransition → AcceptedTransition → Bool
unfolding same_durable_binding
same_one a b =
    a.proposal.transition_id == b.proposal.transition_id
    && ref_eq a.result b.result
    && same_durable_binding a.durable b.durable

same_each : List AcceptedTransition → List AcceptedTransition → Bool
unfolding same_one
same_each [] [] = true
same_each [] (b ∷ bs) = false
same_each (a ∷ rest) [] = false
same_each (a ∷ rest) (b ∷ bs) = same_one a b && same_each rest bs

pub same_accepted : Authority → List AcceptedTransition → Bool
unfolding accepted_slice same_each
same_accepted a expected =
    same_each (accepted_slice a) (sort str_lt (λ t. t.proposal.transition_id) expected)

-- The events up to a number.
up_to : ℤ → List Event → List Event
up_to n [] = []
up_to n (ev ∷ evs) = let rest = up_to n evs in if ltb_ℤ n ev.seq then rest else ev ∷ rest

last_is : ℤ → String → List Event → Bool
last_is n hash [] = false
last_is n hash (ev ∷ []) = ev.seq ==ℤ n && ev.hash == hash
last_is n hash (ev ∷ next ∷ evs) = last_is n hash (next ∷ evs)

at_durable_head : Checkpoint → List Event → Bool
unfolding last_is
at_durable_head cp prefix =
    if cp.history_sequence ==ℤ pos 0
    then cp.history_hash == genesis
    else last_is cp.history_sequence cp.history_hash prefix

-- `eventlog.Event{ID: ..., Seq: ..., RustAck: ...}`
bound_event : DurableBinding → Event
bound_event b = record {
  id = b.event_id;
  seq = b.sequence;
  created_at = 0;
  type = "";
  workspace_id = "";
  actor = "";
  action = "";
  status = "";
  details = [];
  receipt_id = "";
  hash = "";
  prev_hash = "";
  rust_ack = b.rust_ack;
}

module _ (codec : Codec) where
  -- `sameProjection`, which panics where `mustJSON` does.
  pub same_projection : Projection → Projection → Result Stop Bool
  same_projection a b = do
    left ← or_fail (projection_bytes codec a) panicked
    right ← or_fail (projection_bytes codec b) panicked
    ok (left == right)

  -- One turn of the loop of `authorityFromCheckpoint`.
  import_accepted : Authority → AcceptedTransition → Result Stop Authority
  unfolding bound_event
  import_accepted a accepted = do
    (request, proposal) ← wrap_err as_corrupt (canonical_proposal codec accepted.proposal)
    guard (absent (lookup proposal.transition_id a.accepted)) corrupt
    guard (accepted.durable.event_id == proposal.transition_id) corrupt
    wrap_err (λ _. corrupt) (validate_rust_acknowledgement (bound_event accepted.durable))
    ok (record a {
      accepted =
          insert proposal.transition_id
            (record { request = request; accepted = record accepted { proposal = proposal } })
            a.accepted;
    })

  import_all : Authority → List AcceptedTransition → Result Stop Authority
  unfolding import_accepted
  import_all a [] = ok a
  import_all a (t ∷ rest) = do a' ← import_accepted a t; import_all a' rest

  authority_from_checkpoint : Checkpoint → Result Stop Authority
  unfolding import_all
  authority_from_checkpoint cp = do
    a ← new codec
    import_all (record a { state = clone_projection cp.state }) cp.accepted

  -- Both `sameProjection` and `sameAccepted`.
  require_same : Authority → Projection → List AcceptedTransition → Result Stop (Unit {0})
  unfolding same_projection same_accepted
  require_same a state expected = do
    same ← same_projection a.state state
    guard (same && same_accepted a expected) corrupt

  -- The loop of `VerifyCheckpoint` over the events after the checkpoint.
  verify_suffix : Authority → ℤ → List Event → Result Stop Authority
  verify_suffix a n [] = ok a
  verify_suffix a n (ev ∷ events) =
      if ltb_ℤ n ev.seq
      then (do a' ← replay codec a ev; verify_suffix a' n events)
      else verify_suffix a n events

  -- The replay of the suffix against the replay of the whole history.
  compare_with_full : Checkpoint → List Event → Result Stop (Unit {0})
  unfolding authority_from_checkpoint verify_suffix require_same accepted_slice
  compare_with_full cp history = do
    a ← authority_from_checkpoint cp
    from_checkpoint ← verify_suffix a cp.history_sequence history
    full ← rebuild codec history
    require_same from_checkpoint full.state (accepted_slice full)

  -- The replay of the history up to the checkpoint against the checkpoint.
  compare_at_head : Checkpoint → List Event → Result Stop (Unit {0})
  unfolding require_same
  compare_at_head cp prefix = do
    at_head ← rebuild codec prefix
    require_same at_head cp.state cp.accepted

  -- What is checked before anything is replayed.
  check_checkpoint : Checkpoint → List Event → Result Stop (Unit {0})
  unfolding up_to at_durable_head
  check_checkpoint cp history = do
    wrap_err (λ _. corrupt) (validate_history codec.log history)
    hash ← or_fail (hash_projection codec cp.state) panicked
    guard (cp.state.hash == hash) corrupt
    guard (at_durable_head cp (up_to cp.history_sequence history)) corrupt

  pub verify_checkpoint : Checkpoint → List Event → Result Stop (Unit {0})
  unfolding up_to check_checkpoint compare_at_head compare_with_full
  verify_checkpoint cp history = do
    check_checkpoint cp history
    compare_at_head cp (up_to cp.history_sequence history)
    compare_with_full cp history

  -- The loop of `RebuildFromCheckpoint`.
  resume : Authority → ℤ → List Event → Result Stop Authority
  resume a n [] = ok a
  resume a n (ev ∷ events) =
      if ltb_ℤ n ev.seq then (do a' ← replay codec a ev; resume a' n events) else resume a n events

  pub rebuild_from_checkpoint : Checkpoint → List Event → Result Stop Authority
  unfolding verify_checkpoint authority_from_checkpoint resume
  rebuild_from_checkpoint cp history = do
    verify_checkpoint cp history
    a ← authority_from_checkpoint cp
    resume a cp.history_sequence history
