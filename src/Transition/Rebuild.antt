-- ===== src/Transition/Rebuild.antt =====
-- internal/transition/rebuild.go: `Rebuild` and `replay`.
pub mod Refine
use mathlib.Core.List
use cann_o_call.Prelude.{
  ℕ, String, Bool, true, false, not, ◌&&◌, List, [], ◌∷◌, ◌++◌, map, Option, none, some, ◌==◌,
  nat_eq, if◌then◌else◌, length,
}
use cann_o_call.Prelude.Text.{str_lt}
use cann_o_call.Prelude.Sort.{sort}
use cann_o_call.Prelude.Int64.{ℤ, pos, ◌==ℤ◌, ltb_ℤ}
use cann_o_call.Prelude.Result.{Result, ok, err, ◌>>=◌, ◌>>◌, guard, or_fail, wrap_err}
use cann_o_call.Json.{Json}
use cann_o_call.EventLog.{
  Event, RustAcknowledgement, genesis, accepted_transition_event_type,
  validate_rust_acknowledgement,
}
use cann_o_call.EventLog.History.{validate_history}
use cann_o_call.Transition.{
  replay_corruption, Stop, rejected, panicked, StateRef, ProposedTransition, DurableBinding,
  AcceptedTransition, Projection, AcceptedRecord, Authority, Codec, ref,
}
use cann_o_call.Transition.Encode.{
  canonical_json, clone_projection, initial, projection_bytes, hash_projection,
}
use cann_o_call.Transition.Apply.{apply}
use cann_o_call.Transition.Propose.{canonical_proposal, lookup, insert, ref_eq, durable_binding}

abbrev pub corrupt : Stop
corrupt = rejected replay_corruption

-- A rejection is reported as corruption; a panic stays one.
unfoldable pub as_corrupt : Stop → Stop
as_corrupt (rejected c) = corrupt
as_corrupt panicked = panicked

lookup_detail : String → List (String × Json) → Option Json
lookup_detail k [] = none
lookup_detail k ((j, v) ∷ m) = if j == k then some v else lookup_detail k m

unfoldable pub absent : Option AcceptedRecord → Bool
absent none = true
absent (some r) = false

valid_envelope : Event → Bool
valid_envelope ev =
    ev.status == "accepted"
    && ev.action == "transition.accepted"
    && not (ev.id == "")
    && nat_eq (length ev.details) 1

module _ (codec : Codec) where
  replay_accepted : Authority → Event → Result Stop Authority
  unfolding as_corrupt lookup_detail absent valid_envelope lookup
  replay_accepted a ev = do
    guard (valid_envelope ev) corrupt
    detail ← or_fail (lookup_detail "accepted_transition" ev.details) corrupt
    accepted ← or_fail (codec.read_accepted detail) corrupt
    (request, proposal) ← wrap_err as_corrupt (canonical_proposal codec accepted.proposal)
    guard (ev.id == proposal.transition_id) corrupt
    guard (absent (lookup proposal.transition_id a.accepted)) corrupt
    guard (ref_eq proposal.prior (ref a.state)) corrupt
    next ← or_fail (apply codec a.state proposal) panicked
    guard (ref_eq accepted.result (ref next)) corrupt
    admission ← or_fail (canonical_json codec accepted.admission) corrupt
    guard (admission == proposal.admission_data) corrupt
    let kept : AcceptedTransition = record accepted {
      proposal = proposal;
      admission = proposal.admission_data;
      durable = durable_binding codec ev;
    }
    ok (record {
      state = next;
      accepted =
          insert proposal.transition_id (record { request = request; accepted = kept }) a.accepted;
    })

  -- Other events leave the semantic state alone.
  unfoldable pub replay : Authority → Event → Result Stop Authority
  unfolding replay_accepted
  replay a ev = if ev.type == accepted_transition_event_type then replay_accepted a ev else ok a

  unfoldable pub replay_all : Authority → List Event → Result Stop Authority
  unfolding replay
  replay_all a [] = ok a
  replay_all a (ev ∷ events) = do a' ← replay a ev; replay_all a' events

  -- `New`
  unfoldable pub new : Result Stop Authority
  unfolding initial
  new = do state ← or_fail (initial codec) panicked; ok (record { state = state; accepted = [] })

  unfoldable pub rebuild : List Event → Result Stop Authority
  unfolding replay_all new
  rebuild events = do
    wrap_err (λ _. corrupt) (validate_history codec.log events)
    a ← new
    replay_all a events
