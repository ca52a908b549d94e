-- ===== src/Transition/Propose/Answers.antt =====
-- `Propose` with the checks that lead to each of its answers.
use cann_o_call.Prelude.{◌≡◌, String, true, false, Option, none, some, ◌==◌}
use cann_o_call.Prelude.Result.{Result, ok, err}
use cann_o_call.EventLog.{Event}
use cann_o_call.Transition.{
  Stop, rejected, panicked, stale, policy, durable, conflict, ProposedTransition,
  AcceptedTransition, AcceptedRecord, Authority, Codec, ref,
}
use cann_o_call.Transition.Encode.{clone_projection}
use cann_o_call.Transition.Propose.{
  Policy, Admission, canonical_proposal, lookup, accepted_event, ref_eq, denies,
}
use cann_o_call.Transition.Propose.Outcome.{Accepts, Admits}

module _ (codec : Codec) {L : Type 0} (append : L → Event → L × Option Event) where
  -- A canonical request whose id no accepted transition has.
  pub record IsFresh (a : Authority) (p n : ProposedTransition) (request : String) : Type 0 where
    pub canonical : canonical_proposal codec p ≡ ok (request, n)
    pub fresh : lookup n.transition_id a.accepted ≡ none

  -- What `Propose` comes to, each with what was found of the proposal, the map and the state.
  pub data Answers (pol : Policy) (log : L) (a : Authority) (p : ProposedTransition)
      (out : L × Authority × Result Stop AcceptedTransition) : Type 0 where
    unreadable :
        (e : Stop)
        → canonical_proposal codec p ≡ err e
        → out ≡ (log, a, err e)
        → Answers pol log a p out
    repeats :
        (n : ProposedTransition) (request : String) (r : AcceptedRecord)
        → canonical_proposal codec p ≡ ok (request, n)
        → lookup n.transition_id a.accepted ≡ some r
        → (r.request == request) ≡ true
        → out ≡ (log, a, ok (record r.accepted { duplicate = true }))
        → Answers pol log a p out
    conflicts :
        (n : ProposedTransition) (request : String) (r : AcceptedRecord)
        → canonical_proposal codec p ≡ ok (request, n)
        → lookup n.transition_id a.accepted ≡ some r
        → (r.request == request) ≡ false
        → out ≡ (log, a, err (rejected conflict))
        → Answers pol log a p out
    is_stale :
        (n : ProposedTransition) (request : String)
        → IsFresh a p n request
        → ref_eq n.prior (ref a.state) ≡ false
        → out ≡ (log, a, err (rejected stale))
        → Answers pol log a p out
    is_denied :
        (n : ProposedTransition) (request : String)
        → IsFresh a p n request
        → ref_eq n.prior (ref a.state) ≡ true
        → denies pol n (clone_projection a.state) ≡ true
        → out ≡ (log, a, err (rejected policy))
        → Answers pol log a p out
    panics :
        (n : ProposedTransition) (request : String)
        → IsFresh a p n request
        → ref_eq n.prior (ref a.state) ≡ true
        → denies pol n (clone_projection a.state) ≡ false
        → out ≡ (log, a, err panicked)
        → Answers pol log a p out
    unrecorded :
        (x : Admission codec)
        → Admits codec pol a p x
        → out ≡ ((append log (accepted_event codec x)).0, a, err (rejected durable))
        → Answers pol log a p out
    accepts :
        (z : Accepts codec append pol log a p out)
        → Admits codec pol a p z.x
        → Answers pol log a p out
