-- ===== src/Ingest/Propose/Recorded.antt =====
-- The two things that `ProposeIngest` comes to.
use cann_o_call.Prelude.{String, ◌≡◌, refl, ap, Option, some, arith}
use cann_o_call.Prelude.Result.{Result, ok, err}
use cann_o_call.EventLog.{Event}
use cann_o_call.Transition
use cann_o_call.Transition.{Stop, AcceptedTransition, AcceptedRecord, Authority}
use cann_o_call.Transition.Propose.{Policy, propose, lookup}
use cann_o_call.Transition.Propose.Outcome.{refuses, repeats, accepts, propose-Outcome}
use cann_o_call.Transition.Propose.Recorded.{propose-IsRecorded}
use cann_o_call.Ingest.{Lib, SourcePacket}
use cann_o_call.Ingest.Propose.{
  Codec, IngestError, transition_id_of, proposal_of, prepared, propose_prepared, propose_ingest,
  answered,
}

module _ (lib : Lib) (codec : Codec) (json : Transition.Codec) {L : Type 0}
    (append : L → Event → L × Option Event) (pol : Policy) where
  -- An error, with the authority as it was; or a transition that the authority has under the packet's id.
  pub data Comes (a : Authority) (p : SourcePacket)
      (out : L × Authority × Result IngestError AcceptedTransition) : Type 0 where
    fails : (e : IngestError) → out.2 ≡ err e → out.1 ≡ a → Comes a p out
    records :
        (t : AcceptedTransition) (r : AcceptedRecord)
        → out.2 ≡ ok t
        → lookup (transition_id_of lib codec p) out.1.accepted ≡ some r
        → t ≡ record r.accepted { duplicate = t.duplicate }
        → Comes a p out

  refused-same :
      (log : L) (a : Authority) (p : SourcePacket) (text : String) (e : Stop)
      → (propose json append pol log a (proposal_of lib codec p text a)).2 ≡ err e
      → (propose json append pol log a (proposal_of lib codec p text a)).1 ≡ a
  refused-same log a p text e h =
      elim (propose-Outcome json append pol log a (proposal_of lib codec p text a)) [
        | refuses f same out ↦ same
        | repeats t d out ↦ ap (λ o. o.1) out
        | accepts z ↦ absurd (ground (arith, h, z.returned))
      ]

  answered-Comes :
      (a : Authority) (p : SourcePacket) (log : L) (a' : Authority)
      (r : Result Stop AcceptedTransition)
      → ((e : Stop) → r ≡ err e → a' ≡ a)
      → ((t : AcceptedTransition)
          → r ≡ ok t
          → (x : AcceptedRecord) × (lookup (transition_id_of lib codec p) a'.accepted ≡ some x)
            × (t ≡ record x.accepted { duplicate = t.duplicate }))
      → Comes a p (answered lib codec json append pol (log, a', r))
  unfolding answered
  answered-Comes a p log a' (err e) h k = fails _ refl (h e refl)
  answered-Comes a p log a' (ok t) h k =
      let found = k t refl in records t found.0 refl found.1 found.2

  propose_prepared-Comes :
      (log : L) (a : Authority) (p : SourcePacket) (text : Result IngestError String)
      → Comes a p (propose_prepared lib codec json append pol log a p text)
  unfolding propose_prepared proposal_of
  propose_prepared-Comes log a p (err e) = fails e refl refl
  propose_prepared-Comes log a p (ok text) =
      let q = proposal_of lib codec p text a in
      let out = propose json append pol log a q in
      answered-Comes a p out.0 out.1 out.2 (refused-same log a p text)
        (λ t h. propose-IsRecorded json append pol log a q t h)

  pub propose_ingest-Comes :
      (log : L) (a : Authority) (p : SourcePacket)
      → Comes a p (propose_ingest lib codec json append pol log a p)
  unfolding propose_ingest
  propose_ingest-Comes log a p = propose_prepared-Comes log a p (prepared lib codec p)
