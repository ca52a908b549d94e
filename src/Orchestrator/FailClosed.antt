-- ===== src/Orchestrator/FailClosed.antt =====
-- What a call of `Ingest` changes.
use cann_o_call.Prelude.{
  Bool, ◌≡◌, refl, sym, ap, ◌∙◌, subst, inl, inr, Option, some, arith, ◌==◌, Option-cases,
  Bool-cases, eq→path,
}
use cann_o_call.Prelude.Assoc.{find}
use cann_o_call.Prelude.Maps.{find-put}
use cann_o_call.Prelude.Result.{Result, ok, err, Result-cases}
use cann_o_call.EventLog.{Event}
use cann_o_call.Transition.{AcceptedTransition, AcceptedRecord, Authority}
use cann_o_call.Transition.Propose.{lookup}
use cann_o_call.Ingest.Propose.Recorded.{Comes, fails, records, propose_ingest-Comes}
use cann_o_call.Graph.Store.Answer.{Answers, apply-Answers}
use cann_o_call.Ingest.{SourcePacket, PacketError, validate_packet, is_blank}
use cann_o_call.Ingest.Propose.{IngestError, propose_ingest, transition_id_of}
use cann_o_call.Graph
use cann_o_call.Graph.Store.{Store, apply}
use cann_o_call.Orchestrator.{
  ingest_failed, Orchestrator, Env, OrchestratorError, check_ingest, with_packet, project,
  after_proposal, ingest, ingest_failed,
}

module _ (env : Env) {L : Type 0} (append : L → Event → L × Option Event) where
  -- What the checks of `Ingest` have established.
  record Checked (o : Orchestrator) (p : SourcePacket) (a : Authority) (s : Store) : Type 0 where
    has_authority : o.authority ≡ some a
    has_store : o.graph_store ≡ some s
    valid : validate_packet env.lib p ≡ ok tt
    same_workspace : p.identity.workspace_id ≡ o.workspace_id

  check_ingest-Checked :
      (o : Orchestrator) (p : SourcePacket) (a : Authority) (s : Store)
      → check_ingest env append o p ≡ ok (a, s)
      → Checked o p a s
  unfolding check_ingest
  check_ingest-Checked o p a s h = elim (Bool-cases (is_blank o.workspace_id)) [
    | inl b ↦ absurd (ground (arith, h, b))
    | inr b ↦ elim (Option-cases o.authority) [
      | inl c ↦ absurd (ground (arith, h, b, c))
      | inr (x, c) ↦ elim (Option-cases o.graph_store) [
        | inl d ↦ absurd (ground (arith, h, b, c, d))
        | inr (y, d) ↦ elim (Result-cases (validate_packet env.lib p)) [
          | inl (e, f) ↦ absurd (ground (arith, h, b, c, d, f))
          | inr (u, f) ↦ elim (Bool-cases (p.identity.workspace_id == o.workspace_id)) [
            | inr g ↦ absurd (ground (arith, h, b, c, d, f, g))
            | inl g ↦
                let made : Authority × Store = (x, y) in
                let same : made ≡ (a, s) = ground (arith, h, b, c, d, f, g) in
                record {
                  has_authority = c ∙ ap (λ z. some z.0) same;
                  has_store = d ∙ ap (λ z. some z.1) same;
                  valid = f;
                  same_workspace = eq→path p.identity.workspace_id o.workspace_id g;
                }
          ]
        ]
      ]
    ]
  ]

  with_authority :
      (o : Orchestrator) (a b : Authority)
      → o.authority ≡ some b
      → a ≡ b
      → record o { authority = some a } ≡ o
  with_authority o a b h e = rw (e, sym h) refl

  -- What a call of `Ingest` that returns leaves: an error and everything as it was; or the graph of the
  -- store, with the packet's transition recorded by the authority and the packet kept.
  pub data Ingests (o : Orchestrator) (p : SourcePacket)
      (out : Orchestrator × Result OrchestratorError Graph.Graph) : Type 0 where
    leaves : (e : OrchestratorError) → out.1 ≡ err e → out.0 ≡ o → Ingests o p out
    projects :
        (a : Authority) (s : Store) (x : AcceptedRecord)
        → out.0.authority ≡ some a
        → out.0.graph_store ≡ some s
        → out.1 ≡ ok s.graph
        → validate_packet env.lib p ≡ ok tt
        → p.identity.workspace_id ≡ o.workspace_id
        → lookup (transition_id_of env.lib env.packets p) a.accepted ≡ some x
        → find p.identity.source_id out.0.packets ≡ some p
        → Ingests o p out

  with_packet-Ingests :
      (o : Orchestrator) (p : SourcePacket) (a : Authority) (x : AcceptedRecord)
      (done : Store × Result PacketError (Graph.Graph × Bool))
      → Answers done
      → validate_packet env.lib p ≡ ok tt
      → p.identity.workspace_id ≡ o.workspace_id
      → lookup (transition_id_of env.lib env.packets p) a.accepted ≡ some x
      → Ingests o p (with_packet env append (record o { authority = some a }) p done)
  unfolding with_packet
  with_packet-Ingests o p a x (s, ok (g, known)) h v w l =
      projects a s x refl refl (ground (arith, h.same)) v w l
        (find-put p.identity.source_id p o.packets)
  with_packet-Ingests o p a x (s, err e) h v w l = absurd (ground (arith, h.same))

  project-Ingests :
      (o : Orchestrator) (p : SourcePacket) (a : Authority) (s : Store) (x : AcceptedRecord)
      (out : Orchestrator × Result OrchestratorError Graph.Graph)
      → validate_packet env.lib p ≡ ok tt
      → p.identity.workspace_id ≡ o.workspace_id
      → lookup (transition_id_of env.lib env.packets p) a.accepted ≡ some x
      → project env append (record o { authority = some a }) s p ≡ some out
      → Ingests o p out
  unfolding project
  project-Ingests o p a s x out v w l h =
      elim (Option-cases (apply env.lib env.graphs env.dir s p)) [
        | inl e ↦ absurd (ground (arith, h, e))
        | inr (done, e) ↦
            let same : with_packet env append (record o { authority = some a }) p done ≡ out =
              ground (arith, h, e) in
            subst (Ingests o p) same (
              with_packet-Ingests o p a x done
                (apply-Answers env.lib env.graphs env.dir s p done v e) v w l)
      ]

  after_proposal-Ingests :
      (log' : L) (o : Orchestrator) (p : SourcePacket) (a : Authority) (s : Store)
      (made : L × Authority × Result IngestError AcceptedTransition)
      (out : Orchestrator × Result OrchestratorError Graph.Graph)
      → Checked o p a s
      → Comes env.lib env.packets env.json append env.pol a p made
      → after_proposal env append o s p made ≡ (log', some out)
      → Ingests o p out
  unfolding after_proposal
  after_proposal-Ingests log' o p a s (log, b, err e) out c (fails f r same) h =
      let left : Orchestrator × Result OrchestratorError Graph.Graph =
        (record o { authority = some b }, err (ingest_failed e)) in
      let answer : left ≡ out = ground (arith, h) in
      subst (Ingests o p) answer
        (leaves (ingest_failed e) refl (with_authority o b a c.has_authority same))
  after_proposal-Ingests log' o p a s (log, b, err e) out c (records t x r l q) h =
      absurd (ground (arith, r))
  after_proposal-Ingests log' o p a s (log, b, ok t) out c (fails f r same) h =
      absurd (ground (arith, r))
  after_proposal-Ingests log' o p a s (log, b, ok t) out c (records u x r l q) h =
      project-Ingests o p b s x out c.valid c.same_workspace l (ap (λ z. z.1) h)

  -- A call of `Ingest` that returns either fails, and then the authority, the graph store and the
  -- packets are as they were; or the packet is valid and of the workspace of the orchestrator, the
  -- authority has a transition under the id of the packet, the packet is kept, and the answer is
  -- the graph that the store now holds. The call panics instead where `Build` does.
  pub ingest-Ingests :
      (log log' : L) (o : Orchestrator) (p : SourcePacket)
      (out : Orchestrator × Result OrchestratorError Graph.Graph)
      → ingest env append log o p ≡ (log', some out)
      → Ingests o p out
  unfolding ingest after_proposal project
  ingest-Ingests log log' o p out h = elim (Result-cases (check_ingest env append o p)) [
    | inl (e, c) ↦
        let made : Orchestrator × Result OrchestratorError Graph.Graph = (o, err e) in
        let same : made ≡ out = ground (arith, h, c) in
        subst (Ingests o p) same (leaves e refl refl)
    | inr ((a, s), c) ↦
        after_proposal-Ingests log' o p a s
          (propose_ingest env.lib env.packets env.json append env.pol log a p) out
          (check_ingest-Checked o p a s c)
          (propose_ingest-Comes env.lib env.packets env.json append env.pol log a p)
          (rw (c, ingest) at h)
  ]
