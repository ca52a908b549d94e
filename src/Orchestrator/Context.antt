-- ===== src/Orchestrator/Context.antt =====
-- The helpers of internal/orchestrator/orchestrator.go: the context that an actor gets, and what is made of
-- it.
use Prim.Native.String.{◌++◌, slice}
use cann_o_call.Prelude.{
  ℕ, suc, ◌+◌, ◌-◌, String, Bool, ◌||◌, List, [], ◌∷◌, ltb, ◌==◌, if◌then◌else◌,
}
use cann_o_call.Prelude.Trim.{trim_space}
use cann_o_call.EventLog.{is_sha256}
use cann_o_call.Actor.{Activation, ActorResult}
use cann_o_call.Ingest.{Lib, SourcePacket}
use cann_o_call.Graph.{Node}
use cann_o_call.Scoring.{ScoredNode}
use cann_o_call.ContextPacket.{
  ContextPacket, EvidenceItem, packet_version, sort_evidence, bounded_excerpt,
}

abbrev pub or_text : String → String → String
or_text s other = if s == "" then other else s

-- `strings.HasPrefix(status, "rejected_")`
abbrev pub is_rejected : Activation → Bool
is_rejected a = slice a.status 0 9 == "rejected_"

-- `strings.Join(obsParts, "\n---\n")` of the excerpts that are not empty.
unfoldable pub observations_of : List EvidenceItem → String
observations_of [] = ""
observations_of (e ∷ l) =
    let rest = observations_of l in
    if e.excerpt == ""
    then rest
    else if rest == ""
    then e.excerpt
    else e.excerpt ++ "\n---\n" ++ rest

unfoldable pub evidence_refs : List EvidenceItem → List String
evidence_refs [] = []
evidence_refs (e ∷ l) = e.node_id ∷ ("evidence://" ++ e.source_id) ∷ evidence_refs l

abbrev pub or_refs : List String → String → List String
or_refs [] actor = ("evidence://" ++ actor) ∷ []
or_refs (r ∷ l) actor = r ∷ l

-- `buildActorResult`; the confidence is a float that nothing reads.
unfoldable pub build_actor_result : ℕ → Activation → ContextPacket → ActorResult
unfolding observations_of evidence_refs
build_actor_result now act p = record {
  actor_id = act.id;
  lineage_id = act.lineage_id;
  node_id = p.target_node_id;
  status = "observation";
  observations = or_text (observations_of p.evidence) p.query;
  result = "processed:" ++ p.query;
  evidence_refs = or_refs (evidence_refs p.evidence) act.id;
  proposed_actions = "no_op" ∷ [];
  created_at = now;
}

unfoldable pub count_status : (Activation → Bool) → List Activation → ℕ
count_status test [] = 0
count_status test (a ∷ l) = let rest = count_status test l in if test a then suc rest else rest

-- `countActivationStatuses`: active, completed and rejected.
unfoldable pub count_activation_statuses : List Activation → ℕ → ℕ × ℕ × ℕ
unfolding count_status
count_activation_statuses l dedup =
    let marked = count_status (λ a. slice a.status 0 8 == "rejected") l in
    let listed = count_status is_rejected l in
    (
      count_status (λ a. a.status == "active") l,
      count_status (λ a. a.status == "completed" || a.status == "observation") l,
      (if ltb (marked + dedup) listed then dedup else marked + dedup - listed),
    )

module _ (lib : Lib) where
  -- `buildEvidence`, the one item
  unfoldable pub build_evidence : Node → SourcePacket → EvidenceItem
  unfolding bounded_excerpt trim_space
  build_evidence node p =
      let text =
        if trim_space p.content.normalized_text == ""
        then p.content.text
        else p.content.normalized_text in
      let excerpt = bounded_excerpt text in
      let hash =
        if is_sha256 node.content_hash
        then node.content_hash
        else if is_sha256 p.content.content_hash
        then p.content.content_hash
        else lib.sha256_hex excerpt in
      record {
        node_id = node.node_id;
        source_id = p.identity.source_id;
        locator = or_text (or_text node.source_locator p.identity.locator) p.identity.source_ref;
        content_hash = lib.to_lower hash;
        excerpt = excerpt;
        reference = p.content.ref;
        metadata_ref = node.metadata_ref;
      }

  unfoldable pub context_of : String → String → String → ℕ → ScoredNode → Activation → ContextPacket
  unfolding build_evidence sort_evidence
  context_of request query workspace now s act = record {
    request_id = request;
    query = query;
    intent = "";
    workspace_id = workspace;
    target_node_id = s.node.node_id;
    target_actor_id = act.id;
    evidence = sort_evidence (build_evidence s.node s.packet ∷ []);
    scores = s.components;
    lineage = record {
      lineage_id = act.lineage_id;
      parent_actor_id = act.parent_actor_id;
      depth = act.depth;
      remaining_budget = act.remaining_budget;
    };
    timestamp = now;
    version = packet_version;
  }
