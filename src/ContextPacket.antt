-- ===== src/ContextPacket.antt =====
-- internal/contextpacket/packet.go: the bounded messages that actors are woken with.
use Prim.Native.String.{len, slice}
use cann_o_call.Prelude.{
  ℕ, String, Bool, true, false, not, ◌&&◌, List, [], ◌∷◌, length, leb, nat_eq, ◌==◌, if◌then◌else◌,
}
use cann_o_call.Prelude.Text.{str_lt}
use cann_o_call.Prelude.Sort.{sort}
use cann_o_call.Prelude.Int64.{ℤ, pos, negsuc}
use cann_o_call.Prelude.Assoc.{has}
use cann_o_call.Prelude.Result.{Result, ok, ◌>>◌, guard, wrap_err}
use cann_o_call.EventLog.{is_sha256}
use cann_o_call.Ingest.{is_blank}
use cann_o_call.Scoring.{Components}

abbrev pub packet_version : String
packet_version = "v1"

abbrev pub max_evidence : ℕ
max_evidence = 5

abbrev pub max_excerpt_bytes : ℕ
max_excerpt_bytes = 2048

pub record Lineage : Type 0 where
  pub lineage_id : String
  pub parent_actor_id : String
  pub depth : ℤ
  pub remaining_budget : ℤ

pub record EvidenceItem : Type 0 where
  pub node_id : String
  pub source_id : String
  pub locator : String
  pub content_hash : String
  pub excerpt : String
  pub reference : String
  pub metadata_ref : String

-- Times are counted from the zero `time.Time`.
pub record ContextPacket : Type 0 where
  pub request_id : String
  pub query : String
  pub intent : String
  pub workspace_id : String
  pub target_node_id : String
  pub target_actor_id : String
  pub evidence : List EvidenceItem
  pub scores : Components
  pub lineage : Lineage
  pub timestamp : ℕ
  pub version : String

pub data EvidenceError : Type 0 where
  node_id_required source_id_required locator_required hash_required hash_invalid excerpt_too_long :
      EvidenceError

pub data ContextError : Type 0 where
  request_id_required query_required workspace_id_required target_required version_required
        version_unknown timestamp_required lineage_id_required depth_negative budget_negative
        too_much_evidence evidence_unsorted :
      ContextError
  bad_evidence : EvidenceError → ContextError
  duplicate_node : String → ContextError

unfoldable pub validate_evidence : EvidenceItem → Result EvidenceError (Unit {0})
validate_evidence e = do
  guard (not (is_blank e.node_id)) node_id_required
  guard (not (is_blank e.source_id)) source_id_required
  guard (not (is_blank e.locator)) locator_required
  guard (not (is_blank e.content_hash)) hash_required
  guard (is_sha256 e.content_hash) hash_invalid
  guard (leb (len e.excerpt) max_excerpt_bytes) excerpt_too_long

-- `isSortedByNodeID`
unfoldable pub is_sorted_by_node_id : List EvidenceItem → Bool
is_sorted_by_node_id [] = true
is_sorted_by_node_id (a ∷ []) = true
is_sorted_by_node_id (a ∷ b ∷ l) = not (str_lt b.node_id a.node_id) && is_sorted_by_node_id (b ∷ l)

-- `SortEvidence`
unfoldable pub sort_evidence : List EvidenceItem → List EvidenceItem
unfolding sort
sort_evidence l = sort str_lt (λ (e : EvidenceItem). e.node_id) l

-- The loop over the evidence, with the nodes seen.
unfoldable pub check_each : List String → List EvidenceItem → Result ContextError (Unit {0})
unfolding validate_evidence has
check_each seen [] = ok tt
check_each seen (e ∷ l) = do
  wrap_err bad_evidence (validate_evidence e)
  guard (not (has e.node_id seen)) (duplicate_node e.node_id)
  check_each (e.node_id ∷ seen) l

abbrev pub is_negative : ℤ → Bool
is_negative (pos n) = false
is_negative (negsuc n) = true

-- `ContextPacket.Validate`
unfoldable pub validate : ContextPacket → Result ContextError (Unit {0})
unfolding is_sorted_by_node_id check_each
validate p = do
  guard (not (is_blank p.request_id)) request_id_required
  guard (not (is_blank p.query && is_blank p.intent)) query_required
  guard (not (is_blank p.workspace_id)) workspace_id_required
  guard (not (is_blank p.target_node_id && is_blank p.target_actor_id)) target_required
  guard (not (is_blank p.version)) version_required
  guard (p.version == packet_version) version_unknown
  guard (not (nat_eq p.timestamp 0)) timestamp_required
  guard (not (is_blank p.lineage.lineage_id)) lineage_id_required
  guard (not (is_negative p.lineage.depth)) depth_negative
  guard (not (is_negative p.lineage.remaining_budget)) budget_negative
  guard (leb (length p.evidence) max_evidence) too_much_evidence
  guard (is_sorted_by_node_id p.evidence) evidence_unsorted
  check_each [] p.evidence

-- `BoundedExcerpt`: the whole characters that fit.
unfoldable pub bounded_excerpt : String → String
bounded_excerpt s = if leb (len s) max_excerpt_bytes then s else slice s 0 max_excerpt_bytes
