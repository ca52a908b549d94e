-- ===== src/Graph.antt =====
-- internal/graph/graph.go: the context graph, the identities of its parts and its hash.
pub mod Links
pub mod Build
pub mod Store
pub mod Examples
use mathlib.Core.List.{Permᴰ}
use cann_o_call.Prelude.{
  String, Bool, List, [], ◌∷◌, Option, none, some, map, ◌==◌, ◌>>=◌, if◌then◌else◌,
}
use cann_o_call.Prelude.Text.{str_lt}
use cann_o_call.Prelude.Sort.{sort}
use cann_o_call.Json.{Json}
use cann_o_call.Json.Canonical.{write_canonical}
use cann_o_call.Ingest.{Lib, join, extraction_version}

abbrev pub node_type_source : String
node_type_source = "source"

abbrev pub node_type_file : String
node_type_file = "file"

abbrev pub node_type_directory : String
node_type_directory = "directory"

abbrev pub node_type_metadata : String
node_type_metadata = "metadata"

abbrev pub edge_contains : String
edge_contains = "contains"

abbrev pub edge_derived_from : String
edge_derived_from = "derived_from"

abbrev pub edge_source : String
edge_source = "source"

abbrev pub edge_parent : String
edge_parent = "parent"

abbrev pub edge_hyperlink : String
edge_hyperlink = "hyperlink"

abbrev pub edge_reference : String
edge_reference = "reference"

pub record Provenance : Type 0 where
  pub workspace_id : String
  pub extraction_id : String
  pub extraction_version : String
  pub source_locator : String
  pub event_id : String

pub record Node : Type 0 where
  pub node_id : String
  pub source_id : String
  pub source_sha256 : String
  pub source_locator : String
  pub node_type : String
  pub content_id : String
  pub content_hash : String
  pub content_ref : String
  pub metadata_ref : String
  pub parent_id : String
  pub provenance : Provenance
  pub created_event_id : String
  pub derived_from_id : String
  pub semantic_ref : String

pub record Edge : Type 0 where
  pub edge_id : String
  pub from_id : String
  pub to_id : String
  pub edge_type : String
  pub provenance : Provenance
  pub created_event_id : String

pub record Graph : Type 0 where
  pub workspace_id : String
  pub version : String
  pub nodes : List (String × Node)
  pub edges : List Edge
  pub hash : String

-- What `sort.Slice` compares of two edges.
abbrev pub edge_key : Edge → String × String × String
edge_key e = (e.from_id, e.to_id, e.edge_type)

abbrev pub edge_key_lt : String × String × String → String × String × String → Bool
edge_key_lt (f, t, k) (g, u, l) =
    if f == g then if t == u then str_lt k l else str_lt t u else str_lt f g

-- `SortedEdges`
unfoldable pub sorted_edges : List Edge → List Edge
unfolding sort
sorted_edges edges = sort edge_key_lt edge_key edges

-- `SortedNodes`: the keys are sorted, and each stands for its node.
unfoldable pub sorted_nodes : Graph → List Node
unfolding sort
sorted_nodes g = map (λ n. n.1) (sort str_lt (λ (n : String × Node). n.0) g.nodes)

-- `json.Marshal` of a graph and its decoding with `UseNumber`, and `fmt.Sprintf("%v")`; and the order
-- in which a range over a map of edges visits them, which Go leaves open: any rearrangement.
pub record Codec : Type 0 where
  pub value : Graph → Option Json
  pub iterate : (l : List Edge) → (m : List Edge) × Permᴰ l m
  pub sprint : Graph → String

module _ (lib : Lib) where
  -- `DeterministicNodeID`
  unfoldable pub deterministic_node_id : String → String → String → String → String → String
  unfolding join
  deterministic_node_id source_id source_sha locator node_type version =
      let v = if version == "" then extraction_version else version in
      lib.sha256_hex (join (source_id ∷ lib.to_lower source_sha ∷ locator ∷ node_type ∷ v ∷ []))

  -- `DeterministicEdgeID`
  unfoldable pub deterministic_edge_id : String → String → String → String → String
  unfolding join
  deterministic_edge_id from_id to_id edge_type workspace_id =
      lib.sha256_hex (join (from_id ∷ to_id ∷ edge_type ∷ workspace_id ∷ []))

  -- `HashGraph`; a map of Go has no order, so copying the nodes in the order of their keys changes nothing.
  unfoldable pub hash_graph : Codec → Graph → String
  unfolding sorted_edges write_canonical
  hash_graph codec g =
      let clone = record g { hash = ""; edges = sorted_edges g.edges } in
      elim (codec.value clone >>= write_canonical) [
        | none ↦ lib.sha256_hex (codec.sprint clone)
        | some text ↦ lib.sha256_hex text
      ]
