-- ===== src/Graph/Build.antt =====
-- `Build` of internal/graph/builder.go.
pub mod Order
mod Depth
pub mod Ends
pub mod Joined
mod Named
use Prim.Native.String.{◌++◌, len}
use mathlib.Core.List
use cann_o_call.Prelude.{
  ℕ, zero, suc, String, Bool, true, false, not, ◌&&◌, ◌||◌, List, [], ◌∷◌, Option, none, some, ◌==◌,
  ◌>>=◌, leb, if◌then◌else◌,
}
use cann_o_call.Prelude.Text.{str_lt}
use cann_o_call.Prelude.Sort.{sort}
use cann_o_call.Prelude.Assoc.{find, put}
use cann_o_call.Ingest.{Lib, SourcePacket, extraction_version, source_type_html}
use cann_o_call.Graph
use cann_o_call.Graph.{
  Node, Edge, Codec, Provenance, deterministic_node_id, deterministic_edge_id, hash_graph,
  sorted_edges, node_type_source, node_type_file, node_type_directory, node_type_metadata,
  edge_contains, edge_derived_from, edge_source, edge_parent, edge_hyperlink, edge_reference,
}
use cann_o_call.Graph.Links.{contains_href, extract_links, first_by}

-- The graph under construction, and the nodes of the directories by their paths.
pub record Building : Type 0 where
  pub nodes : List (String × Node)
  pub edges : List Edge
  pub dirs : List (String × String)

abbrev pub started : Building
started = record { nodes = []; edges = []; dirs = [] }

unfoldable pub with_edge : Edge → Building → Building
with_edge e b = record b { edges = List.◌++◌ b.edges (e ∷ []) }

-- `if _, exists := g.Nodes[id]; !exists { g.Nodes[id] = … }`
unfoldable pub with_node : Node → Building → Building
unfolding find put
with_node n b = elim (find n.node_id b.nodes) [
  | none ↦ record b { nodes = put n.node_id n b.nodes }
  | some old ↦ b
]

unfoldable pub with_edges : List Edge → Building → Building
unfolding with_edge
with_edges [] b = b
with_edges (e ∷ l) b = with_edges l (with_edge e b)

abbrev pub source_id_of : SourcePacket → String
source_id_of p = p.identity.source_id

abbrev pub is_root : String → Bool
is_root d = d == "." || d == "/"

unfoldable pub locator_of : SourcePacket → String
locator_of p = if p.identity.locator == "" then p.identity.source_ref else p.identity.locator

unfoldable pub provenance_of : SourcePacket → Provenance
unfolding locator_of
provenance_of p = record {
  workspace_id = p.provenance.workspace_id;
  extraction_id = p.provenance.extraction_id;
  extraction_version = p.provenance.extraction_version;
  source_locator = locator_of p;
  event_id = p.provenance.event_id;
}

-- `dir` is `path.Dir` of the standard library; `workspace` the first packet's.
module _ (lib : Lib) (dir : String → String) (workspace : String) where
  unfoldable pub edge : Provenance → String → String → String → Edge
  unfolding deterministic_edge_id
  edge prov from to kind = record {
    edge_id = deterministic_edge_id lib from to kind workspace;
    from_id = from;
    to_id = to;
    edge_type = kind;
    provenance = prov;
    created_event_id = "";
  }

  unfoldable pub directory_node : Provenance → String → String → Node
  unfolding deterministic_node_id
  directory_node prov path parent = record {
    node_id = deterministic_node_id lib workspace "" path node_type_directory extraction_version;
    source_id = "";
    source_sha256 = "";
    source_locator = path;
    node_type = node_type_directory;
    content_id = "";
    content_hash = "";
    content_ref = "";
    metadata_ref = "";
    parent_id = parent;
    provenance = prov;
    created_event_id = "";
    derived_from_id = "";
    semantic_ref = "";
  }

  -- The new node of a directory whose parent's id is known, with the edge from the parent.
  unfoldable pub add_directory : Provenance → String → String → Building → Building × String
  unfolding directory_node edge with_edge put
  add_directory prov path parent b =
      let n = directory_node prov path parent in
      let added = record b { nodes = put n.node_id n b.nodes; dirs = put path n.node_id b.dirs } in
      (
        if parent == "" then added else with_edge (edge prov parent n.node_id edge_contains) added,
        n.node_id,
      )

  -- The node of a directory below one that is placed, or the one it has.
  unfoldable pub enter : Provenance → String → Building × String → Building → Building × String
  unfolding add_directory find
  enter prov path above b =
      if path == "" || is_root path then (b, "") else elim (find path b.dirs) [
        | some id ↦ (b, id)
        | none ↦ add_directory prov path above.1 above.0
      ]

  -- `ensureDir`. Each parent is a shorter path, so the path's length is fuel enough.
  unfoldable pub ensure_dir : ℕ → Provenance → String → Building → Building × String
  unfolding enter
  ensure_dir zero prov path b = (b, "")
  ensure_dir (suc n) prov path b =
      let up = dir path in
      let above = if is_root up || up == path then (b, "") else ensure_dir n prov up b in
      enter prov path above b

  unfoldable pub source_node : SourcePacket → Node
  unfolding deterministic_node_id locator_of provenance_of
  source_node p = record {
    node_id =
        deterministic_node_id lib p.identity.source_id p.identity.source_sha256 (locator_of p)
          node_type_source extraction_version;
    source_id = p.identity.source_id;
    source_sha256 = p.identity.source_sha256;
    source_locator = locator_of p;
    node_type = node_type_source;
    content_id = p.content.content_id;
    content_hash = p.content.content_hash;
    content_ref = p.content.ref;
    metadata_ref = p.metadata.source_id;
    parent_id = "";
    provenance = provenance_of p;
    created_event_id = p.provenance.event_id;
    derived_from_id = "";
    semantic_ref = p.content.ref;
  }

  unfoldable pub file_node : SourcePacket → String → Node
  unfolding deterministic_node_id locator_of provenance_of source_node
  file_node p parent = record {
    node_id =
        deterministic_node_id lib p.identity.source_id p.content.content_hash (locator_of p)
          node_type_file extraction_version;
    source_id = p.identity.source_id;
    source_sha256 = p.identity.source_sha256;
    source_locator = locator_of p;
    node_type = node_type_file;
    content_id = p.content.content_id;
    content_hash = p.content.content_hash;
    content_ref = p.content.ref;
    metadata_ref = p.metadata.source_id;
    parent_id = parent;
    provenance = provenance_of p;
    created_event_id = p.provenance.event_id;
    derived_from_id = (source_node p).node_id;
    semantic_ref = "";
  }

  unfoldable pub metadata_node : SourcePacket → Node
  unfolding deterministic_node_id locator_of provenance_of
  metadata_node p = record {
    node_id =
        deterministic_node_id lib p.identity.source_id p.identity.source_sha256
          (locator_of p ++ ":meta") node_type_metadata extraction_version;
    source_id = p.identity.source_id;
    source_sha256 = p.identity.source_sha256;
    source_locator = locator_of p;
    node_type = node_type_metadata;
    content_id = "";
    content_hash = "";
    content_ref = "";
    metadata_ref = p.metadata.source_id;
    parent_id = "";
    provenance = provenance_of p;
    created_event_id = p.provenance.event_id;
    derived_from_id = "";
    semantic_ref = "";
  }

  unfoldable pub directory_edges : Provenance → String → String → List Edge
  unfolding edge
  directory_edges prov parent file =
      if parent == ""
      then []
      else edge prov parent file edge_contains ∷ edge prov file parent edge_parent ∷ []

  unfoldable pub link_edges : Provenance → String → List String → List Edge
  unfolding edge deterministic_node_id
  link_edges prov file [] = []
  link_edges prov file (link ∷ links) =
      edge prov file (deterministic_node_id lib link "" link "external" extraction_version)
        edge_hyperlink
      ∷ link_edges prov file links

  -- The links of a page; `none` where `extractLinks` panics.
  unfoldable pub links_of : SourcePacket → Option (List String)
  unfolding contains_href extract_links
  links_of p =
      let lower = lib.to_lower p.content.text in
      if p.identity.source_type == source_type_html && contains_href lower
      then extract_links p.content.text lower
      else some []

  -- The directory of a packet with those above it; the id is empty where there is none.
  unfoldable pub place : SourcePacket → Building → Building × String
  unfolding ensure_dir locator_of provenance_of
  place p b =
      let up = dir (locator_of p) in
      if is_root up then (b, "") else ensure_dir (suc (len up)) (provenance_of p) up b

  -- The edges of a packet below a directory, but for those of its links.
  unfoldable pub packet_edges : SourcePacket → String → List Edge
  unfolding source_node file_node metadata_node edge directory_edges provenance_of
  packet_edges p parent =
      let prov = provenance_of p in
      let source = source_node p in
      let file = file_node p parent in
      let meta = metadata_node p in
      edge prov source.node_id file.node_id edge_derived_from
      ∷ edge prov file.node_id meta.node_id edge_reference
      ∷ edge prov source.node_id meta.node_id edge_source
      ∷ directory_edges prov parent file.node_id

  unfoldable pub add_below : SourcePacket → Building × String → Building
  unfolding source_node file_node metadata_node with_node with_edges packet_edges
  add_below p (b, parent) =
      with_edges (packet_edges p parent)
        (with_node (metadata_node p) (with_node (file_node p parent) (with_node (source_node p) b)))

  unfoldable pub add_packet : SourcePacket → Building → Option Building
  unfolding place add_below links_of link_edges with_edges file_node provenance_of
  add_packet p b = do
    links ← links_of p
    some (
        with_edges (link_edges (provenance_of p) (file_node p "").node_id links)
          (add_below p (place p b)))

  unfoldable pub add_packets : List SourcePacket → Building → Option Building
  unfolding add_packet
  add_packets [] b = some b
  add_packets (p ∷ l) b = do next ← add_packet p b; add_packets l next

abbrev pub workspace_of : List SourcePacket → String
workspace_of [] = ""
workspace_of (p ∷ l) = p.identity.workspace_id

module _ (lib : Lib) (codec : Codec) (dir : String → String) where
  -- The edges without repetition, as the map of them is visited, then in order; and the hash.
  unfoldable pub finished : String → Building → Graph.Graph
  unfolding first_by sorted_edges hash_graph
  finished workspace b =
      let g : Graph.Graph = record {
        workspace_id = workspace;
        version = extraction_version;
        nodes = b.nodes;
        edges = sorted_edges (codec.iterate (first_by (λ (e : Edge). e.edge_id) [] b.edges)).0;
        hash = "";
      } in
      record g { hash = hash_graph lib codec g }

  -- The rest of `Build`, from the sorted packets.
  unfoldable pub build_sorted : List SourcePacket → Option Graph.Graph
  unfolding add_packets finished
  build_sorted packets = do
    b ← add_packets lib dir (workspace_of packets) packets started
    some (finished (workspace_of packets) b)

  -- `Build`; it returns no error, and `none` is a panic.
  unfoldable pub build : List SourcePacket → Option Graph.Graph
  unfolding build_sorted sort
  build packets = build_sorted (sort str_lt source_id_of packets)
