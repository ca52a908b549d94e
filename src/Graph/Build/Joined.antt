-- ===== src/Graph/Build/Joined.antt =====
-- The two ends of the edges of a built graph.
use Prim.Native.String.{len}
use cann_o_call.Prelude.{
  suc, ◌≡◌, refl, subst, inl, inr, String, Bool, true, false, List, [], ◌∷◌, some, All, ◌==◌,
  Bool-cases, Option-cases, arith, if◌then◌else◌,
}
use cann_o_call.Prelude.Text.{str_lt}
use cann_o_call.Prelude.Sort.{sort}
use cann_o_call.Prelude.Sort.Permute.{All-Perm, Perm-sort}
use cann_o_call.Prelude.Assoc.{has}
use cann_o_call.Ingest.{Lib, SourcePacket}
use cann_o_call.Graph
use cann_o_call.Graph.{
  Codec, Edge, Node, Provenance, edge_hyperlink, edge_key, edge_key_lt, sorted_edges,
}
use cann_o_call.Graph.Links.{first_by}
use cann_o_call.Graph.Build.{
  Building, started, with_node, edge, source_id_of, workspace_of, place, add_below, packet_edges,
  add_packet, add_packets, link_edges, directory_edges, finished, build, build_sorted, is_root,
  source_node, file_node, metadata_node, links_of, locator_of, provenance_of,
}
use cann_o_call.Graph.Build.Ends.{
  HasNode, Joins, Joined, Adds, with_edges-Joined, is_there, with_node-Keeps, nowhere,
  ensure_dir-Adds,
}

module _ (lib : Lib) (dir : String → String) (workspace : String) where
  -- The edges of the links of a page.
  link_edges-Joins :
      (nodes : List (String × Node)) (prov : Provenance) (file : String) (links : List String)
      → All (Joins nodes) (link_edges lib dir workspace prov file links)
  unfolding link_edges edge
  link_edges-Joins nodes prov file [] = tt
  link_edges-Joins nodes prov file (l ∷ links) = (inl refl, link_edges-Joins nodes prov file links)

  directory_edges-Joins :
      (nodes : List (String × Node)) (prov : Provenance) (parent file : String)
      → ((parent == "") ≡ false → HasNode nodes parent)
      → HasNode nodes file
      → All (Joins nodes) (directory_edges lib dir workspace prov parent file)
  unfolding directory_edges edge
  directory_edges-Joins nodes prov parent file up here = elim (Bool-cases (parent == "")) [
    | inl e ↦ rw (e, directory_edges) tt
    | inr e ↦ rw (e, directory_edges) (inr (up e, here), (inr (here, up e), tt))
  ]

  -- The nodes of a packet below a directory that is placed.
  packet-Joined :
      (p : SourcePacket) (b : Building) (parent : String)
      → Joined b
      → ((parent == "") ≡ false → HasNode b.nodes parent)
      → Joined (add_below lib dir workspace p (b, parent))
  unfolding edge add_below packet_edges
  packet-Joined p b parent h up =
      let prov = provenance_of p in
      let source = source_node lib dir workspace p in
      let file = file_node lib dir workspace p parent in
      let meta = metadata_node lib dir workspace p in
      let first = with_node-Keeps source b h in
      let second = with_node-Keeps file _ first.kept in
      let third = with_node-Keeps meta _ second.kept in
      let has_source =
        third.grows source.node_id (second.grows source.node_id (is_there source b h)) in
      let has_file = third.grows file.node_id (is_there file _ first.kept) in
      let has_meta = is_there meta _ second.kept in
      let done = with_node meta (with_node file (with_node source b)) in
      let joins : All (Joins done.nodes) (packet_edges lib dir workspace p parent) = (
        inr (has_source, has_file),
        (
          inr (has_file, has_meta),
          (
            inr (has_source, has_meta),
            directory_edges-Joins _ prov parent file.node_id
                (λ e. third.grows parent (second.grows parent (first.grows parent (up e))))
                has_file,
          ),
        ),
      ) in
      with_edges-Joined (packet_edges lib dir workspace p parent) done third.kept joins

  either-Adds :
      (c : Bool) (b : Building) (x : Building × String)
      → Joined b
      → Adds b x.0 x.1
      → let y = if c then (b, "") else x in Adds b y.0 y.1
  either-Adds true b x h a = nowhere lib dir workspace b h
  either-Adds false b x h a = a

  place-Adds :
      (p : SourcePacket) (b : Building)
      → Joined b
      → let placed = place lib dir workspace p b in Adds b placed.0 placed.1
  unfolding place
  place-Adds p b h =
      let up = dir (locator_of p) in
      either-Adds (is_root up) b _ h
        (ensure_dir-Adds lib dir workspace (suc (len up)) (provenance_of p) up b h)

  add_packets-Joined :
      (l : List SourcePacket) (b c : Building)
      → Joined b
      → add_packets lib dir workspace l b ≡ some c
      → Joined c
  unfolding add_packets add_packet
  add_packets-Joined [] b c h e = subst Joined (ground (arith, e)) h
  add_packets-Joined (p ∷ l) b c h e = elim (Option-cases (links_of lib dir workspace p)) [
    | inl f ↦ absurd (ground (arith, e, f))
    | inr (links, f) ↦
        let up = place-Adds p b h in
        let nodes = packet-Joined p _ _ up.kept up.placed in
        let next =
          with_edges-Joined _ _ nodes (
            link_edges-Joins _ (provenance_of p) (file_node lib dir workspace p "").node_id
              links) in
        add_packets-Joined l _ c next (rw (f, add_packets) at e)
  ]

pub first_by-All {ℓ κ} :
    {A : Type ℓ} (P : A → Type κ) (key : A → String) (seen : List String) (l : List A)
    → All P l
    → All P (first_by key seen l)
unfolding first_by
first_by-All P key seen [] h = tt
first_by-All P key seen (x ∷ l) h = elim (Bool-cases (has (key x) seen)) [
  | inl e ↦ rw (e, first_by) (first_by-All P key seen l h.1)
  | inr e ↦ rw (e, first_by) (h.0, first_by-All P key (key x ∷ seen) l h.1)
]

-- In a graph that `Build` returns every edge that is not a hyperlink leads from a node of the
-- graph to a node of the graph.
pub build-Joins :
    (lib : Lib) (codec : Codec) (dir : String → String) (packets : List SourcePacket)
    (g : Graph.Graph)
    → build lib codec dir packets ≡ some g
    → All (Joins g.nodes) g.edges
unfolding build build_sorted finished sorted_edges
build-Joins lib codec dir packets g e =
    let sorted = sort str_lt source_id_of packets in
    let w = workspace_of sorted in
    elim (Option-cases (add_packets lib dir w sorted started)) [
      | inl f ↦ absurd (ground (arith, e, f))
      | inr (b, f) ↦
          let h =
            add_packets-Joined lib dir w sorted started b (record { joined = tt; known = tt }) f in
          let kept = first_by-All (Joins b.nodes) (λ (x : Edge). x.edge_id) [] b.edges h.joined in
          let visited = codec.iterate (first_by (λ (x : Edge). x.edge_id) [] b.edges) in
          let every = All-Perm (Joins b.nodes) visited.1 kept in
          let arranged = All-Perm (Joins b.nodes) (Perm-sort edge_key_lt edge_key _) every in
          let same : finished lib codec dir w b ≡ g = ground (arith, e, f) in
          subst (λ (x : Graph.Graph). All (Joins x.nodes) x.edges) same arranged
    ]
