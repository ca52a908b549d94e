-- ===== src/Graph/Build/Order.antt =====
-- `Build` on rearranged packets, and when it returns.
use mathlib.Core.List.{Permᴰ}
use cann_o_call.Prelude.{
  ◌≡◌, refl, sym, ap, ◌∙◌, inl, inr, arith, Option-cases, String, List, [], ◌∷◌, some, All,
}
use cann_o_call.Prelude.Text.{str_lt, str_lt-IsOrder}
use cann_o_call.Prelude.Sort.{sort}
use cann_o_call.Prelude.Sort.Permute.{All-Perm, IsApart, sort-Perm, Perm-sort}
use cann_o_call.Ingest.{Lib, SourcePacket, extraction_version}
use cann_o_call.Graph
use cann_o_call.Graph.{Codec, Edge, edge_key, edge_key_lt, sorted_edges, hash_graph}
use cann_o_call.Graph.Links.{first_by}
use cann_o_call.Graph.Build.Named.{kept-IsApart, edge_key_lt-IsOrder}
use cann_o_call.Graph.Build.{
  Building, source_id_of, links_of, add_packet, add_packets, build, build_sorted, finished,
  workspace_of, started,
}

-- No two packets have one source id.
abbrev pub HasDistinctSources : List SourcePacket → Type 0
HasDistinctSources = IsApart str_lt source_id_of

-- The links of a packet can be read: `extractLinks` does not panic on its text.
abbrev pub IsReadable : Lib → (String → String) → SourcePacket → Type 0
IsReadable lib dir p = (links : List String) × (links_of lib dir "" p ≡ some links)

module _ (lib : Lib) (codec : Codec) (dir : String → String) where
  -- However the map of the edges is visited.
  finished_again :
      (other : (l : List Edge) → (m : List Edge) × Permᴰ l m) (workspace : String)
      (l : List SourcePacket) (b : Building)
      → add_packets lib dir workspace l started ≡ some b
      → finished lib codec dir workspace b
        ≡ finished lib (record codec { iterate = other }) dir workspace b
  unfolding finished sorted_edges hash_graph
  finished_again other workspace l b e =
      let kept = first_by (λ (x : Edge). x.edge_id) [] b.edges in
      let apart = kept-IsApart lib workspace dir l b e in
      let mine = sort-Perm edge_key_lt-IsOrder edge_key (codec.iterate kept).1 apart in
      let others = sort-Perm edge_key_lt-IsOrder edge_key (other kept).1 apart in
      ap
        (λ (edges : List Edge).
          let g : Graph.Graph = record {
            workspace_id = workspace;
            version = extraction_version;
            nodes = b.nodes;
            edges = edges;
            hash = "";
          } in
          record g { hash = hash_graph lib codec g })
        (sym mine ∙ others)

  build_sorted_again :
      (other : (l : List Edge) → (m : List Edge) × Permᴰ l m) (l : List SourcePacket)
      → build_sorted lib codec dir l ≡ build_sorted lib (record codec { iterate = other }) dir l
  unfolding build_sorted
  build_sorted_again other l =
      let w = workspace_of l in
      elim (Option-cases (add_packets lib dir w l started)) [
        | inl e ↦ ground (arith, e)
        | inr (b, e) ↦ let same = finished_again other w l b e in ground (arith, e, same)
      ]

  -- If the source ids of the packets are distinct, `Build` gives one result for the packets and
  -- for any rearrangement of them, whatever the two orders in which the map of the edges is
  -- visited.
  pub build-Perm :
      (other : (l : List Edge) → (m : List Edge) × Permᴰ l m) (packets others : List SourcePacket)
      → Permᴰ packets others
      → HasDistinctSources packets
      → build lib codec dir packets ≡ build lib (record codec { iterate = other }) dir others
  unfolding build
  build-Perm other packets others d h =
      ap (build_sorted lib codec dir) (sort-Perm str_lt-IsOrder source_id_of d h)
      ∙ build_sorted_again other (sort str_lt source_id_of others)

  add_packets-some :
      (workspace : String) (l : List SourcePacket) (b : Building)
      → All (IsReadable lib dir) l
      → (c : Building) × (add_packets lib dir workspace l b ≡ some c)
  unfolding add_packets add_packet links_of
  add_packets-some workspace [] b h = (b, refl)
  add_packets-some workspace (p ∷ l) b h = rw (h.0.1) (add_packets-some workspace l _ h.1)

  -- It panics only where the links of a packet cannot be read.
  pub build-some :
      (packets : List SourcePacket)
      → All (IsReadable lib dir) packets
      → (g : Graph.Graph) × (build lib codec dir packets ≡ some g)
  unfolding build build_sorted
  build-some packets h =
      let sorted = sort str_lt source_id_of packets in
      let readable = All-Perm (IsReadable lib dir) (Perm-sort str_lt source_id_of packets) h in
      let done = add_packets-some (workspace_of sorted) sorted started readable in
      (finished lib codec dir (workspace_of sorted) done.0, rw (done.1) refl)
