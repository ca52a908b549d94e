-- ===== src/Graph/Build/Ends.antt =====
-- What a step of `Build` keeps of the edges whose two ends are nodes.
use cann_o_call.Prelude.{
  ℕ, zero, suc, ◌≡◌, sym, ◌∙◌, subst, ◌⊎◌, inl, inr, String, false, List, [], ◌∷◌, some, All,
  All-append, All-map, ◌==◌, ◌||◌, Bool-cases, Option-cases, eq→path, arith,
}
use cann_o_call.Prelude.Assoc.{find, put}
use cann_o_call.Prelude.Maps.{find-put, find-put_other, false→ne, All-remove, All-find}
use cann_o_call.Ingest.{Lib}
use cann_o_call.Graph.{Edge, Node, Provenance, edge_hyperlink}
use cann_o_call.Graph.Build.{
  Building, with_edge, with_edges, with_node, add_directory, ensure_dir, enter, directory_node,
  edge, is_root,
}

abbrev pub HasNode : List (String × Node) → String → Type 0
HasNode nodes id = (n : Node) × (find id nodes ≡ some n)

-- Both ends are nodes, or the edge leads to what a page links to.
abbrev pub Joins : List (String × Node) → Edge → Type 0
Joins nodes e = (e.edge_type ≡ edge_hyperlink) ⊎ (HasNode nodes e.from_id × HasNode nodes e.to_id)

abbrev pub Grows : List (String × Node) → List (String × Node) → Type 0
Grows m n = (id : String) → HasNode m id → HasNode n id

pub record Joined (b : Building) : Type 0 where
  pub joined : All (Joins b.nodes) b.edges
  pub known : All (λ (d : String × String). HasNode b.nodes d.1) b.dirs

pub put-Grows : (id : String) (n : Node) (m : List (String × Node)) → Grows m (put id n m)
put-Grows id n m j h = elim (Bool-cases (j == id)) [
  | inl e ↦ (n, subst (λ k. find k (put id n m) ≡ some n) (sym (eq→path j id e)) (find-put id n m))
  | inr e ↦ (h.0, find-put_other j id n m (false→ne j id e) ∙ h.1)
]

pub Joins-Grows : (m n : List (String × Node)) (e : Edge) → Grows m n → Joins m e → Joins n e
Joins-Grows m n e g (inl h) = inl h
Joins-Grows m n e g (inr h) = inr (g e.from_id h.0, g e.to_id h.1)

-- More nodes, with the same edges and directories.
pub Joined-nodes :
    (b : Building) (m : List (String × Node))
    → Grows b.nodes m
    → Joined b
    → Joined (record b { nodes = m })
Joined-nodes b m g h = record {
  joined = All-map _ _ b.edges (λ e. Joins-Grows b.nodes m e g) h.joined;
  known = All-map _ _ b.dirs (λ d. g d.1) h.known;
}

pub with_edge-Joined :
    (e : Edge) (b : Building) → Joined b → Joins b.nodes e → Joined (with_edge e b)
unfolding with_edge
with_edge-Joined e b h j = record {
  joined = All-append (Joins b.nodes) b.edges (e ∷ []) h.joined (j, tt);
  known = h.known;
}

pub with_edges-Joined :
    (l : List Edge) (b : Building) → Joined b → All (Joins b.nodes) l → Joined (with_edges l b)
unfolding with_edges with_edge
with_edges-Joined [] b h j = h
with_edges-Joined (e ∷ l) b h j = with_edges-Joined l _ (with_edge-Joined e b h j.0) j.1

-- What a step that adds nodes keeps, and the node that it is about.
pub record Keeps (b c : Building) : Type 0 where
  pub kept : Joined c
  pub grows : Grows b.nodes c.nodes

pub record Adds (b c : Building) (id : String) : Type 0 where
  pub kept : Joined c
  pub grows : Grows b.nodes c.nodes
  pub placed : (id == "") ≡ false → HasNode c.nodes id

pub is_there : (n : Node) (b : Building) → Joined b → HasNode (with_node n b).nodes n.node_id
unfolding with_node
is_there n b h = elim (Option-cases (find n.node_id b.nodes)) [
  | inl e ↦ rw (e, with_node) (n, find-put n.node_id n b.nodes)
  | inr (old, e) ↦ rw (e, with_node) (old, e)
]

pub with_node-Keeps : (n : Node) (b : Building) → Joined b → Keeps b (with_node n b)
unfolding with_node
with_node-Keeps n b h = elim (Option-cases (find n.node_id b.nodes)) [
  | inl e ↦
      let m = put n.node_id n b.nodes in
      rw (e, with_node)
        (record {
          kept = Joined-nodes b m (put-Grows n.node_id n b.nodes) h;
          grows = put-Grows n.node_id n b.nodes;
        })
  | inr (old, e) ↦ rw (e, with_node) (record { kept = h; grows = λ id k. k })
]

module _ (lib : Lib) (dir : String → String) (workspace : String) where
  pub add_directory-Adds :
      (prov : Provenance) (path parent : String) (b : Building)
      → Joined b
      → ((parent == "") ≡ false → HasNode b.nodes parent)
      → let done = add_directory lib dir workspace prov path parent b in Adds b done.0 done.1
  unfolding add_directory with_edge edge put
  add_directory-Adds prov path parent b h up =
      let n = directory_node lib dir workspace prov path parent in
      let m = put n.node_id n b.nodes in
      let g = put-Grows n.node_id n b.nodes in
      let here : HasNode m n.node_id = (n, find-put n.node_id n b.nodes) in
      let more = Joined-nodes b m g h in
      let known : All (λ (d : String × String). HasNode m d.1) (put path n.node_id b.dirs) =
        (here, All-remove (λ d. HasNode m d.1) path b.dirs more.known) in
      elim (Bool-cases (parent == "")) [
        | inl e ↦
            rw (e, add_directory)
              (record {
                kept = record { joined = more.joined; known = known };
                grows = g;
                placed = λ _. here;
              })
        | inr e ↦
            rw (e, add_directory)
              (record {
                kept = record {
                  joined =
                      All-append (Joins m) b.edges _ more.joined (inr (g parent (up e), here), tt);
                  known = known;
                };
                grows = g;
                placed = λ _. here;
              })
      ]

  pub nowhere : (b : Building) → Joined b → Adds b b ""
  nowhere b h = record { kept = h; grows = λ id k. k; placed = λ e. absurd (ground (arith, e)) }

  pub ensure_dir-Adds :
      (n : ℕ) (prov : Provenance) (path : String) (b : Building)
      → Joined b
      → let done = ensure_dir lib dir workspace n prov path b in Adds b done.0 done.1
  unfolding ensure_dir enter
  ensure_dir-Adds zero prov path b h = nowhere b h
  ensure_dir-Adds (suc n) prov path b h = elim (Bool-cases (path == "" || is_root path)) [
    | inl e ↦ rw (e, ensure_dir, enter) (nowhere b h)
    | inr e ↦ elim (Option-cases (find path b.dirs)) [
      | inr (id, f) ↦
          rw (e, f, ensure_dir, enter)
            (record {
              kept = h;
              grows = λ j k. k;
              placed = λ _. All-find (HasNode b.nodes) path id b.dirs h.known f;
            })
      | inl f ↦ elim (Bool-cases (is_root (dir path) || dir path == path)) [
        | inl r ↦
            rw (e, f, r, ensure_dir, enter)
              (add_directory-Adds prov path "" b h (nowhere b h).placed)
        | inr r ↦
            let above = ensure_dir-Adds n prov (dir path) b h in
            let done = add_directory-Adds prov path _ _ above.kept above.placed in
            rw (e, f, r, ensure_dir, enter)
              (record {
                kept = done.kept;
                grows = λ id k. done.grows id (above.grows id k);
                placed = done.placed;
              })
      ]
    ]
  ]
