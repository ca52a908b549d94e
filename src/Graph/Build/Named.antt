-- ===== src/Graph/Build/Named.antt =====
-- The edges of a graph under construction are named by their ends and their type, so those with
-- distinct ids are told apart by what the last sort compares.
use Prim.Native.String.{len}
use cann_o_call.Prelude.{
  ℕ, zero, suc, ◌≡◌, ◌≢◌, refl, sym, ap, ◌∙◌, subst, inl, inr, String, Bool, true, false, List, [],
  ◌∷◌, some, All, All-append, ◌==◌, ◌||◌, Bool-cases, Option-cases, arith, eq_iff, if◌then◌else◌,
}
use cann_o_call.Prelude.Text.{str_lt, str_lt-IsOrder}
use cann_o_call.Prelude.Sort.{IsOrder, Lacks}
use cann_o_call.Prelude.Sort.Permute.{IsApart}
use cann_o_call.Prelude.Assoc.{find, has}
use cann_o_call.Ingest.{Lib, SourcePacket}
use cann_o_call.Graph.{Edge, Node, Provenance, deterministic_edge_id, edge_key, edge_key_lt}
use cann_o_call.Graph.Build.{
  Building, with_edge, with_edges, with_node, add_directory, ensure_dir, enter, edge, is_root,
  place, locator_of, provenance_of, packet_edges, directory_edges, link_edges, add_below,
  add_packet, add_packets, links_of, file_node, source_node, metadata_node, started,
}
use cann_o_call.Graph.Links.{first_by}
use cann_o_call.Graph.Build.Joined.{first_by-All}

pair_lt {ℓ} : {A : Type ℓ} → (A → A → Bool) → String × A → String × A → Bool
pair_lt lt (k, x) (l, y) = if k == l then lt x y else str_lt k l

pair_lt-IsOrder {ℓ} : {A : Type ℓ} → {lt : A → A → Bool} → IsOrder lt → IsOrder (pair_lt lt)
unfolding pair_lt
pair_lt-IsOrder o = record {
  trans = λ (j, x) (k, y) (l, z) h g. ground (
    arith,
    h,
    g,
    eq_iff j k,
    eq_iff k l,
    eq_iff j l,
    o.trans x y z,
    str_lt-IsOrder.trans j k l,
    str_lt-IsOrder.asym j k,
  );
  asym = λ (j, x) (k, y) h.
      ground (arith, h, eq_iff j k, eq_iff k j, o.asym x y, str_lt-IsOrder.asym j k);
  total = λ (j, x) (k, y) h g.
      ground (arith, h, g, eq_iff j k, eq_iff k j, o.total x y, str_lt-IsOrder.total j k);
}

pub edge_key_lt-IsOrder : IsOrder edge_key_lt
unfolding pair_lt
edge_key_lt-IsOrder =
    let o : IsOrder (pair_lt (pair_lt str_lt)) = pair_lt-IsOrder (pair_lt-IsOrder str_lt-IsOrder) in
    record {
      trans = λ (f, t, k) (g, u, l) (h, v, m). o.trans (f, (t, k)) (g, (u, l)) (h, (v, m));
      asym = λ (f, t, k) (g, u, l). o.asym (f, (t, k)) (g, (u, l));
      total = λ (f, t, k) (g, u, l) x y.
          ap (λ (q : String × (String × String)). (q.0, q.1.0, q.1.1))
            (o.total (f, (t, k)) (g, (u, l)) x y);
    }

first_by-Lacks {ℓ} :
    {A : Type ℓ} (key : A → String) (k : String) (seen : List String) (l : List A)
    → has k seen ≡ true
    → All (λ y. k ≢ key y) (first_by key seen l)
unfolding first_by has
first_by-Lacks key k seen [] h = tt
first_by-Lacks key k seen (x ∷ l) h = elim (Bool-cases (has (key x) seen)) [
  | inl e ↦ rw (e, first_by) (first_by-Lacks key k seen l h)
  | inr e ↦
      rw (e, first_by)
        (
          (λ q. ground (arith, e, subst (λ j. has j seen ≡ true) q h)),
          first_by-Lacks key k (key x ∷ seen) l (ground (arith, h)),
        )
]

first_by-IsApart {ℓ} :
    {A : Type ℓ} (key : A → String) (seen : List String) (l : List A)
    → IsApart str_lt key (first_by key seen l)
unfolding first_by has
first_by-IsApart key seen [] = tt
first_by-IsApart key seen (x ∷ l) = elim (Bool-cases (has (key x) seen)) [
  | inl e ↦ rw (e, first_by) (first_by-IsApart key seen l)
  | inr e ↦
      rw (e, first_by)
        (
          first_by-Lacks key (key x) (key x ∷ seen) l (ground (arith, eq_iff (key x) (key x))),
          first_by-IsApart key (key x ∷ seen) l,
        )
]

module _ (lib : Lib) (workspace : String) where
  -- The id is that of its ends and its type.
  abbrev pub IsNamed : Edge → Type 0
  IsNamed e = e.edge_id ≡ deterministic_edge_id lib e.from_id e.to_id e.edge_type workspace

  key-apart : (x y : Edge) → IsNamed x → IsNamed y → x.edge_id ≢ y.edge_id → edge_key x ≢ edge_key y
  key-apart x y h g d q =
      d (h ∙ (λ i. deterministic_edge_id lib (q i).0 (q i).1 (q i).2 workspace) ∙ sym g)

  Lacks-key :
      (x : Edge) (l : List Edge)
      → IsNamed x
      → All IsNamed l
      → Lacks str_lt (λ (e : Edge). e.edge_id) x l
      → Lacks edge_key_lt edge_key x l
  Lacks-key x [] h g d = tt
  Lacks-key x (y ∷ l) h g d = (key-apart x y h g.0 d.0, Lacks-key x l h g.1 d.1)

  pub IsApart-key :
      (l : List Edge)
      → All IsNamed l
      → IsApart str_lt (λ (e : Edge). e.edge_id) l
      → IsApart edge_key_lt edge_key l
  IsApart-key [] h d = tt
  IsApart-key (x ∷ l) h d = (Lacks-key x l h.0 h.1 d.0, IsApart-key l h.1 d.1)

  with_edges-Named :
      (l : List Edge) (b : Building)
      → All IsNamed b.edges
      → All IsNamed l
      → All IsNamed (with_edges l b).edges
  unfolding with_edges with_edge
  with_edges-Named [] b h g = h
  with_edges-Named (e ∷ l) b h g =
      with_edges-Named l (with_edge e b) (All-append IsNamed b.edges (e ∷ []) h (g.0, tt)) g.1

  with_node-edges : (n : Node) (b : Building) → (with_node n b).edges ≡ b.edges
  unfolding with_node
  with_node-edges n b = ground arith

  module _ (dir : String → String) where
    add_directory-Named :
        (prov : Provenance) (path parent : String) (b : Building)
        → All IsNamed b.edges
        → All IsNamed (add_directory lib dir workspace prov path parent b).0.edges
    unfolding add_directory with_edge edge
    add_directory-Named prov path parent b h = elim (Bool-cases (parent == "")) [
      | inl e ↦ rw (e, add_directory) h
      | inr e ↦ rw (e, add_directory) (All-append IsNamed b.edges _ h (refl, tt))
    ]

    ensure_dir-Named :
        (n : ℕ) (prov : Provenance) (path : String) (b : Building)
        → All IsNamed b.edges
        → All IsNamed (ensure_dir lib dir workspace n prov path b).0.edges
    unfolding ensure_dir enter
    ensure_dir-Named zero prov path b h = h
    ensure_dir-Named (suc n) prov path b h = elim (Bool-cases (path == "" || is_root path)) [
      | inl e ↦ rw (e, ensure_dir, enter) h
      | inr e ↦ elim (Option-cases (find path b.dirs)) [
        | inr (id, f) ↦ rw (e, f, ensure_dir, enter) h
        | inl f ↦ elim (Bool-cases (is_root (dir path) || dir path == path)) [
          | inl r ↦ rw (e, f, r, ensure_dir, enter) (add_directory-Named prov path "" b h)
          | inr r ↦
              rw (e, f, r, ensure_dir, enter)
                (add_directory-Named prov path _ _ (ensure_dir-Named n prov (dir path) b h))
        ]
      ]
    ]

    either-Named :
        (c : Bool) (x y : Building × String)
        → All IsNamed x.0.edges
        → All IsNamed y.0.edges
        → All IsNamed (if c then x else y).0.edges
    either-Named true x y h g = h
    either-Named false x y h g = g

    place-Named :
        (p : SourcePacket) (b : Building)
        → All IsNamed b.edges
        → All IsNamed (place lib dir workspace p b).0.edges
    unfolding place
    place-Named p b h =
        let up = dir (locator_of p) in
        either-Named (is_root up) _ _ h (ensure_dir-Named (suc (len up)) (provenance_of p) up b h)

    packet_edges-Named :
        (p : SourcePacket) (parent : String) → All IsNamed (packet_edges lib dir workspace p parent)
    unfolding packet_edges directory_edges edge
    packet_edges-Named p parent = elim (Bool-cases (parent == "")) [
      | inl e ↦ rw (e, directory_edges) (refl, (refl, (refl, tt)))
      | inr e ↦ rw (e, directory_edges) (refl, (refl, (refl, (refl, (refl, tt)))))
    ]

    link_edges-Named :
        (prov : Provenance) (file : String) (links : List String)
        → All IsNamed (link_edges lib dir workspace prov file links)
    unfolding link_edges edge
    link_edges-Named prov file [] = tt
    link_edges-Named prov file (link ∷ links) = (refl, link_edges-Named prov file links)

    add_below-Named :
        (p : SourcePacket) (b : Building) (parent : String)
        → All IsNamed b.edges
        → All IsNamed (add_below lib dir workspace p (b, parent)).edges
    unfolding add_below
    add_below-Named p b parent h =
        let source = with_node (source_node lib dir workspace p) b in
        let file = with_node (file_node lib dir workspace p parent) source in
        let same =
          with_node-edges (metadata_node lib dir workspace p) file
          ∙ with_node-edges (file_node lib dir workspace p parent) source
          ∙ with_node-edges (source_node lib dir workspace p) b in
        with_edges-Named (packet_edges lib dir workspace p parent)
          (with_node (metadata_node lib dir workspace p) file) (subst (All IsNamed) (sym same) h)
          (packet_edges-Named p parent)

    add_packets-Named :
        (l : List SourcePacket) (b c : Building)
        → All IsNamed b.edges
        → add_packets lib dir workspace l b ≡ some c
        → All IsNamed c.edges
    unfolding add_packets add_packet
    add_packets-Named [] b c h e =
        let same : b ≡ c = ground (arith, e) in
        subst (All IsNamed) (ap (λ (x : Building). x.edges) same) h
    add_packets-Named (p ∷ l) b c h e = elim (Option-cases (links_of lib dir workspace p)) [
      | inl f ↦ absurd (ground (arith, e, f))
      | inr (links, f) ↦
          let up = place lib dir workspace p b in
          let below = add_below-Named p up.0 up.1 (place-Named p b h) in
          let next =
            with_edges-Named _ _ below (
              link_edges-Named (provenance_of p) (file_node lib dir workspace p "").node_id
                links) in
          add_packets-Named l _ c next (rw (f, add_packets) at e)
    ]

    -- What is left of the edges after those with a repeated id are dropped.
    pub kept-IsApart :
        (l : List SourcePacket) (b : Building)
        → add_packets lib dir workspace l started ≡ some b
        → IsApart edge_key_lt edge_key (first_by (λ (e : Edge). e.edge_id) [] b.edges)
    kept-IsApart l b e =
        let named =
          first_by-All IsNamed (λ (x : Edge). x.edge_id) [] b.edges
            (add_packets-Named l started b tt e) in
        IsApart-key _ named (first_by-IsApart (λ (x : Edge). x.edge_id) [] b.edges)
