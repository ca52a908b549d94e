-- ===== src/Transition/Apply/Nodes.antt =====
-- `apply` of internal/transition/authority.go: the nodes as a map from (entity, node) to the data.
use cann_o_call.Prelude.{
  suc, ◌%◌, ◌^◌, Option-cases, ◌≡◌, ◌≢◌, refl, sym, ap, ◌∙◌, subst, ◌⊎◌, inl, inr, String, Bool,
  true, false, List, [], ◌∷◌, ◌++◌, Option, none, some, arith, eq_iff, if◌then◌else◌, All,
  Bool-cases,
}
use cann_o_call.Prelude.Text.{str_lt-IsOrder}
use cann_o_call.Prelude.Sort.{
  IsOrder, insert, IsSorted, Lacks, insert-IsSorted, sort-sorted, sort-append,
}
use cann_o_call.Transition.{ProposedTransition, NodeState, Projection, Codec}
use cann_o_call.Transition.Encode.{hash_projection, clone_projection}
use cann_o_call.Transition.Apply.{
  NodeKey, node_key, node_lt, is_at, new_node, put_node, next_nodes, apply,
}

key_path : (k j : NodeKey) → k.0 ≡ j.0 → k.1 ≡ j.1 → k ≡ j
key_path k j p q = λ i. (p i, q i)

node_lt_trans : (a b c : NodeKey) → node_lt a b ≡ true → node_lt b c ≡ true → node_lt a c ≡ true
node_lt_trans (e, n) (f, m) (g, o) h k = ground (
  arith,
  eq_iff e f,
  eq_iff f g,
  eq_iff e g,
  str_lt-IsOrder.trans e f g,
  str_lt-IsOrder.trans n m o,
  str_lt-IsOrder.asym e f,
  str_lt-IsOrder.asym f g,
)

node_lt_asym : (a b : NodeKey) → node_lt a b ≡ true → node_lt b a ≡ false
node_lt_asym (e, n) (f, m) h =
    ground (arith, eq_iff e f, eq_iff f e, str_lt-IsOrder.asym e f, str_lt-IsOrder.asym n m)

node_lt_total : (a b : NodeKey) → node_lt a b ≡ false → node_lt b a ≡ false → a ≡ b
node_lt_total (e, n) (f, m) h k =
    ground (arith, eq_iff e f, eq_iff f e, str_lt-IsOrder.total e f, str_lt-IsOrder.total n m)

pub node_lt-IsOrder : IsOrder node_lt
node_lt-IsOrder = record { trans = node_lt_trans; asym = node_lt_asym; total = node_lt_total }

abbrev pub NodesSorted : List NodeState → Type 0
NodesSorted = IsSorted node_lt node_key

-- What the state holds for an entity's node.
unfoldable pub find_node : String → String → List NodeState → Option String
find_node entity node [] = none
find_node entity node (n ∷ ns) =
    if is_at entity node n then some n.content else find_node entity node ns

abbrev SameKeys : List NodeState → List NodeState → Type 0
SameKeys [] [] = Unit
SameKeys [] (y ∷ ys) = ⊥
SameKeys (x ∷ xs) [] = ⊥
SameKeys (x ∷ xs) (y ∷ ys) = (node_key x ≡ node_key y) × SameKeys xs ys

SameKeys-refl : (xs : List NodeState) → SameKeys xs xs
SameKeys-refl [] = tt
SameKeys-refl (x ∷ xs) = (refl, SameKeys-refl xs)

SameKeys-All :
    (k : NodeKey) (xs ys : List NodeState)
    → SameKeys xs ys
    → All (λ y. node_lt k (node_key y) ≡ true) xs
    → All (λ y. node_lt k (node_key y) ≡ true) ys
SameKeys-All k [] [] s a = tt
SameKeys-All k [] (y ∷ ys) s a = absurd s
SameKeys-All k (x ∷ xs) [] s a = absurd s
SameKeys-All k (x ∷ xs) (y ∷ ys) s a =
    (subst (λ j. node_lt k j ≡ true) s.0 a.0, SameKeys-All k xs ys s.1 a.1)

SameKeys-sorted : (xs ys : List NodeState) → SameKeys xs ys → NodesSorted xs → NodesSorted ys
SameKeys-sorted [] [] s a = tt
SameKeys-sorted [] (y ∷ ys) s a = absurd s
SameKeys-sorted (x ∷ xs) [] s a = absurd s
SameKeys-sorted (x ∷ xs) (y ∷ ys) s a = (
  subst (λ k. All (λ y. node_lt k (node_key y) ≡ true) ys) s.0
      (SameKeys-All (node_key x) xs ys s.1 a.0),
  SameKeys-sorted xs ys s.1 a.1,
)

-- Two nodes with distinct keys are not at one place.
elsewhere :
    (entity node : String) (x n : NodeState)
    → node_key x ≢ node_key n
    → is_at entity node x ≡ true
    → is_at entity node n ≡ false
elsewhere entity node x n d here =
    let apart = λ (e : x.entity ≡ n.entity) (f : x.node ≡ n.node).
      d (key_path (node_key x) (node_key n) e f) in
    ground (
      arith,
      eq_iff x.entity entity,
      eq_iff x.node node,
      eq_iff n.entity entity,
      eq_iff n.node node,
      apart,
    )

abbrev or_else : Bool → String → Option String → Option String
or_else here content rest = if here then some content else rest

find_node-insert :
    (entity node : String) (x : NodeState) (ns : List NodeState)
    → Lacks node_lt node_key x ns
    → find_node entity node (insert node_lt node_key x ns)
      ≡ or_else (is_at entity node x) x.content (find_node entity node ns)
unfolding find_node insert
find_node-insert entity node x [] l = refl
find_node-insert entity node x (n ∷ ns) l = elim (Bool-cases (node_lt (node_key x) (node_key n))) [
  | inl first ↦ rw first
  | inr later ↦
      rw (later, find_node-insert entity node x ns l.1)
        (elim (Bool-cases (is_at entity node x)) [
          | inl here ↦ rw (here, elsewhere entity node x n l.0 here)
          | inr there ↦ rw there
        ])
]

find_node-append :
    (entity node : String) (x : NodeState) (ns : List NodeState)
    → Lacks node_lt node_key x ns
    → find_node entity node (ns ++ x ∷ [])
      ≡ or_else (is_at entity node x) x.content (find_node entity node ns)
unfolding find_node
find_node-append entity node x [] l = refl
find_node-append entity node x (n ∷ ns) l =
    rw (find_node-append entity node x ns l.1) (elim (Bool-cases (is_at entity node x)) [
      | inl here ↦ rw (here, elsewhere entity node x n l.0 here)
      | inr there ↦ rw there
    ])

module _ (p : ProposedTransition) where
  other_key : (n : NodeState) → is_at p.entity p.node n ≡ false → node_key (new_node p) ≢ node_key n
  other_key n miss k =
      let e : p.entity ≡ n.entity = ap (λ (j : NodeKey). j.0) k in
      let f : p.node ≡ n.node = ap (λ (j : NodeKey). j.1) k in
      ground (arith, eq_iff n.entity p.entity, eq_iff n.node p.node)

  -- Either a node is replaced where it stands, or a new one goes to the end.
  put_node-cases :
      (ns : List NodeState)
      → SameKeys ns (put_node p ns)
        ⊎ (Lacks node_lt node_key (new_node p) ns × (put_node p ns ≡ ns ++ new_node p ∷ []))
  unfolding put_node
  put_node-cases [] = inr (tt, refl)
  put_node-cases (n ∷ ns) = elim (Bool-cases (is_at p.entity p.node n)) [
    | inl hit ↦ rw hit (inl (refl, SameKeys-refl ns))
    | inr miss ↦ rw miss (elim (put_node-cases ns) [
      | inl s ↦ inl (refl, s)
      | inr (l, e) ↦ inr ((other_key n miss, l), ap (◌∷◌ n) e)
    ])
  ]

  find_node-put_node :
      (entity node : String) (ns : List NodeState)
      → find_node entity node (put_node p ns)
        ≡ (if is_at entity node (new_node p) then some p.result_data else find_node entity node ns)
  unfolding find_node put_node
  find_node-put_node entity node [] = refl
  find_node-put_node entity node (n ∷ ns) = ground (
    arith,
    eq_iff n.entity p.entity,
    eq_iff n.node p.node,
    eq_iff n.entity entity,
    eq_iff n.node node,
    eq_iff p.entity entity,
    eq_iff p.node node,
    find_node-put_node entity node ns,
  )

  put_node-sorted :
      (ns : List NodeState)
      → NodesSorted ns
      → NodesSorted (next_nodes p ns)
        × ((entity node : String)
            → find_node entity node (next_nodes p ns) ≡ find_node entity node (put_node p ns))
  unfolding next_nodes
  put_node-sorted ns s = elim (put_node-cases ns) [
    | inl same ↦
        let kept = SameKeys-sorted ns (put_node p ns) same s in
        rw (sort-sorted node_lt-IsOrder node_key (put_node p ns) kept) (kept, λ entity node. refl)
    | inr (lacks, e) ↦
        rw (e, sort-append node_lt-IsOrder node_key (new_node p) ns lacks s)
          (
            insert-IsSorted node_lt-IsOrder node_key (new_node p) ns lacks s,
            λ entity node.
                find_node-insert entity node (new_node p) ns lacks
                ∙ sym (find_node-append entity node (new_node p) ns lacks),
          )
  ]

  -- The sorted nodes hold the proposal's data at its node, and what they held at every other.
  pub find_node-next_nodes :
      (entity node : String) (ns : List NodeState)
      → NodesSorted ns
      → NodesSorted (next_nodes p ns)
        × (find_node entity node (next_nodes p ns) ≡ (
            if is_at entity node (new_node p)
            then some p.result_data
            else find_node entity node ns))
  find_node-next_nodes entity node ns s =
      let (sorted, found) = put_node-sorted ns s in
      (sorted, found entity node ∙ find_node-put_node entity node ns)

abbrev raised : ProposedTransition → Projection → Projection
raised p s = record (clone_projection s) {
  nodes = next_nodes p s.nodes;
  nil_nodes = false;
  version = suc s.version % 2 ^ 64;
}

-- What `apply` does to a state: the identity is kept, the version goes up modulo 2^64, the hash is that
-- of the whole state, the nodes stay sorted, and the state holds the proposal's data at its node and
-- what it held at every other.
pub record Applied (codec : Codec) (s t : Projection) (p : ProposedTransition) : Type 0 where
  pub same_id : t.id ≡ s.id
  pub next_version : t.version ≡ suc s.version % 2 ^ 64
  pub own_hash : hash_projection codec t ≡ some t.hash
  pub sorted : NodesSorted t.nodes
  pub holds :
      (entity node : String)
      → find_node entity node t.nodes ≡ (
          if is_at entity node (new_node p)
          then some p.result_data
          else find_node entity node s.nodes)

-- On a projection whose nodes are sorted, a result of `apply` has the same id, the next version
-- modulo 2^64, its own hash and sorted nodes; at the proposal's entity and node it holds the
-- result data, and at every other key what was there before.
pub apply-Applied :
    (codec : Codec) (s t : Projection) (p : ProposedTransition)
    → NodesSorted s.nodes
    → apply codec s p ≡ some t
    → Applied codec s t p
unfolding apply hash_projection clone_projection
apply-Applied codec s t p sorted e = elim (Option-cases (hash_projection codec (raised p s))) [
  | inl none_left ↦ absurd (ground (arith, none_left))
  | inr (h, f) ↦
      let next = record (raised p s) { hash = h } in
      let same : next ≡ t = ground (arith, f) in
      subst (λ u. Applied codec s u p) same
        (record {
          same_id = refl;
          next_version = refl;
          own_hash = f;
          sorted = (find_node-next_nodes p "" "" s.nodes sorted).0;
          holds = λ entity node. (find_node-next_nodes p entity node s.nodes sorted).1;
        })
]
