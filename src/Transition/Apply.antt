-- ===== src/Transition/Apply.antt =====
-- `apply` of internal/transition/authority.go: one accepted proposal put into the semantic state.
pub mod Nodes
use cann_o_call.Prelude.{
  ℕ, suc, ◌%◌, ◌^◌, String, Bool, true, false, ◌&&◌, List, [], ◌∷◌, Option, none, some, ◌==◌,
  if◌then◌else◌, ◌>>=◌,
}
use cann_o_call.Prelude.Text.{str_lt}
use cann_o_call.Prelude.Sort.{sort}
use cann_o_call.Transition.{ProposedTransition, NodeState, Projection, Codec}
use cann_o_call.Transition.Encode.{hash_projection, clone_projection}

abbrev pub NodeKey : Type 0
NodeKey = String × String

abbrev pub node_key : NodeState → NodeKey
node_key n = (n.entity, n.node)

-- The comparison that `sort.Slice` is given.
abbrev pub node_lt : NodeKey → NodeKey → Bool
node_lt (e, n) (f, m) = if e == f then str_lt n m else str_lt e f

abbrev pub is_at : String → String → NodeState → Bool
is_at entity node n = n.entity == entity && n.node == node

abbrev pub new_node : ProposedTransition → NodeState
new_node p = record { entity = p.entity; node = p.node; content = p.result_data }

-- The loop replaces the first match and stops; where there is none, the node goes to the end.
put_node : ProposedTransition → List NodeState → List NodeState
put_node p [] = new_node p ∷ []
put_node p (n ∷ ns) =
    if is_at p.entity p.node n then record n { content = p.result_data } ∷ ns else n ∷ put_node p ns

unfoldable pub next_nodes : ProposedTransition → List NodeState → List NodeState
unfolding put_node sort
next_nodes p ns = sort node_lt node_key (put_node p ns)

-- `none` is the panic of `hashProjection`. The version is a `uint64`.
unfoldable pub apply : Codec → Projection → ProposedTransition → Option Projection
unfolding clone_projection next_nodes
apply codec current p = do
  let next : Projection = record (clone_projection current) {
    nodes = next_nodes p current.nodes;
    nil_nodes = false;
    version = suc current.version % 2 ^ 64;
  }
  hash ← hash_projection codec next
  some (record next { hash = hash })
