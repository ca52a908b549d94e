-- ===== src/Orchestrator.antt =====
-- internal/orchestrator/orchestrator.go: packets on their way to the authority and the graph, and the
-- transitions that actors propose. A pointer that may be nil is an option.
pub mod FailClosed
pub mod Context
pub mod Query
mod Examples
use Prim.Native.String.{◌++◌, slice}
use cann_o_call.Prelude.{
  ℕ, String, Bool, true, false, not, List, [], ◌∷◌, Option, none, some, ◌==◌, if◌then◌else◌,
}
use cann_o_call.Prelude.Assoc.{put}
use cann_o_call.Prelude.Result.{Result, ok, err, ◌>>=◌, ◌>>◌, guard, or_fail, wrap_err}
use cann_o_call.EventLog.{Event}
use cann_o_call.Transition
use cann_o_call.Transition.{Stop, ProposedTransition, AcceptedTransition, Authority, ref}
use cann_o_call.Transition.Encode.{clone_projection}
use cann_o_call.Transition.Propose.{Policy, propose}
use cann_o_call.Actor.{Activation, Controller}
use cann_o_call.Actor.Lifecycle.{descriptor}
use cann_o_call.Ingest
use cann_o_call.Ingest.{
  Lib, SourcePacket, PacketError, validate_packet, deterministic_source_id, extraction_version,
  is_blank,
}
use cann_o_call.Ingest.Propose.{IngestError, propose_ingest}
use cann_o_call.Graph
use cann_o_call.ContextPacket.{ContextPacket}
use cann_o_call.Graph.Build.{source_id_of}
use cann_o_call.Graph.Store.{Store, apply, packet_list, packets}
use cann_o_call.Prelude.Text.{str_lt}
use cann_o_call.Prelude.Sort.{sort}
use cann_o_call.Scoring.{ScoredNode}
use cann_o_call.Scoring.Select
use cann_o_call.Scoring.Select.{with_defaults}

-- Without the coverage, a quotient of floats.
pub record QueryInfo : Type 0 where
  pub request_id : String
  pub query : String
  pub candidates_considered : ℕ
  pub selected : ℕ
  pub packets : ℕ
  pub activations : ℕ
  pub rejected : ℕ
  pub active : ℕ
  pub completed : ℕ

-- What is kept of the last query.
pub record LastQuery : Type 0 where
  pub request : String
  pub query : String
  pub candidates : List ScoredNode
  pub selected : List ScoredNode
  pub packets : List ContextPacket
  pub info : QueryInfo

abbrev pub no_query : LastQuery
no_query = record {
  request = "";
  query = "";
  candidates = [];
  selected = [];
  packets = [];
  info = record {
    request_id = "";
    query = "";
    candidates_considered = 0;
    selected = 0;
    packets = 0;
    activations = 0;
    rejected = 0;
    active = 0;
    completed = 0;
  };
}

-- `Orchestrator`
pub record Orchestrator : Type 0 where
  pub workspace_id : String
  pub graph_store : Option Store
  pub authority : Option Authority
  pub actors : Option Controller
  pub select_config : Select.Config
  pub packets : List (String × SourcePacket)
  pub last : LastQuery

-- `New`
unfoldable pub new :
    String → Option Store → Option Authority → Option Controller → Select.Config → Orchestrator
unfolding with_defaults
new workspace store authority actors config = record {
  workspace_id = workspace;
  graph_store = store;
  authority = authority;
  actors = actors;
  select_config = with_defaults config;
  packets = [];
  last = no_query;
}

-- `GetGraph`
unfoldable pub get_graph : Orchestrator → Graph.Graph
get_graph o = elim o.graph_store [
  | none ↦ record { workspace_id = ""; version = ""; nodes = []; edges = []; hash = "" }
  | some s ↦ s.graph
]

-- `ListPackets`
unfoldable pub list_packets : Orchestrator → List SourcePacket
unfolding packet_list sort
list_packets o = elim o.graph_store [
  | none ↦ sort str_lt source_id_of (packet_list o.packets)
  | some s ↦ packets s
]

pub data OrchestratorError : Type 0 where
  workspace_required no_authority no_store workspace_mismatch actor_required result_required
        result_malformed admission_malformed :
      OrchestratorError
  packet_invalid : PacketError → OrchestratorError
  ingest_failed : IngestError → OrchestratorError
  not_applied : PacketError → OrchestratorError
  refused : Stop → OrchestratorError

-- What `Ingest` and its callees take from outside.
pub record Env : Type 0 where
  pub lib : Lib
  pub packets : Ingest.Propose.Codec
  pub graphs : Graph.Codec
  pub dir : String → String
  pub json : Transition.Codec
  pub pol : Policy

-- The node that an actor's transition is about: the path of its descriptor, or its node, or the actor.
unfoldable pub target_node : Option Controller → String → String
target_node none actor = actor
target_node (some c) actor = elim (descriptor actor c) [
  | none ↦ actor
  | some a ↦
      if not (a.path == "") then a.path else if not (a.node_id == "") then a.node_id else actor
]

module _ (env : Env) {L : Type 0} (append : L → Event → L × Option Event) where
  -- The checks of `Ingest`, in its order.
  unfoldable pub check_ingest :
      Orchestrator → SourcePacket → Result OrchestratorError (Authority × Store)
  unfolding validate_packet
  check_ingest o p = do
    guard (not (is_blank o.workspace_id)) workspace_required
    authority ← or_fail o.authority no_authority
    store ← or_fail o.graph_store no_store
    wrap_err packet_invalid (validate_packet env.lib p)
    guard (p.identity.workspace_id == o.workspace_id) workspace_mismatch
    ok (authority, store)

  unfoldable pub with_packet :
      Orchestrator
      → SourcePacket
      → Store × Result PacketError (Graph.Graph × Bool)
      → Orchestrator × Result OrchestratorError Graph.Graph
  unfolding put
  with_packet o p (s, err e) = (record o { graph_store = some s }, err (not_applied e))
  with_packet o p (s, ok (g, known)) =
      (record o { graph_store = some s; packets = put p.identity.source_id p o.packets }, ok g)

  -- `graphStore.Apply`, and the packet that is kept.
  unfoldable pub project :
      Orchestrator
      → Store
      → SourcePacket
      → Option (Orchestrator × Result OrchestratorError Graph.Graph)
  unfolding apply with_packet
  project o s p = elim (apply env.lib env.graphs env.dir s p) [
    | none ↦ none
    | some done ↦ some (with_packet o p done)
  ]

  unfoldable pub after_proposal :
      Orchestrator
      → Store
      → SourcePacket
      → L × Authority × Result IngestError AcceptedTransition
      → L × Option (Orchestrator × Result OrchestratorError Graph.Graph)
  unfolding project
  after_proposal o s p (log, a, err e) =
      (log, some (record o { authority = some a }, err (ingest_failed e)))
  after_proposal o s p (log, a, ok accepted) = (log, project (record o { authority = some a }) s p)

  -- `Ingest`. The result is missing where `Build` panics, which is after the transition is durable.
  unfoldable pub ingest :
      L
      → Orchestrator
      → SourcePacket
      → L × Option (Orchestrator × Result OrchestratorError Graph.Graph)
  unfolding check_ingest after_proposal propose_ingest
  ingest log o p = elim (check_ingest o p) [
    | err e ↦ (log, some (o, err e))
    | ok (a, s) ↦
        after_proposal o s p (propose_ingest env.lib env.packets env.json append env.pol log a p)
  ]

  -- The proposal of an actor's result; `json.Valid` of both payloads has held.
  unfoldable pub mutation_of :
      Orchestrator → String → String → String → Authority → ProposedTransition
  unfolding deterministic_source_id target_node
  mutation_of o actor result admission a =
      let id =
        deterministic_source_id env.lib o.workspace_id "transition" actor
          (env.lib.sha256_hex result) extraction_version in
      record {
        transition_id = id;
        proposal_id = "proposal-" ++ slice id 0 16;
        request_id = "request-" ++ slice id 0 16;
        prior = ref (clone_projection a.state);
        operation = "upsert";
        entity = o.workspace_id;
        node = target_node o.actors actor;
        result_data = result;
        admission_data = admission;
      }

  -- The checks of `ProposeMutation`, with the admission data in place of none. `is_json` is what
  -- `json.Unmarshal` and `json.Marshal` accept.
  unfoldable pub check_mutation :
      (String → Bool)
      → Orchestrator
      → String
      → String
      → String
      → Result OrchestratorError (Authority × String)
  check_mutation is_json o actor result admission = do
    authority ← or_fail o.authority no_authority
    guard (not (is_blank actor)) actor_required
    guard (not (result == "")) result_required
    let given = if admission == "" then "{}" else admission
    guard (is_json result) result_malformed
    guard (is_json given) admission_malformed
    ok (authority, given)

  unfoldable pub answer :
      Orchestrator
      → L × Authority × Result Stop AcceptedTransition
      → L × Orchestrator × Result OrchestratorError AcceptedTransition
  answer o (log, a, r) = (log, record o { authority = some a }, wrap_err refused r)

  -- `ProposeMutation`
  unfoldable pub propose_mutation :
      (String → Bool)
      → L
      → Orchestrator
      → String
      → String
      → String
      → L × Orchestrator × Result OrchestratorError AcceptedTransition
  unfolding check_mutation mutation_of propose answer
  propose_mutation is_json log o actor result admission =
      elim (check_mutation is_json o actor result admission) [
        | err e ↦ (log, o, err e)
        | ok (a, given) ↦
            answer o (propose env.json append env.pol log a (mutation_of o actor result given a))
      ]
