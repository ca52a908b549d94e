-- ===== src/Transition.antt =====
-- internal/transition/authority.go: the proposals, the semantic state and the decision on a proposal.
pub mod Encode
pub mod Apply
pub mod Propose
pub mod Rebuild
pub mod Checkpoint
pub mod Examples
use cann_o_call.Prelude.{ℕ, String, Bool, List, [], Option}
use cann_o_call.Prelude.Int64.{ℤ}
use cann_o_call.Json.{Json}
use cann_o_call.EventLog
use cann_o_call.EventLog.{RustAcknowledgement}

pub data RejectClass : Type 0 where
  malformed invalid stale policy durable duplicate conflict replay_corruption : RejectClass

-- A typed rejection, or the panic of `mustJSON` and `hashProjection`.
pub data Stop : Type 0 where
  rejected : RejectClass → Stop
  panicked : Stop

pub record StateRef : Type 0 where
  pub id : String
  pub version : ℕ
  pub hash : String

-- `json.RawMessage` fields are texts.
pub record ProposedTransition : Type 0 where
  pub transition_id : String
  pub proposal_id : String
  pub request_id : String
  pub prior : StateRef
  pub operation : String
  pub entity : String
  pub node : String
  pub result_data : String
  pub admission_data : String

pub record DurableBinding : Type 0 where
  pub event_id : String
  pub sequence : ℤ
  pub event_hash : String
  pub rust_ack : Option RustAcknowledgement

pub record AcceptedTransition : Type 0 where
  pub proposal : ProposedTransition
  pub result : StateRef
  pub admission : String
  pub durable : DurableBinding
  pub duplicate : Bool

pub record NodeState : Type 0 where
  pub entity : String
  pub node : String
  pub content : String

-- `nil_nodes` tells Go's nil slice from an empty one: they encode as `null` and `[]`.
pub record Projection : Type 0 where
  pub id : String
  pub version : ℕ
  pub nodes : List NodeState
  pub nil_nodes : Bool
  pub hash : String

pub record AcceptedRecord : Type 0 where
  pub request : String
  pub accepted : AcceptedTransition

-- The mutex is held through each operation; the writer and the policy are arguments of the operations.
pub record Authority : Type 0 where
  pub state : Projection
  pub accepted : List (String × AcceptedRecord)

-- The standard library's functions that the authority calls: the log's, `json.Decoder` on one value that
-- ends its input, and `json.Unmarshal` at `AcceptedTransition` of the marshalled detail.
pub record Codec : Type 0 where
  pub log : EventLog.Codec
  pub decode : String → Option Json
  pub read_accepted : Json → Option AcceptedTransition

abbrev pub ref : Projection → StateRef
ref p = record { id = p.id; version = p.version; hash = p.hash }
