-- ===== src/Transition/Encode.antt =====
-- What `json.Marshal` makes of the structs of internal/transition, as the value that `canonicalJSON`
-- decodes again, and `canonicalJSON`, `mustJSON`, `hashProjection`, `cloneProjection` and `Initial`.
use cann_o_call.Prelude.{
  String, Bool, true, false, List, [], ◌∷◌, Option, none, some, ◌==◌, if◌then◌else◌, ◌>>=◌,
}
use cann_o_call.Prelude.Decimal.{decimal, int_text}
use cann_o_call.Prelude.Int64.{pos}
use cann_o_call.Json.{
  Json, Items, Fields, null, bool, text, number, array, object, nil, cons, end, field,
}
use cann_o_call.Json.Canonical.{write_canonical}
use cann_o_call.EventLog.{RustAcknowledgement}
use cann_o_call.Transition.{
  StateRef, ProposedTransition, DurableBinding, AcceptedTransition, NodeState, Projection, Codec,
}

abbrev pub blank_binding : DurableBinding
blank_binding = record { event_id = ""; sequence = pos 0; event_hash = ""; rust_ack = none }

-- `cloneProjection`: appending nothing to a nil slice gives a nil slice.
unfoldable pub clone_projection : Projection → Projection
clone_projection p = record p { nil_nodes = elim p.nodes [ [] ↦ true | n ∷ ns ↦ false ] }

ref_json : StateRef → Json
unfolding decimal
ref_json r = object (
    field "id" (text r.id)
      (field "version" (number (decimal r.version)) (field "hash" (text r.hash) end)))

ack_field : Option RustAcknowledgement → Fields
unfolding int_text
ack_field none = end
ack_field (some ack) =
    field "rust_ack"
      (object (
        field "id" (text ack.id)
          (field "seq" (number (int_text ack.sequence)) (field "hash" (text ack.hash) end))))
      end

binding_json : DurableBinding → Json
unfolding int_text ack_field
binding_json b = object (
    field "event_id" (text b.event_id) (
      field "sequence" (number (int_text b.sequence))
        (field "event_hash" (text b.event_hash) (ack_field b.rust_ack))))

-- `omitempty` of a Boolean
duplicate_field : Bool → Fields
duplicate_field true = field "duplicate" (bool true) end
duplicate_field false = end

module _ (codec : Codec) where
  -- A raw message has to be valid JSON; `omitempty` drops an empty one.
  admission_field : String → Option Fields
  admission_field raw =
      if raw == "" then some end else (do v ← codec.decode raw; some (field "admission_data" v end))

  proposal_json : ProposedTransition → Option Json
  unfolding ref_json admission_field
  proposal_json p = do
    result ← codec.decode p.result_data
    admission ← admission_field p.admission_data
    some (
        object (
          field "transition_id" (text p.transition_id) (
            field "proposal_id" (text p.proposal_id) (
              field "request_id" (text p.request_id) (
                field "prior" (ref_json p.prior) (
                  field "operation" (text p.operation) (
                    field "entity" (text p.entity)
                      (field "node" (text p.node) (field "result_data" result admission)))))))))

  accepted_json : AcceptedTransition → Option Json
  unfolding proposal_json ref_json binding_json duplicate_field
  accepted_json a = do
    proposal ← proposal_json a.proposal
    admission ← codec.decode a.admission
    some (
        object (
          field "proposal" proposal (
            field "result" (ref_json a.result) (
              field "admission_data" admission
                (field "durable" (binding_json a.durable) (duplicate_field a.duplicate))))))

  nodes_json : List NodeState → Option Items
  nodes_json [] = some nil
  nodes_json (n ∷ ns) = do
    content ← codec.decode n.content
    rest ← nodes_json ns
    some (
        cons
          (object (
            field "entity" (text n.entity) (field "node" (text n.node) (field "data" content end))))
          rest)

  projection_json : Projection → Option Json
  unfolding nodes_json decimal
  projection_json p = do
    items ← nodes_json p.nodes
    some (
        object (
          field "id" (text p.id) (
            field "version" (number (decimal p.version)) (
              field "nodes" (if p.nil_nodes then null else array items)
                (field "hash" (text p.hash) end)))))

  unfoldable pub canonical_json : String → Option String
  canonical_json raw = do v ← codec.decode raw; write_canonical v

  -- `canonicalJSON(mustJSON(·))` at the three structs. `none` is an error of either; `mustJSON` panics.
  unfoldable pub proposal_bytes : ProposedTransition → Option String
  unfolding proposal_json
  proposal_bytes p = do v ← proposal_json p; write_canonical v

  unfoldable pub accepted_bytes : AcceptedTransition → Option String
  unfolding accepted_json
  accepted_bytes a = do v ← accepted_json a; write_canonical v

  unfoldable pub projection_bytes : Projection → Option String
  unfolding projection_json
  projection_bytes p = do v ← projection_json p; write_canonical v

  unfoldable pub hash_projection : Projection → Option String
  unfolding projection_bytes clone_projection
  hash_projection p = do
    b ← projection_bytes (record (clone_projection p) { hash = "" })
    some (codec.log.sha256_hex b)

  -- `Initial`, whose nodes are an empty slice that is not nil.
  unfoldable pub initial : Option Projection
  unfolding hash_projection
  initial = do
    let p : Projection = record {
      id = "semantic-state";
      version = 0;
      nodes = [];
      nil_nodes = false;
      hash = "";
    }
    hash ← hash_projection p
    some (record p { hash = hash })
