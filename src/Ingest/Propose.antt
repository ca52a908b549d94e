-- ===== src/Ingest/Propose.antt =====
-- internal/ingest/transition.go: packets as proposals to the authority, and back.
pub mod Recorded
use Prim.Native.String.{◌++◌, slice}
use cann_o_call.Prelude.{ℕ, String, Bool, List, [], ◌∷◌, Option, none, some}
use cann_o_call.Prelude.Result.{Result, ok, err, ◌>>=◌, ◌>>◌, or_fail, wrap_err}
use cann_o_call.EventLog.{Event}
use cann_o_call.Transition
use cann_o_call.Transition.{Stop, ProposedTransition, AcceptedTransition, Authority, ref}
use cann_o_call.Transition.Encode.{clone_projection}
use cann_o_call.Transition.Propose.{Policy, propose}
use cann_o_call.Ingest.{
  Lib, SourcePacket, PacketError, validate_packet, deterministic_source_id, extraction_version,
}

-- `json.Marshal` of the result data around a packet, and `json.Unmarshal` of the packet in it.
pub record Codec : Type 0 where
  pub marshal : SourcePacket → Option String
  pub unmarshal : String → Option SourcePacket

pub data IngestError : Type 0 where
  packet_invalid : PacketError → IngestError
  encode_failed : IngestError
  refused : Stop → IngestError

module _ (lib : Lib) (codec : Codec) where
  unfoldable pub transition_id_of : SourcePacket → String
  unfolding deterministic_source_id
  transition_id_of p =
      deterministic_source_id lib p.identity.workspace_id "transition" p.identity.source_id
        p.content.content_hash extraction_version

  -- The proposal for a packet; `result_data` is its text. A SHA-256 has more than 16 digits.
  unfoldable pub proposal_of : SourcePacket → String → Authority → ProposedTransition
  unfolding transition_id_of
  proposal_of p result_data a =
      let id = transition_id_of p in
      record {
        transition_id = id;
        proposal_id = "proposal-" ++ slice id 0 16;
        request_id = "request-" ++ slice id 0 16;
        prior = ref (clone_projection a.state);
        operation = "upsert";
        entity = p.identity.workspace_id;
        node = p.identity.source_id;
        result_data = result_data;
        admission_data = "";
      }

  prepared : SourcePacket → Result IngestError String
  unfolding validate_packet
  prepared p = do
    wrap_err packet_invalid (validate_packet lib p)
    or_fail (codec.marshal p) encode_failed

  module _ (json : Transition.Codec) {L : Type 0} (append : L → Event → L × Option Event)
      (pol : Policy) where
    answered :
        L × Authority × Result Stop AcceptedTransition
        → L × Authority × Result IngestError AcceptedTransition
    answered (log, a, r) = (log, a, wrap_err refused r)

    propose_prepared :
        L
        → Authority
        → SourcePacket
        → Result IngestError String
        → L × Authority × Result IngestError AcceptedTransition
    unfolding proposal_of propose answered
    propose_prepared log a p (err e) = (log, a, err e)
    propose_prepared log a p (ok text) =
        answered (propose json append pol log a (proposal_of p text a))

    -- `ProposeIngest`, with an authority
    unfoldable pub propose_ingest :
        L → Authority → SourcePacket → L × Authority × Result IngestError AcceptedTransition
    unfolding prepared propose_prepared
    propose_ingest log a p = propose_prepared log a p (prepared p)

  -- `PacketFromAccepted`; both of its errors are skipped by the only caller.
  unfoldable pub packet_from_accepted : AcceptedTransition → Option SourcePacket
  unfolding validate_packet
  packet_from_accepted t = elim (codec.unmarshal t.proposal.result_data) [
    | none ↦ none
    | some p ↦ elim (validate_packet lib p) [ err e ↦ none | ok u ↦ some p ]
  ]

  -- `PacketsFromHistory`
  unfoldable pub packets_from_history : List AcceptedTransition → List SourcePacket
  unfolding packet_from_accepted
  packets_from_history [] = []
  packets_from_history (t ∷ ts) =
      let rest = packets_from_history ts in
      elim (packet_from_accepted t) [ none ↦ rest | some p ↦ p ∷ rest ]
