-- ===== src/Graph/Store.antt =====
-- internal/graph/store.go. The lock that every method holds is left out: each is one step.
pub mod Answer
pub mod Rebuild
use cann_o_call.Prelude.{
  String, Bool, true, false, ◌&&◌, List, [], ◌∷◌, Option, none, some, map, ◌==◌, ◌>>=◌,
  if◌then◌else◌,
}
use cann_o_call.Prelude.Text.{str_lt}
use cann_o_call.Prelude.Sort.{sort}
use cann_o_call.Prelude.Assoc.{find, put}
use cann_o_call.Prelude.Result.{Result, ok, err}
use cann_o_call.Transition.{AcceptedTransition}
use cann_o_call.Ingest
use cann_o_call.Ingest.{Lib, SourcePacket, PacketError, validate_packet, extraction_version}
use cann_o_call.Ingest.Propose.{packets_from_history}
use cann_o_call.Graph
use cann_o_call.Graph.{Codec, sorted_nodes}
use cann_o_call.Graph.Build.{build, source_id_of}

-- `Store`
pub record Store : Type 0 where
  pub graph : Graph.Graph
  pub packets : List (String × SourcePacket)
  pub workspace_id : String

-- `NewStore`
unfoldable pub new_store : String → Store
new_store workspace = record {
  graph = record {
    workspace_id = workspace;
    version = extraction_version;
    nodes = [];
    edges = [];
    hash = "";
  };
  packets = [];
  workspace_id = workspace;
}

-- The packets in the order of an iteration over the map.
unfoldable pub packet_list : List (String × SourcePacket) → List SourcePacket
packet_list [] = []
packet_list ((k, p) ∷ m) = p ∷ packet_list m

-- `Packets`
unfoldable pub packets : Store → List SourcePacket
unfolding packet_list sort
packets s = sort str_lt source_id_of (packet_list s.packets)

-- `Graph`: a copy, with the same nodes and edges.
abbrev pub graph : Store → Graph.Graph
graph s = s.graph

-- Whether a packet has the bytes of another.
unfoldable pub has_bytes_of : SourcePacket → SourcePacket → Bool
has_bytes_of old p =
    old.content.content_hash == p.content.content_hash
    && old.identity.source_sha256 == p.identity.source_sha256

abbrev pub or_workspace : String → String → String
or_workspace old new = if old == "" then new else old

unfoldable pub keyed :
    List SourcePacket → List (String × SourcePacket) → List (String × SourcePacket)
unfolding put
keyed [] m = m
keyed (p ∷ l) m = keyed l (put (source_id_of p) p m)

unfoldable pub answered :
    Store × Graph.Graph × Bool → Store × Result PacketError (Graph.Graph × Bool)
answered (s, g, known) = (s, ok (g, known))

module _ (lib : Lib) (codec : Codec) (dir : String → String) where
  -- `Apply` after its check: the graph and whether the packet was there. `none` is a panic of `Build`.
  unfoldable pub store_packet : Store → SourcePacket → Option (Store × Graph.Graph × Bool)
  unfolding build packet_list sort put
  store_packet s p = do
    let stored = put (source_id_of p) p s.packets
    g ← build lib codec dir (sort str_lt source_id_of (packet_list stored))
    some (
      record {
        graph = g;
        packets = stored;
        workspace_id = or_workspace s.workspace_id g.workspace_id;
      },
      g,
      false,
    )

  -- `Apply`
  unfoldable pub apply :
      Store → SourcePacket → Option (Store × Result PacketError (Graph.Graph × Bool))
  unfolding validate_packet find has_bytes_of store_packet answered
  apply s p = elim (validate_packet lib p) [
    | err e ↦ some (s, err e)
    | ok u ↦ elim (find (source_id_of p) s.packets) [
      | none ↦ do done ← store_packet s p; some (answered done)
      | some old ↦
          if has_bytes_of old p
          then some (s, ok (s.graph, true))
          else do done ← store_packet s p; some (answered done)
    ]
  ]

  -- `RebuildFromAccepted`
  unfoldable pub rebuild_from_accepted :
      Ingest.Propose.Codec → Store → List AcceptedTransition → Option (Store × Graph.Graph)
  unfolding packets_from_history sort build keyed
  rebuild_from_accepted coding s accepted = do
    let sorted = sort str_lt source_id_of (packets_from_history lib coding accepted)
    g ← build lib codec dir sorted
    some (
      record {
        graph = g;
        packets = keyed sorted [];
        workspace_id = elim sorted [ [] ↦ s.workspace_id | p ∷ l ↦ p.identity.workspace_id ];
      },
      g,
    )
