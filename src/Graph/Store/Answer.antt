-- ===== src/Graph/Store/Answer.antt =====
-- What `Apply` answers for a valid packet.
use cann_o_call.Prelude.{
  String, true, false, ◌≡◌, refl, subst, inl, inr, Bool, some, arith, ◌>>=◌, Option-cases,
  Bool-cases,
}
use cann_o_call.Prelude.Text.{str_lt}
use cann_o_call.Prelude.Sort.{sort}
use cann_o_call.Prelude.Assoc.{find, put}
use cann_o_call.Prelude.Result.{Result, ok}
use cann_o_call.Ingest.{Lib, SourcePacket, PacketError, validate_packet}
use cann_o_call.Graph
use cann_o_call.Graph.{Codec}
use cann_o_call.Graph.Build.{build, source_id_of}
use cann_o_call.Graph.Store.{
  Store, apply, store_packet, answered, has_bytes_of, packet_list, or_workspace,
}

-- The graph of the store after the step.
pub record Answers (out : Store × Result PacketError (Graph.Graph × Bool)) : Type 0 where
  pub known : Bool
  pub same : out.1 ≡ ok (out.0.graph, known)

module _ (lib : Lib) (codec : Codec) (dir : String → String) where
  stored-Answers :
      (s : Store) (p : SourcePacket) (out : Store × Result PacketError (Graph.Graph × Bool))
      → (store_packet lib codec dir s p >>= λ done. some (answered done)) ≡ some out
      → Answers out
  unfolding store_packet answered
  stored-Answers s p out h =
      let stored = put (source_id_of p) p s.packets in
      elim (Option-cases (build lib codec dir (sort str_lt source_id_of (packet_list stored)))) [
        | inl e ↦ absurd (ground (arith, h, e))
        | inr (g, e) ↦
            let t : Store = record {
              graph = g;
              packets = stored;
              workspace_id = or_workspace s.workspace_id g.workspace_id;
            } in
            let same : answered (t, g, false) ≡ out = ground (arith, h, e) in
            subst Answers same (record { known = false; same = refl })
      ]

  pub apply-Answers :
      (s : Store) (p : SourcePacket) (out : Store × Result PacketError (Graph.Graph × Bool))
      → validate_packet lib p ≡ ok tt
      → apply lib codec dir s p ≡ some out
      → Answers out
  unfolding apply
  apply-Answers s p out v h = elim (Option-cases (find (source_id_of p) s.packets)) [
    | inl e ↦ stored-Answers s p out (rw (v, e, apply) at h)
    | inr (old, e) ↦ elim (Bool-cases (has_bytes_of old p)) [
      | inr f ↦ stored-Answers s p out (rw (v, e, f, apply) at h)
      | inl f ↦
          let done : Store × Result PacketError (Graph.Graph × Bool) = (s, ok (s.graph, true)) in
          let same : done ≡ out = ground (arith, h, v, e, f) in
          subst Answers same (record { known = true; same = refl })
    ]
  ]
