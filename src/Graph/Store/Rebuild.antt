-- ===== src/Graph/Store/Rebuild.antt =====
-- The store that packets are applied to one at a time, and the one rebuilt from the history.
use mathlib.Core.List.{Permᴰ}
use cann_o_call.Prelude.{
  ◌≡◌, ◌≢◌, refl, sym, ◌∙◌, ap, subst, String, false, List, [], ◌∷◌, ◌++◌, Option, none, some, inl,
  inr, All, append-nil, ◌>>=◌, Option-cases, ne→false,
}
use cann_o_call.Prelude.Text.{str_lt, str_lt-IsOrder}
use cann_o_call.Prelude.Sort.{sort, Lacks}
use cann_o_call.Prelude.Sort.Permute.{All-Perm, IsApart-Perm, sort-Perm, Perm-sort, Perm-middle}
use cann_o_call.Prelude.Assoc.{find, put}
use cann_o_call.Prelude.Maps.{remove_absent}
use cann_o_call.Prelude.Result.{ok, Result-cases}
use cann_o_call.Transition.{AcceptedTransition}
use cann_o_call.Ingest
use cann_o_call.Ingest.{Lib, SourcePacket, validate_packet}
use cann_o_call.Ingest.Propose.{packets_from_history, packet_from_accepted}
use cann_o_call.Graph.{Codec}
use cann_o_call.Graph.Build.{source_id_of, build}
use cann_o_call.Graph.Build.Order.{HasDistinctSources, IsReadable, build-Perm, build-some}
use cann_o_call.Graph.Store.{
  or_workspace, Store, new_store, packet_list, packets, keyed, store_packet, apply,
  rebuild_from_accepted, answered,
}

-- Each packet of the map stands under its source id.
abbrev IsKeyed : List (String × SourcePacket) → Type 0
IsKeyed = All (λ (e : String × SourcePacket). e.0 ≡ source_id_of e.1)

abbrev Absent : SourcePacket → List SourcePacket → Type 0
Absent = Lacks str_lt source_id_of

find-Absent :
    (p : SourcePacket) (m : List (String × SourcePacket))
    → IsKeyed m
    → Absent p (packet_list m)
    → find (source_id_of p) m ≡ none
unfolding find packet_list
find-Absent p [] h d = refl
find-Absent p ((k, q) ∷ m) h d =
    rw (ne→false (source_id_of p) k (λ e. d.0 (e ∙ h.0))) (find-Absent p m h.1 d.1)

put-Absent :
    (p : SourcePacket) (m : List (String × SourcePacket))
    → IsKeyed m
    → Absent p (packet_list m)
    → put (source_id_of p) p m ≡ (source_id_of p, p) ∷ m
unfolding put
put-Absent p m h d =
    ap (λ l. (source_id_of p, p) ∷ l) (remove_absent (source_id_of p) m (find-Absent p m h d))

-- A map that holds these packets, in any order.
record Holds (m : List (String × SourcePacket)) (ps : List SourcePacket) : Type 0 where
  is_keyed : IsKeyed m
  order : Permᴰ ps (packet_list m)

put-Holds :
    (p : SourcePacket) (m : List (String × SourcePacket)) (ps : List SourcePacket)
    → Holds m ps
    → Absent p ps
    → Holds (put (source_id_of p) p m) (p ∷ ps)
unfolding packet_list
put-Holds p m ps h d =
    let absent = All-Perm (λ y. source_id_of p ≢ source_id_of y) h.order d in
    rw (put-Absent p m h.is_keyed absent)
      (record { is_keyed = (refl, h.is_keyed); order = Permᴰ.cons refl h.order })

Absent-right : (p : SourcePacket) (l ps : List SourcePacket) → Absent p (l ++ ps) → Absent p ps
Absent-right p [] ps a = a
Absent-right p (q ∷ l) ps a = Absent-right p l ps a.1

IsApart-right : (l ps : List SourcePacket) → HasDistinctSources (l ++ ps) → HasDistinctSources ps
IsApart-right [] ps h = h
IsApart-right (p ∷ l) ps h = IsApart-right l ps h.1

-- A list of distinct packets is put whole.
keyed-Holds :
    (l ps : List SourcePacket) (m : List (String × SourcePacket))
    → Holds m ps
    → HasDistinctSources (l ++ ps)
    → Holds (keyed l m) (l ++ ps)
unfolding keyed
keyed-Holds [] ps m h d = h
keyed-Holds (p ∷ l) ps m h d =
    let moved = IsApart-Perm str_lt source_id_of (Perm-middle p l ps) d in
    let rest = keyed-Holds l (p ∷ ps) _ (put-Holds p m ps h (Absent-right p l ps d.0)) moved in
    record { is_keyed = rest.is_keyed; order = Permᴰ.trans (Perm-middle p l ps) rest.order }

module _ (lib : Lib) (codec : Codec) (dir : String → String) where
  -- `Apply` on each packet in turn; `none` where one panics.
  unfoldable pub apply_all : Store → List SourcePacket → Option Store
  unfolding apply
  apply_all s [] = some s
  apply_all s (p ∷ l) = do done ← apply lib codec dir s p; apply_all done.0 l

  abbrev IsValid : SourcePacket → Type 0
  IsValid p = validate_packet lib p ≡ ok tt

  -- A packet of a new source: the store's graph is then the one of all its packets.
  apply_new :
      (s : Store) (p : SourcePacket) (ps : List SourcePacket)
      → Holds s.packets ps
      → IsValid p
      → HasDistinctSources (p ∷ ps)
      → All (IsReadable lib dir) (p ∷ ps)
      → (t : Store) × (apply lib codec dir s p ≡ some (t, ok (t.graph, false)))
        × Holds t.packets (p ∷ ps)
        × (build lib codec dir (p ∷ ps) ≡ some t.graph)
  unfolding apply store_packet answered
  apply_new s p ps h v d r =
      let stored = put-Holds p s.packets ps h d.0 in
      let order =
        Permᴰ.trans stored.order
          (Perm-sort str_lt source_id_of (packet_list (put (source_id_of p) p s.packets))) in
      let same = build-Perm lib codec dir codec.iterate (p ∷ ps) _ order d in
      let built = build-some lib codec dir (p ∷ ps) r in
      let absent = All-Perm (λ y. source_id_of p ≢ source_id_of y) h.order d.0 in
      (
        record {
          graph = built.0;
          packets = put (source_id_of p) p s.packets;
          workspace_id = or_workspace s.workspace_id built.0.workspace_id;
        },
        rw (v, find-Absent p s.packets h.is_keyed absent, sym same, built.1, apply, store_packet)
            refl,
        stored,
        built.1,
      )

  -- A store that began with the packets `ps` and took the packets `l` in.
  record Mirrors (t : Store) (l ps : List SourcePacket) : Type 0 where
    held : Holds t.packets (l ++ ps)
    drawn : build lib codec dir (l ++ ps) ≡ some t.graph

  All-right {κ} :
      (P : SourcePacket → Type κ) (l ps : List SourcePacket) → All P (l ++ ps) → All P ps
  All-right P [] ps h = h
  All-right P (p ∷ l) ps h = All-right P l ps h.1

  apply_all-Mirrors :
      (s : Store) (p : SourcePacket) (l ps : List SourcePacket)
      → Holds s.packets ps
      → All IsValid (p ∷ l)
      → HasDistinctSources (p ∷ (l ++ ps))
      → All (IsReadable lib dir) (p ∷ (l ++ ps))
      → (t : Store) × (apply_all s (p ∷ l) ≡ some t) × Mirrors t (p ∷ l) ps
  unfolding apply_all
  apply_all-Mirrors s p [] ps h v d r =
      let step = apply_new s p ps h v.0 d r in
      (step.0, rw (step.1) refl, record { held = step.2; drawn = step.3 })
  apply_all-Mirrors s p (q ∷ l) ps h v d r =
      let moved = Perm-middle p (q ∷ l) ps in
      let apart = IsApart-Perm str_lt source_id_of moved d in
      let readable = All-Perm (IsReadable lib dir) moved r in
      let first =
        apply_new s p ps h v.0
          (Absent-right p (q ∷ l) ps d.0, (IsApart-right (q ∷ l) (p ∷ ps) apart).1)
          (r.0, All-right (IsReadable lib dir) (q ∷ l) ps r.1) in
      let rest = apply_all-Mirrors first.0 q l (p ∷ ps) first.2 v.1 apart readable in
      (
        rest.0,
        rw (first.1) (rest.1),
        record {
          held = record {
            is_keyed = rest.2.held.is_keyed;
            order = Permᴰ.trans moved rest.2.held.order;
          };
          drawn =
              build-Perm lib codec dir codec.iterate (p ∷ (q ∷ l ++ ps)) _ moved d ∙ rest.2.drawn;
        },
      )

  -- Every packet read from the history has passed the check.
  history-IsValid :
      (coding : Ingest.Propose.Codec) (accepted : List AcceptedTransition)
      → All IsValid (packets_from_history lib coding accepted)
  unfolding packets_from_history packet_from_accepted
  history-IsValid coding [] = tt
  history-IsValid coding (t ∷ ts) = elim (Option-cases (coding.unmarshal t.proposal.result_data)) [
    | inl e ↦ rw (e, packets_from_history, packet_from_accepted, All) (history-IsValid coding ts)
    | inr (p, e) ↦ elim (Result-cases (validate_packet lib p)) [
      | inl (x, f) ↦
          rw (e, f, packets_from_history, packet_from_accepted, All) (history-IsValid coding ts)
      | inr (u, f) ↦
          rw (e, f, packets_from_history, packet_from_accepted, All) (f, history-IsValid coding ts)
    ]
  ]

  -- If the packets of a history are one or more, have distinct source ids and are such that
  -- `extractLinks` does not panic on them, then applying them in turn to a new store succeeds,
  -- rebuilding any store from the history succeeds, and the two stores have the same graph and the
  -- same packets.
  pub rebuild-apply_all :
      (coding : Ingest.Propose.Codec) (workspace : String) (any : Store)
      (accepted : List AcceptedTransition) (p : SourcePacket) (l : List SourcePacket)
      → packets_from_history lib coding accepted ≡ p ∷ l
      → HasDistinctSources (p ∷ l)
      → All (IsReadable lib dir) (p ∷ l)
      → (s : Store) × (t : Store) × (apply_all (new_store workspace) (p ∷ l) ≡ some s)
        × (rebuild_from_accepted lib codec dir coding any accepted ≡ some (t, t.graph))
        × (t.graph ≡ s.graph)
        × (packets t ≡ packets s)
  unfolding rebuild_from_accepted packets new_store packet_list
  rebuild-apply_all coding workspace any accepted p l e d r =
      let ps = p ∷ l in
      let o = str_lt-IsOrder in
      let valid = subst (All IsValid) e (history-IsValid coding accepted) in
      let whole : (ps ++ []) ≡ ps = append-nil ps in
      let empty : Holds [] [] = record { is_keyed = tt; order = Permᴰ.nil } in
      let done =
        apply_all-Mirrors (new_store workspace) p l [] empty valid
          (subst HasDistinctSources (sym whole) d)
          (subst (All (IsReadable lib dir)) (sym whole) r) in
      let sorted = sort str_lt source_id_of ps in
      let arranged = Perm-sort str_lt source_id_of ps in
      let apart = IsApart-Perm str_lt source_id_of arranged d in
      let drawn =
        sym (build-Perm lib codec dir codec.iterate ps sorted arranged d)
        ∙ ap (build lib codec dir) (sym whole)
        ∙ done.2.drawn in
      let kept =
        keyed-Holds sorted [] [] empty (subst HasDistinctSources (sym (append-nil sorted)) apart) in
      let order =
        Permᴰ.trans arranged
          (subst (λ q. Permᴰ q (packet_list (keyed sorted []))) (append-nil sorted) kept.order) in
      let held = subst (λ q. Permᴰ q (packet_list done.0.packets)) whole done.2.held.order in
      (
        done.0,
        record {
          graph = done.0.graph;
          packets = keyed sorted [];
          workspace_id = elim sorted [ [] ↦ any.workspace_id | q ∷ m ↦ q.identity.workspace_id ];
        },
        done.1,
        rw (e, drawn) refl,
        refl,
        sym (sort-Perm o source_id_of order d) ∙ sort-Perm o source_id_of held d,
      )
