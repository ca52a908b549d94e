-- ===== src/Orchestrator/Query/Observes.antt =====
-- What a call of `Query` comes to.
use cann_o_call.Prelude.{
  ℕ, suc, ◌+◌, ◌≤◌, ◌<◌, ◌≡◌, refl, sym, ap, ◌∙◌, subst, inl, inr, String, List, [], ◌∷◌, All,
  All-append, length, length-append, length-map, map, arith, Bool-cases, Option-cases,
}
use cann_o_call.Prelude.Text.{str_lt}
use cann_o_call.Prelude.Sort.Permute.{All-Perm, Perm-sort, length-Perm}
use cann_o_call.Prelude.Result.{Result, ok, err, Result-cases}
use cann_o_call.Actor.{Activation}
use cann_o_call.Actor.Activate.{World, Request, activate_with_parent}
use cann_o_call.Ingest.{Lib}
use cann_o_call.Graph.Store.{packets}
use cann_o_call.Scoring.{Unicode, ScoredNode, score_graph}
use cann_o_call.Scoring.Select.{select_candidates}
use cann_o_call.Scoring.Select.Top.{wake_limit, select_candidates-top}
use cann_o_call.ContextPacket.{ContextPacket, ContextError, validate}
use cann_o_call.Orchestrator.{Orchestrator}
use cann_o_call.Orchestrator.Context.{is_rejected, context_of}
use cann_o_call.Orchestrator.Query.{
  QueryError, QueryResult, Gathered, deliver, wake, wake_all, check_query, concluded, query,
  seen_now,
}

abbrev pub IsValid : ContextPacket → Type 0
IsValid p = validate p ≡ ok tt

-- After `n` nodes: each was rejected or has a valid packet, and there is an activation for each packet.
record Fits (n : ℕ) (g : Gathered) : Type 0 where
  accounted : g.rejected + length g.packets ≡ n
  covered : length g.packets ≤ length g.activations
  few : length g.activations ≤ n
  valid : All IsValid g.packets

deliver-Fits :
    (lib : Lib) (u : Unicode) (reason : ContextError → String) (now n : ℕ) (p : ContextPacket)
    (act : Activation) (g : Gathered)
    → g.rejected + length g.packets ≡ n
    → length g.packets < length g.activations
    → length g.activations ≤ suc n
    → All IsValid g.packets
    → Fits (suc n) (deliver lib u reason now p act g)
unfolding deliver
deliver-Fits lib u reason now n p act g a c f v = elim (Result-cases (validate p)) [
  | inl (e, h) ↦
      rw (h, deliver)
        (record { accounted = omega (arith, a); covered = omega (arith, c); few = f; valid = v })
  | inr (u, h) ↦
      let longer = length-append g.packets (p ∷ []) in
      rw (h, deliver)
        (record {
          accounted = omega (arith, a, longer);
          covered = omega (arith, c, longer);
          few = f;
          valid = All-append IsValid g.packets (p ∷ []) v (h, tt);
        })
]

module _ (lib : Lib) (u : Unicode) (reason : ContextError → String) (world : String → World)
    (parent request text workspace : String) where
  wake-Fits :
      (n : ℕ) (s : ScoredNode) (g : Gathered)
      → Fits n g
      → Fits (suc n) (wake lib u reason world parent request text workspace s g)
  unfolding wake
  wake-Fits n s g h =
      let w = world s.node.node_id in
      let asked : Request = record {
        parent_id = parent;
        workspace = workspace;
        action = "live_context.query";
        path = s.node.node_id;
      } in
      let c = (activate_with_parent w asked g.actors).0 in
      elim (Option-cases (activate_with_parent w asked g.actors).1) [
        | inl e ↦
            rw (e, wake)
              (record {
                accounted = omega (arith, h.accounted);
                covered = h.covered;
                few = omega (arith, h.few);
                valid = h.valid;
              })
        | inr (act, e) ↦
            let longer = length-append g.activations (act ∷ []) in
            elim (Bool-cases (is_rejected act)) [
              | inl r ↦
                  rw (e, r, wake)
                    (record {
                      accounted = omega (arith, h.accounted);
                      covered = omega (arith, h.covered, longer);
                      few = omega (arith, h.few, longer);
                      valid = h.valid;
                    })
              | inr r ↦
                  rw (e, r, wake)
                    (deliver-Fits lib u reason w.now n
                      (context_of lib request text workspace w.now s act) act _ h.accounted
                      (omega (arith, h.covered, longer)) (omega (arith, h.few, longer)) h.valid)
            ]
      ]

  wake_all-Fits :
      (n : ℕ) (l : List ScoredNode) (g : Gathered)
      → Fits n g
      → Fits (n + length l) (wake_all lib u reason world parent request text workspace l g)
  unfolding wake_all
  wake_all-Fits n [] g h = subst (λ m. Fits m g) (omega (arith)) h
  wake_all-Fits n (s ∷ l) g h =
      let next = wake-Fits n s g h in
      let rest = wake_all-Fits (suc n) l _ next in
      subst (λ m. Fits m (wake_all lib u reason world parent request text workspace (s ∷ l) g))
        (omega (arith)) rest

-- The two things that a call of `Query` comes to.
pub data Observes (o : Orchestrator) (out : Orchestrator × Result QueryError QueryResult)
    : Type 0 where
  refuses : (e : QueryError) → out.1 ≡ err e → out.0 ≡ o → Observes o out
  answers :
      (r : QueryResult)
      → out.1 ≡ ok r
      → out.0.authority ≡ o.authority
      → out.0.graph_store ≡ o.graph_store
      → out.0.packets ≡ o.packets
      → length r.selected ≤ wake_limit o.select_config
      → wake_limit o.select_config ≤ 16
      → r.rejected_count + length r.packets ≡ length r.selected
      → length r.activations ≤ length r.selected
      → All IsValid r.packets
      → Observes o out

concluded-Observes :
    (lib : Lib) (u : Unicode) (request text : String) (o : Orchestrator)
    (scored selected : List ScoredNode) (g : Gathered)
    → Fits (length selected) g
    → length selected ≤ wake_limit o.select_config
    → wake_limit o.select_config ≤ 16
    → let done = concluded lib u request text o scored selected g in Observes o (done.0, ok done.1)
unfolding concluded
concluded-Observes lib u request text o scored selected g h s top =
    let arranged = Perm-sort str_lt (λ (p : ContextPacket). p.target_node_id) g.packets in
    let now = map (seen_now g.actors) g.activations in
    let listed = Perm-sort str_lt (λ (a : Activation). a.id) now in
    answers _ refl refl refl refl s top
      (ap (λ n. g.rejected + n) (sym (length-Perm arranged)) ∙ h.accounted)
      (subst (λ n. n ≤ length selected)
        (sym (length-map (seen_now g.actors) g.activations) ∙ length-Perm listed) h.few)
      (All-Perm IsValid arranged h.valid)

-- A call of `Query` either fails and changes nothing; or it answers, with the authority, the graph
-- store and the packets as they were. In an answer the selected nodes are within the limit of the
-- configuration, which is at most 16; each selected node is counted as rejected or has a packet;
-- there are no more activations than selected nodes; and every packet passes `Validate`.
pub query-Observes :
    (lib : Lib) (u : Unicode) (reason : ContextError → String) (world : String → World)
    (request text parent : String) (o : Orchestrator)
    → Observes o (query lib u reason world request text parent o)
unfolding query
query-Observes lib u reason world request text parent o =
    elim (Result-cases (check_query lib u request text o)) [
      | inl (e, f) ↦ rw (f, query) (refuses e refl refl)
      | inr ((store, actors), f) ↦
          let scored = score_graph lib u store.graph (packets store) text in
          let selected = select_candidates scored o.select_config in
          let empty : Gathered = record {
            actors = actors;
            packets = [];
            activations = [];
            results = [];
            rejected = 0;
          } in
          let fits =
            wake_all-Fits lib u reason world parent request text o.workspace_id 0 selected empty
              (record {
                accounted = refl;
                covered = omega (arith);
                few = omega (arith);
                valid = tt;
              }) in
          let top = select_candidates-top scored o.select_config in
          let gathered =
            wake_all lib u reason world parent request text o.workspace_id selected empty in
          rw (f, query)
            (concluded-Observes lib u request text o scored selected gathered
              (subst (λ n. Fits n gathered) (omega (arith)) fits) top.3 top.6)
    ]
