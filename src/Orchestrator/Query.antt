-- ===== src/Orchestrator/Query.antt =====
-- `Query` of internal/orchestrator/orchestrator.go: the selected nodes wake actors, and nothing durable
-- changes. The world gives the clock and the actor system at each node.
pub mod Observes
use Prim.Native.String.{◌++◌, slice}
use mathlib.Core.List
use cann_o_call.Prelude.{
  ℕ, suc, ◌+◌, ◌-◌, String, Bool, true, false, not, ◌&&◌, ◌||◌, List, [], ◌∷◌, Option, none, some,
  length, map, filter, ltb, ◌==◌, if◌then◌else◌,
}
use cann_o_call.Prelude.Text.{str_lt}
use cann_o_call.Prelude.Sort.{sort}
use cann_o_call.Prelude.Trim.{trim_space}
use cann_o_call.Prelude.Assoc.{put}
use cann_o_call.Prelude.Result.{Result, ok, err, ◌>>=◌, ◌>>◌, guard, or_fail}
use cann_o_call.EventLog.{is_sha256}
use cann_o_call.Actor.{Activation, ActorResult, Controller, find_descriptor}
use cann_o_call.Actor.Activate.{World, activate_with_parent}
use cann_o_call.Actor.Lifecycle.{complete, fail, record_result}
use cann_o_call.Ingest.{Lib, SourcePacket, is_blank}
use cann_o_call.Graph.{Node}
use cann_o_call.Graph.Store.{Store, packets}
use cann_o_call.Scoring.{Unicode, ScoredNode, score_graph}
use cann_o_call.Scoring.Select.{select_candidates}
use cann_o_call.ContextPacket.{
  ContextPacket, ContextError, EvidenceItem, packet_version, Lineage, validate, sort_evidence,
  bounded_excerpt,
}
use cann_o_call.Orchestrator.{Orchestrator, QueryInfo}
use cann_o_call.Orchestrator.Context.{
  is_rejected, build_actor_result, count_activation_statuses, context_of,
}

pub data QueryError : Type 0 where
  request_id_required query_required workspace_required no_store no_actors : QueryError

-- Without the coverage, a quotient of floats.
pub record QueryResult : Type 0 where
  pub request_id : String
  pub query : String
  pub workspace_id : String
  pub candidates_considered : ℕ
  pub selected : List ScoredNode
  pub packets : List ContextPacket
  pub activations : List Activation
  pub results : List (String × ActorResult)
  pub rejected_count : ℕ

-- What the loop over the selected nodes has gathered; the activations as they were returned.
pub record Gathered : Type 0 where
  pub actors : Controller
  pub packets : List ContextPacket
  pub activations : List Activation
  pub results : List (String × ActorResult)
  pub rejected : ℕ

-- The activations are pointers: what was returned shows what the controller has made of it since.
unfoldable pub seen_now : Controller → Activation → Activation
seen_now c a = elim (find_descriptor a.id c.activations) [ none ↦ a | some b ↦ b ]

module _ (lib : Lib) (u : Unicode) where
  -- An activation that was not rejected: its context, and the result that is recorded at once. `reason` is
  -- the text of an error.
  unfoldable pub deliver :
      (ContextError → String) → ℕ → ContextPacket → Activation → Gathered → Gathered
  unfolding validate build_actor_result fail record_result complete put
  deliver reason now p act g = elim (validate p) [
    | err e ↦ record g {
      actors = fail act.id ("packet validate: " ++ reason e) g.actors;
      rejected = suc g.rejected;
    }
    | ok v ↦
        let res = build_actor_result now act p in
        record g {
          actors = complete act.id (record_result now res g.actors);
          packets = List.◌++◌ g.packets (p ∷ []);
          results = put act.id res g.results;
        }
  ]

  -- One turn of the loop over the selected nodes.
  unfoldable pub wake :
      (ContextError → String)
      → (String → World)
      → String
      → String
      → String
      → String
      → ScoredNode
      → Gathered
      → Gathered
  unfolding activate_with_parent context_of deliver
  wake reason world parent request query workspace s g =
      let w = world s.node.node_id in
      let (c, woken) =
        activate_with_parent w
          (record {
            parent_id = parent;
            workspace = workspace;
            action = "live_context.query";
            path = s.node.node_id;
          })
          g.actors in
      elim woken [
        | none ↦ record g { actors = c; rejected = suc g.rejected }
        | some act ↦
            let kept : Gathered = record g {
              actors = c;
              activations = List.◌++◌ g.activations (act ∷ []);
            } in
            if is_rejected act
            then record kept { rejected = suc g.rejected }
            else deliver reason w.now (context_of lib request query workspace w.now s act) act kept
      ]

  unfoldable pub wake_all :
      (ContextError → String)
      → (String → World)
      → String
      → String
      → String
      → String
      → List ScoredNode
      → Gathered
      → Gathered
  unfolding wake
  wake_all reason world parent request query workspace [] g = g
  wake_all reason world parent request query workspace (s ∷ l) g =
      wake_all reason world parent request query workspace l
        (wake reason world parent request query workspace s g)

  unfoldable pub check_query :
      String → String → Orchestrator → Result QueryError (Store × Controller)
  check_query request query o = do
    guard (not (is_blank request)) request_id_required
    guard (not (is_blank query)) query_required
    guard (not (is_blank o.workspace_id)) workspace_required
    store ← or_fail o.graph_store no_store
    actors ← or_fail o.actors no_actors
    ok (store, actors)

  -- The result, and what is remembered of the query.
  unfoldable pub concluded :
      String
      → String
      → Orchestrator
      → List ScoredNode
      → List ScoredNode
      → Gathered
      → Orchestrator × QueryResult
  unfolding sort seen_now count_activation_statuses
  concluded request query o scored selected g =
      let contexts = sort str_lt (λ (p : ContextPacket). p.target_node_id) g.packets in
      let activations =
        sort str_lt (λ (a : Activation). a.id) (map (seen_now g.actors) g.activations) in
      let (active, completed, rejected) = count_activation_statuses activations g.rejected in
      let info : QueryInfo = record {
        request_id = request;
        query = query;
        candidates_considered = length scored;
        selected = length selected;
        packets = length contexts;
        activations = length activations;
        rejected = rejected;
        active = active;
        completed = completed;
      } in
      (
        record o {
          actors = some g.actors;
          last = record {
            request = request;
            query = query;
            candidates = scored;
            selected = selected;
            packets = contexts;
            info = info;
          };
        },
        record {
          request_id = request;
          query = query;
          workspace_id = o.workspace_id;
          candidates_considered = length scored;
          selected = selected;
          packets = contexts;
          activations = activations;
          results = g.results;
          rejected_count = g.rejected;
        },
      )

  -- `Query`
  unfoldable pub query :
      (ContextError → String)
      → (String → World)
      → String
      → String
      → String
      → Orchestrator
      → Orchestrator × Result QueryError QueryResult
  unfolding check_query score_graph select_candidates wake_all concluded packets
  query reason world request text parent o = elim (check_query request text o) [
    | err e ↦ (o, err e)
    | ok (store, actors) ↦
        let scored = score_graph lib u store.graph (packets store) text in
        let selected = select_candidates scored o.select_config in
        let gathered = wake_all reason world parent request text o.workspace_id selected (record {
          actors = actors;
          packets = [];
          activations = [];
          results = [];
          rejected = 0;
        }) in
        let (after, result) = concluded request text o scored selected gathered in
        (after, ok result)
  ]
