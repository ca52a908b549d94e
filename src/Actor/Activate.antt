-- ===== src/Actor/Activate.antt =====
-- internal/actorstub/actor.go: `Activate`, `ActivateWithParent` and `spawnLocked`.
use Prim.Native.String
use cann_o_call.Prelude.{
  ℕ, ◌+◌, String, Bool, true, false, not, ◌&&◌, List, [], ◌∷◌, ◌++◌, Option, none, some, ◌==◌, ltb,
  if◌then◌else◌,
}
use cann_o_call.Prelude.Assoc.{find, put, with_key}
use cann_o_call.Prelude.Decimal.{int_text, padded_int}
use cann_o_call.Prelude.Int64.{ℤ, pos, ltb_ℤ, inc, dec}
use cann_o_call.Actor.{
  Activation, Controller, dedup_key, is_active, find_descriptor, ended, clean_locked,
}

-- The arguments of `ActivateWithParent`.
pub record Request : Type 0 where
  pub parent_id : String
  pub workspace : String
  pub action : String
  pub path : String

-- What the clock reads, and whether Proto.Actor's `Spawn` gives a process.
pub record World : Type 0 where
  pub now : ℕ
  pub spawned : Bool

-- `nil`, a rejected activation, or one that has passed the checks of its lineage.
pub data Verdict : Type 0 where
  suppressed : Verdict
  rejected passed : Activation → Verdict

-- The fields that every activation of a call has in common.
unfoldable pub draft : Controller → ℕ → Request → Activation
unfolding padded_int
draft c now r = record {
  id = String.◌++◌ "actor-" (padded_int c.counter);
  workspace_id = r.workspace;
  trigger_action = r.action;
  path = r.path;
  node_id = r.workspace;
  lineage_id = "";
  parent_actor_id = r.parent_id;
  depth = pos 0;
  budget = pos 0;
  remaining_budget = pos 0;
  activation_count = pos 1;
  created_at = now;
  last_activated_at = now;
  expires_at = now + c.ttl;
  ttl = c.ttl;
  status = "";
  content_id = r.path;
  notes = [];
}

unfoldable pub same_subject : Activation → Request → Bool
same_subject parent r =
    not (parent.node_id == "")
    && r.workspace == parent.node_id
    && r.action == parent.trigger_action
    && r.path == parent.path

unfoldable pub repeats : String → Request → Activation → Bool
unfolding is_active
repeats lineage r a =
    is_active a
    && a.lineage_id == lineage
    && a.workspace_id == r.workspace
    && a.trigger_action == r.action
    && a.path == r.path

-- The loop that looks for the same request live in the lineage.
unfoldable pub repeated : String → Request → List Activation → Bool
unfolding repeats
repeated lineage r [] = false
repeated lineage r (a ∷ xs) =
    let rest = repeated lineage r xs in if repeats lineage r a then true else rest

depth_note : ℤ → ℕ → String
unfolding int_text
depth_note depth limit =
    String.◌++◌ "depth "
      (String.◌++◌ (int_text depth) (String.◌++◌ " exceeds max_depth " (int_text (pos limit))))

-- The hard limits, the same for a child and for a root.
unfoldable pub check_limits : Controller → Activation → Verdict
unfolding depth_note ended
check_limits c a =
    if ltb_ℤ (pos c.max_depth) a.depth
    then rejected (ended "rejected_depth" (depth_note a.depth c.max_depth ∷ []) a)
    else if ltb_ℤ a.remaining_budget (pos 0)
    then rejected (ended "rejected_budget_exhausted" ("activation budget exhausted" ∷ []) a)
    else passed a

-- One level below the parent, in its lineage, with one activation less to spend.
unfoldable pub below : Activation → Activation → Activation
below parent a = record a {
  lineage_id = parent.lineage_id;
  depth = inc parent.depth;
  budget = dec parent.remaining_budget;
  remaining_budget = dec parent.remaining_budget;
}

unfoldable pub child_activation : Controller → ℕ → Request → Activation → Activation
unfolding draft below
child_activation c now r parent = record (below parent (draft c now r)) {
  activation_count = inc parent.activation_count;
}

unfoldable pub judge_child : Controller → ℕ → Request → Option Activation → Verdict
unfolding draft same_subject child_activation repeated check_limits below ended
judge_child c now r none = rejected (
    ended "rejected_invalid_lineage" ("parent actor not found or invalid lineage" ∷ [])
      (draft c now r))
judge_child c now r (some parent) =
    if parent.lineage_id == ""
    then rejected
        (ended "rejected_invalid_lineage" ("parent has invalid lineage" ∷ []) (draft c now r))
    else if same_subject parent r
    then rejected (
        ended "rejected_cycle" ("cycle/repeated subject bounded" ∷ [])
          (below parent (draft c now r)))
    else if repeated parent.lineage_id r c.activations
    then suppressed
    else check_limits c (child_activation c now r parent)

-- A root opens a lineage of its own.
unfoldable pub root_activation : Controller → ℕ → Request → Activation
unfolding draft padded_int
root_activation c now r = record (draft c now r) {
  lineage_id = String.◌++◌ "lineage-" (padded_int c.counter);
  depth = pos 1;
  budget = pos c.max_budget;
  remaining_budget = pos c.max_budget;
}

unfoldable pub judge : Controller → ℕ → Request → Verdict
unfolding judge_child root_activation check_limits find_descriptor
judge c now r =
    if r.parent_id == ""
    then check_limits c (root_activation c now r)
    else judge_child c now r (find_descriptor r.parent_id c.activations)

unfoldable pub active_count : List Activation → ℕ
unfolding is_active
active_count [] = 0
active_count (a ∷ xs) = (if is_active a then 1 else 0) + active_count xs

-- `c.activations = append(c.activations, act); c.descriptors[id] = act`
unfoldable pub enrol : Activation → Controller → Controller × Option Activation
enrol a c = (record c { activations = c.activations ++ a ∷ [] }, some a)

-- `spawnLocked`, for the activation that is enrolled with what it makes of it.
unfoldable pub spawn : World → Activation → Controller → Controller × Option Activation
unfolding enrol ended with_key
spawn w a c =
    if c.closed
    then enrol (ended "failed" ("actor system unavailable" ∷ []) a) c
    else if w.spawned
    then enrol a (record c { live = with_key a.id c.live; timers = with_key a.id c.timers })
    else enrol (ended "failed" ("spawn failed" ∷ []) a) c

unfoldable pub open_activation :
    World → Request → Activation → Controller → Controller × Option Activation
unfolding spawn ended put dedup_key
open_activation w r a c =
    spawn w (ended "active" [] a)
      (record c { dedup = put (dedup_key r.workspace r.action r.path) a.expires_at c.dedup })

unfoldable pub settle : World → Request → Controller → Verdict → Controller × Option Activation
unfolding open_activation enrol ended active_count
settle w r c suppressed = (c, none)
settle w r c (rejected a) = enrol a c
settle w r c (passed a) =
    if ltb (active_count c.activations) c.max_active
    then open_activation w r a c
    else enrol (ended "rejected_budget" ("actor-count limit reached" ∷ []) a) c

unexpired : ℕ → Option ℕ → Bool
unexpired now none = false
unexpired now (some until) = ltb now until

-- The test of `dedup`, which holds for a root only.
unfoldable pub within_window : ℕ → Request → Controller → Bool
unfolding unexpired find dedup_key
within_window now r c =
    r.parent_id == "" && unexpired now (find (dedup_key r.workspace r.action r.path) c.dedup)

unfoldable pub admit : World → Request → Controller → Controller × Option Activation
unfolding within_window settle judge
admit w r c =
    let counted = record c { counter = inc c.counter } in
    if within_window w.now r c then (c, none) else settle w r counted (judge counted w.now r)

-- `ActivateWithParent`; `Activate` is the case of an empty parent.
unfoldable pub activate_with_parent : World → Request → Controller → Controller × Option Activation
unfolding admit clean_locked
activate_with_parent w r c = admit w r (clean_locked w.now c)
