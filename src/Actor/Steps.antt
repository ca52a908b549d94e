-- ===== src/Actor/Steps.antt =====
-- The controller as a machine: every call of actor.go that changes it, in any order.
use cann_o_call.Prelude.{ℕ, String, refl, arith}
use cann_o_call.Actor.{Config, Controller, ActorResult, new_with_config}
use cann_o_call.Actor.Activate.{Request, World, activate_with_parent, active_count}
use cann_o_call.Actor.Lifecycle.{
  Message, expire_actor, complete, fail, record_result, handle_stopped, record_failure, shutdown,
  list, receive,
}
use cann_o_call.Actor.Lifecycle.Keeps.{
  expire_actor-Keeps, complete-Keeps, fail-Keeps, record_result-Keeps, handle_stopped-Keeps,
  record_failure-Keeps, shutdown-Keeps, list-Keeps, receive-Keeps,
}
use cann_o_call.Actor.Bounds.{Holds, activate-Keeps}

-- One call, which holds the controller's lock from its beginning to its end.
pub data Step (c : Controller) : Controller → Type 0 where
  activates : (w : World) (r : Request) → Step c (activate_with_parent w r c).0
  expires : (id : String) → Step c (expire_actor id c)
  completes : (id : String) → Step c (complete id c)
  fails : (id reason : String) → Step c (fail id reason c)
  records : (now : ℕ) (res : ActorResult) → Step c (record_result now res c)
  stops : (id : String) → Step c (handle_stopped id c)
  breaks : (id reason : String) → Step c (record_failure id reason c)
  receives : (now : ℕ) (id : String) (m : Message) → Step c (receive now id m c)
  lists : (now : ℕ) (w : String) → Step c (list now w c).0
  shuts : Step c (shutdown c)

pub data Reachable (start : Controller) : Controller → Type 0 where
  begin : Reachable start start
  next : {c d : Controller} → Reachable start c → Step c d → Reachable start d

Step-Holds : (start : Controller) {c d : Controller} → Step c d → Holds start c → Holds start d
Step-Holds start {c} (activates w r) h = activate-Keeps w r start c h
Step-Holds start {c} (expires id) h = expire_actor-Keeps id start c h
Step-Holds start {c} (completes id) h = complete-Keeps id start c h
Step-Holds start {c} (fails id reason) h = fail-Keeps id reason start c h
Step-Holds start {c} (records now res) h = record_result-Keeps now res start c h
Step-Holds start {c} (stops id) h = handle_stopped-Keeps id start c h
Step-Holds start {c} (breaks id reason) h = record_failure-Keeps id reason start c h
Step-Holds start {c} (receives now id m) h = receive-Keeps now id m start c h
Step-Holds start {c} (lists now w) h = list-Keeps now w start c h
Step-Holds start {c} shuts h = shutdown-Keeps start c h

new-Holds : (cfg : Config) → Holds (new_with_config cfg) (new_with_config cfg)
unfolding new_with_config active_count
new-Holds cfg = record { same_active = refl; same_depth = refl; count = ground arith; within = tt }

-- In every controller that calls reach from `NewWithConfig`, in any order and with any answers of
-- the clock and of Proto.Actor, the limits are those of the start, at most `max_active`
-- activations are active, and an active one is at most `max_depth` deep and has a budget that is
-- not negative.
pub Reachable-Holds :
    (cfg : Config) (c : Controller)
    → Reachable (new_with_config cfg) c
    → Holds (new_with_config cfg) c
Reachable-Holds cfg c begin = new-Holds cfg
Reachable-Holds cfg c (next {c = b} path step) =
    Step-Holds (new_with_config cfg) step (Reachable-Holds cfg b path)
