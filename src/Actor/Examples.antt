-- ===== src/Actor/Examples.antt =====
-- A controller with one root actor, which completes.
use cann_o_call.Prelude.{true}
use cann_o_call.Actor.{Controller, default_config, new_with_config}
use cann_o_call.Actor.Activate.{Request, World, activate_with_parent}
use cann_o_call.Actor.Lifecycle.{complete}
use cann_o_call.Actor.Bounds.{Holds}
use cann_o_call.Actor.Steps.{begin, next, activates, completes, Reachable-Holds}

abbrev root_request : Request
root_request = record { parent_id = ""; workspace = "w"; action = "scan"; path = "/" }

abbrev noon : World
noon = record { now = 12; spawned = true }

abbrev after_activation : Controller
after_activation = (activate_with_parent noon root_request (new_with_config default_config)).0

Reachable-Holds_example :
    Holds (new_with_config default_config) (complete "actor-000001" after_activation)
Reachable-Holds_example =
    Reachable-Holds default_config (complete "actor-000001" after_activation)
      (next (next begin (activates noon root_request)) (completes "actor-000001"))
