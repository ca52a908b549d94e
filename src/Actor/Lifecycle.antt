-- ===== src/Actor/Lifecycle.antt =====
-- internal/actorstub/actor.go: what ends an activation, and what reads the controller.
pub mod Keeps
use Prim.Native.String
use cann_o_call.Prelude.{
  ℕ, String, Bool, true, false, not, ◌&&◌, ◌||◌, List, [], ◌∷◌, ◌++◌, Option, none, some, ◌==◌,
  length, if◌then◌else◌,
}
use cann_o_call.Prelude.Assoc.{find, put, has, without}
use cann_o_call.Actor.{
  Activation, ActorResult, Config, Controller, key_of, is_active, find_descriptor, update, ended,
  stop_live, forget_key, clean_locked,
}

-- An activation that is active ends in `status`; one that has ended already is left.
unfoldable pub end_active : String → String → Activation → Controller → Controller
unfolding is_active update ended
end_active status note a c =
    if is_active a
    then record c { activations = update a.id (ended status (note ∷ [])) c.activations }
    else c

at_found : (Activation → Controller → Controller) → Option Activation → Controller → Controller
at_found f none c = c
at_found f (some a) c = f a c

-- `act, ok := c.descriptors[id]; if !ok { return }`
on_descriptor : String → (Activation → Controller → Controller) → Controller → Controller
unfolding at_found find_descriptor
on_descriptor id f c = at_found f (find_descriptor id c.activations) c

-- `expireActor`
unfoldable pub expire_actor : String → Controller → Controller
unfolding on_descriptor end_active is_active stop_live forget_key key_of
expire_actor id = on_descriptor id (λ a c.
    if is_active a
    then forget_key (key_of a) (stop_live id (end_active "expired" "ttl deterministic stop" a c))
    else c)

-- `Complete`
unfoldable pub complete : String → Controller → Controller
unfolding on_descriptor end_active stop_live forget_key key_of
complete id = on_descriptor id (λ a c.
    forget_key (key_of a) (stop_live id (end_active "completed" "completed -> stop/passivate" a c)))

-- `Fail`
unfoldable pub fail : String → String → Controller → Controller
unfolding on_descriptor end_active stop_live
fail id reason = on_descriptor id (λ a c. stop_live id (end_active "failed" reason a c))

complete_result : ActorResult → Controller → Controller
unfolding on_descriptor end_active is_active stop_live forget_key key_of
complete_result res = on_descriptor res.actor_id (λ a c.
    if is_active a && (res.status == "completed" || res.status == "observation")
    then forget_key (key_of a)
        (stop_live res.actor_id (end_active "completed" "result completed -> stop" a c))
    else c)

-- `RecordResult`
unfoldable pub record_result : ℕ → ActorResult → Controller → Controller
unfolding complete_result put
record_result now res c =
    if res.actor_id == ""
    then c
    else complete_result res
        (record c { results = put res.actor_id (record res { created_at = now }) c.results })

-- The process and its timer, whether or not the actor was live.
unfoldable pub drop_live : String → Controller → Controller
unfolding without
drop_live id c = record c { live = without id c.live; timers = without id c.timers }

passivate : String → Option Activation → Controller → Controller
unfolding is_active end_active drop_live forget_key key_of
passivate id none c = drop_live id c
passivate id (some a) c =
    if is_active a
    then forget_key (key_of a) (drop_live id (end_active "passivated" "stopped/passivated" a c))
    else drop_live id c

-- `handleStopped`
unfoldable pub handle_stopped : String → Controller → Controller
unfolding passivate find_descriptor
handle_stopped id c = passivate id (find_descriptor id c.activations) c

-- `recordFailure`
unfoldable pub record_failure : String → String → Controller → Controller
unfolding on_descriptor end_active drop_live
record_failure id reason = on_descriptor id (λ a c. drop_live id (end_active "failed" reason a c))

-- `Shutdown`
unfoldable pub shutdown : Controller → Controller
shutdown c = if c.closed then c else record c { closed = true; live = []; timers = [] }

pub data SendError : Type 0 where
  not_live : String → SendError
  not_active : String → String → SendError

send_to : String → Bool → Option Activation → Option SendError
unfolding is_active
send_to id false found = some (not_live id)
send_to id true none = none
send_to id true (some a) = if is_active a then none else some (not_active id a.status)

-- `Send`: `none` is a message that goes to the process.
unfoldable pub send : String → Controller → Option SendError
unfolding send_to has find_descriptor
send id c = send_to id (has id c.live) (find_descriptor id c.activations)

pub get_result : String → Controller → Option ActorResult
unfolding find
get_result id c = find id c.results

pub live_count : Controller → ℕ
live_count c = length c.live

unfoldable pub is_live : String → Controller → Bool
unfolding has
is_live id c = has id c.live

pub descriptor : String → Controller → Option Activation
unfolding find_descriptor
descriptor id c = find_descriptor id c.activations

pub descriptor_count : Controller → ℕ
descriptor_count c = length c.activations

in_workspace : String → List Activation → List Activation
in_workspace w [] = []
in_workspace w (a ∷ xs) =
    let rest = in_workspace w xs in if w == "" || a.workspace_id == w then a ∷ rest else rest

-- `List`
unfoldable pub list : ℕ → String → Controller → Controller × List Activation
unfolding clean_locked in_workspace
list now w c = let swept = clean_locked now c in (swept, in_workspace w swept.activations)

-- The mailbox of `dormantActor`.
pub data Message : Type 0 where
  started stopped : Message
  process plain : String → Message

lineage_of : Option Activation → String
lineage_of none = ""
lineage_of (some a) = a.lineage_id

node_of : Option Activation → String
node_of none = ""
node_of (some a) = a.node_id

observation : String → String → List String → List String → ℕ → Controller → ActorResult
unfolding lineage_of node_of find_descriptor
observation id payload evidence actions now c = record {
  actor_id = id;
  lineage_id = lineage_of (find_descriptor id c.activations);
  node_id = node_of (find_descriptor id c.activations);
  status = "observation";
  observations = payload;
  result = String.◌++◌ "processed:" payload;
  evidence_refs = evidence;
  proposed_actions = actions;
  created_at = now;
}

-- `Receive`: a plain "panic" is left to the supervisor, which stops the actor.
unfoldable pub receive : ℕ → String → Message → Controller → Controller
unfolding observation record_result record_failure handle_stopped
receive now id started c = c
receive now id stopped c = handle_stopped id c
receive now id (process payload) c =
    if payload == "panic"
    then record_failure id "panic: intentional actor panic for supervision test" c
    else record_result now
        (observation id payload (String.◌++◌ "evidence://" id ∷ []) ("no_op" ∷ []) now c) c
receive now id (plain payload) c =
    if payload == "panic" then c else record_result now (observation id payload [] [] now c) c
