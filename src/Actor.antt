-- ===== src/Actor.antt =====
-- internal/actorstub/actor.go: `Activation`, `Config`, `Controller` and its constructors.
pub mod Activate
pub mod Lifecycle
pub mod Bounds
mod Steps
mod Examples
use Prim.Native.String
use cann_o_call.Prelude.{
  ℕ, zero, suc, String, Bool, true, false, List, [], ◌∷◌, ◌++◌, Option, none, some, ◌==◌, map, ltb,
  ◌&&◌, if◌then◌else◌,
}
use cann_o_call.Prelude.Assoc.{find, remove, without, has}
use cann_o_call.Prelude.Int64.{ℤ, pos, negsuc}

-- Instants and durations are nanoseconds.
pub record Activation : Type 0 where
  pub id : String
  pub workspace_id : String
  pub trigger_action : String
  pub path : String
  pub node_id : String
  pub lineage_id : String
  pub parent_actor_id : String
  pub depth : ℤ
  pub budget : ℤ
  pub remaining_budget : ℤ
  pub activation_count : ℤ
  pub created_at : ℕ
  pub last_activated_at : ℕ
  pub expires_at : ℕ
  pub ttl : ℕ
  pub status : String
  pub content_id : String
  pub notes : List String

-- The confidence is a number that nothing reads, and is left out.
pub record ActorResult : Type 0 where
  pub actor_id : String
  pub lineage_id : String
  pub node_id : String
  pub status : String
  pub observations : String
  pub result : String
  pub evidence_refs : List String
  pub proposed_actions : List String
  pub created_at : ℕ

pub record Config : Type 0 where
  pub max_active : ℤ
  pub max_depth : ℤ
  pub max_budget : ℤ
  pub ttl : ℤ

-- The limits are positive once `NewWithConfig` has read them. A descriptor is the activation of the
-- list that has its id, which both name in the source. `live` and `timers` are the keys of the maps.
pub record Controller : Type 0 where
  pub max_active : ℕ
  pub max_depth : ℕ
  pub max_budget : ℕ
  pub ttl : ℕ
  pub activations : List Activation
  pub dedup : List (String × ℕ)
  pub live : List String
  pub timers : List String
  pub results : List (String × ActorResult)
  pub counter : ℤ
  pub closed : Bool

-- `if x <= 0 { x = d }`
pub positive_or : ℤ → ℕ → ℕ
positive_or (pos zero) d = d
positive_or (pos (suc n)) d = suc n
positive_or (negsuc n) d = d

abbrev pub five_minutes : ℕ
five_minutes = 300000000000

pub new_with_config : Config → Controller
unfolding positive_or
new_with_config cfg = record {
  max_active = positive_or cfg.max_active 16;
  max_depth = positive_or cfg.max_depth 8;
  max_budget = positive_or cfg.max_budget 32;
  ttl = positive_or cfg.ttl five_minutes;
  activations = [];
  dedup = [];
  live = [];
  timers = [];
  results = [];
  counter = pos 0;
  closed = false;
}

abbrev pub default_config : Config
default_config = record {
  max_active = pos 16;
  max_depth = pos 8;
  max_budget = pos 32;
  ttl = pos five_minutes;
}

-- `New`
pub new : ℤ → ℤ → Controller
unfolding new_with_config positive_or
new max_active ttl = new_with_config (record default_config {
  max_active = pos (positive_or max_active 16);
  ttl = pos (positive_or ttl five_minutes);
})

-- `strings.Join([]string{workspaceID, action, path}, "\x00")`
pub dedup_key : String → String → String → String
dedup_key w action path =
    String.◌++◌ w (String.◌++◌ "\0" (String.◌++◌ action (String.◌++◌ "\0" path)))

pub key_of : Activation → String
unfolding dedup_key
key_of a = dedup_key a.workspace_id a.trigger_action a.path

pub is_active : Activation → Bool
is_active a = a.status == "active"

-- `c.descriptors[id]`
pub find_descriptor : String → List Activation → Option Activation
find_descriptor id [] = none
find_descriptor id (a ∷ xs) =
    let rest = find_descriptor id xs in if id == a.id then some a else rest

-- A write through the pointer that the list and the map share.
pub update : String → (Activation → Activation) → List Activation → List Activation
update id f [] = []
update id f (a ∷ xs) = (if id == a.id then f a else a) ∷ update id f xs

-- `act.Status = status; act.Notes = append(act.Notes, notes...)`
pub ended : String → List String → Activation → Activation
ended status notes a = record a { status = status; notes = a.notes ++ notes }

-- `stopLiveLocked`: the timer goes only together with a live actor.
pub stop_live : String → Controller → Controller
unfolding has without
stop_live id c =
    if has id c.live then record c { live = without id c.live; timers = without id c.timers } else c

pub forget_key : String → Controller → Controller
unfolding remove
forget_key key c = record c { dedup = remove key c.dedup }

-- One turn of the loop of `cleanLocked`.
pub sweep_one : ℕ → Activation → Controller → Controller
unfolding is_active key_of update ended stop_live forget_key
sweep_one now a c =
    if is_active a && ltb a.expires_at now
    then forget_key (key_of a)
        (stop_live a.id (record c { activations = update a.id (ended "expired" []) c.activations }))
    else c

pub sweep : ℕ → List Activation → Controller → Controller
unfolding sweep_one
sweep now [] c = c
sweep now (a ∷ xs) c = sweep now xs (sweep_one now a c)

-- `cleanLocked`
pub clean_locked : ℕ → Controller → Controller
unfolding sweep
clean_locked now c = sweep now c.activations c
