-- ===== src/Actor/Lifecycle/Keeps.antt =====
-- internal/actorstub/actor.go: the limits, through the calls that end an activation.
use Prim.Native.String
use cann_o_call.Prelude.{
  ℕ, ◌≡◌, refl, String, Bool, true, false, ◌&&◌, ◌||◌, [], ◌∷◌, Option, none, some, ◌==◌, inl, inr,
  Bool-cases, if◌then◌else◌,
}
use cann_o_call.Prelude.Assoc.{put}
use cann_o_call.Actor.{
  Activation, ActorResult, Controller, key_of, is_active, find_descriptor, stop_live, forget_key,
}
use cann_o_call.Actor.Lifecycle.{
  Message, started, stopped, process, plain, end_active, at_found, on_descriptor, expire_actor,
  complete, fail, complete_result, record_result, drop_live, passivate, handle_stopped,
  record_failure, observation, shutdown, list, receive,
}
use cann_o_call.Actor.Bounds.{Keeps, ended-Holds, stop_live-Keeps, clean_locked-Keeps}

end_active-Keeps :
    (status note : String) (a : Activation)
    → (status == "active") ≡ false
    → Keeps (end_active status note a)
unfolding end_active
end_active-Keeps status note a off start c h = elim (Bool-cases (is_active a)) [
  | inl e ↦ rw e (ended-Holds start c a.id status (note ∷ []) off h)
  | inr e ↦ rw e h
]

drop_live-Keeps : (id : String) → Keeps (drop_live id)
unfolding drop_live
drop_live-Keeps id start c h = h

forget_key-Keeps : (key : String) → Keeps (forget_key key)
unfolding forget_key
forget_key-Keeps key start c h = h

at_found-Keeps :
    (f : Activation → Controller → Controller) (found : Option Activation)
    → ((a : Activation) → Keeps (f a))
    → Keeps (at_found f found)
unfolding at_found
at_found-Keeps f none k start c h = h
at_found-Keeps f (some a) k start c h = k a start c h

on_descriptor-Keeps :
    (id : String) (f : Activation → Controller → Controller)
    → ((a : Activation) → Keeps (f a))
    → Keeps (on_descriptor id f)
unfolding on_descriptor
on_descriptor-Keeps id f k start c h =
    at_found-Keeps f (find_descriptor id c.activations) k start c h

-- Ended, stopped and forgotten.
finish-Keeps :
    (id status note : String) (a : Activation)
    → (status == "active") ≡ false
    → Keeps (λ c. forget_key (key_of a) (stop_live id (end_active status note a c)))
finish-Keeps id status note a off start c h =
    let ended_now = end_active status note a c in
    forget_key-Keeps (key_of a) start (stop_live id ended_now)
      (stop_live-Keeps id start ended_now (end_active-Keeps status note a off start c h))

if_Keeps :
    (b : Bool) (f g : Controller → Controller)
    → Keeps f
    → Keeps g
    → Keeps (λ c. if b then f c else g c)
if_Keeps true f g k l start c h = k start c h
if_Keeps false f g k l start c h = l start c h

same_Keeps : Keeps (λ c. c)
same_Keeps start c h = h

pub expire_actor-Keeps : (id : String) → Keeps (expire_actor id)
unfolding expire_actor
expire_actor-Keeps id = on_descriptor-Keeps id _ (λ a.
    if_Keeps (is_active a) _ (λ c. c) (finish-Keeps id "expired" "ttl deterministic stop" a refl)
      same_Keeps)

pub complete-Keeps : (id : String) → Keeps (complete id)
unfolding complete
complete-Keeps id =
    on_descriptor-Keeps id _ (λ a. finish-Keeps id "completed" "completed -> stop/passivate" a refl)

pub fail-Keeps : (id reason : String) → Keeps (fail id reason)
unfolding fail
fail-Keeps id reason = on_descriptor-Keeps id _ (λ a start c h.
    stop_live-Keeps id start (end_active "failed" reason a c)
      (end_active-Keeps "failed" reason a refl start c h))

complete_result-Keeps : (res : ActorResult) → Keeps (complete_result res)
unfolding complete_result
complete_result-Keeps res = on_descriptor-Keeps res.actor_id _ (λ a.
    if_Keeps (is_active a && (res.status == "completed" || res.status == "observation")) _ (λ c. c)
      (finish-Keeps res.actor_id "completed" "result completed -> stop" a refl) same_Keeps)

pub record_result-Keeps : (now : ℕ) (res : ActorResult) → Keeps (record_result now res)
unfolding record_result
record_result-Keeps now res start c h = elim (Bool-cases (res.actor_id == "")) [
  | inl e ↦ rw e h
  | inr e ↦ rw e (
      complete_result-Keeps res start
        (record c { results = put res.actor_id (record res { created_at = now }) c.results }) h)
]

passivate-Keeps : (id : String) (found : Option Activation) → Keeps (passivate id found)
unfolding passivate
passivate-Keeps id none = drop_live-Keeps id
passivate-Keeps id (some a) =
    if_Keeps (is_active a) _ (drop_live id)
      (λ start c h.
        let ended_now = end_active "passivated" "stopped/passivated" a c in
        forget_key-Keeps (key_of a) start (drop_live id ended_now) (
          drop_live-Keeps id start ended_now
            (end_active-Keeps "passivated" "stopped/passivated" a refl start c h)))
      (drop_live-Keeps id)

pub handle_stopped-Keeps : (id : String) → Keeps (handle_stopped id)
unfolding handle_stopped
handle_stopped-Keeps id start c h = passivate-Keeps id (find_descriptor id c.activations) start c h

pub record_failure-Keeps : (id reason : String) → Keeps (record_failure id reason)
unfolding record_failure
record_failure-Keeps id reason = on_descriptor-Keeps id _ (λ a start c h.
    drop_live-Keeps id start (end_active "failed" reason a c)
      (end_active-Keeps "failed" reason a refl start c h))

pub shutdown-Keeps : Keeps shutdown
unfolding shutdown
shutdown-Keeps start c h = elim (Bool-cases c.closed) [ inl e ↦ rw e h | inr e ↦ rw e h ]

pub list-Keeps : (now : ℕ) (w : String) → Keeps (λ c. (list now w c).0)
unfolding list
list-Keeps now w start c h = clean_locked-Keeps now start c h

pub receive-Keeps : (now : ℕ) (id : String) (m : Message) → Keeps (receive now id m)
unfolding receive
receive-Keeps now id started start c h = h
receive-Keeps now id stopped start c h = handle_stopped-Keeps id start c h
receive-Keeps now id (process payload) start c h = elim (Bool-cases (payload == "panic")) [
  | inl e ↦
      rw e (record_failure-Keeps id "panic: intentional actor panic for supervision test" start c h)
  | inr e ↦ rw e (
      record_result-Keeps now
        (observation id payload (String.◌++◌ "evidence://" id ∷ []) ("no_op" ∷ []) now c) start c h)
]
receive-Keeps now id (plain payload) start c h = elim (Bool-cases (payload == "panic")) [
  | inl e ↦ rw e h
  | inr e ↦ rw e (record_result-Keeps now (observation id payload [] [] now c) start c h)
]
