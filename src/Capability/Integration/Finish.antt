-- ===== src/Capability/Integration/Finish.antt =====
-- The task of an execution ends.
use cann_o_call.Prelude.Maps.{false→ne}
use cann_o_call.Prelude.{
  ◌≢◌, eq→path, Option-cases, ℕ, ◌≡◌, refl, sym, ◌∙◌, subst, String, Bool, true, false, Option,
  none, some, ◌==◌, arith, inl, inr, Bool-cases,
}
use cann_o_call.Prelude.Int64.{ℤ}
use cann_o_call.Prelude.Result.{ok}
use cann_o_call.Prelude.Trim.{trim_space}
use cann_o_call.Progress.{Task, is_terminal, is_blank, status_running, phase_terminal}
use cann_o_call.Progress.Registry
use cann_o_call.Progress.Registry.{
  new_registry, get, create, insert_task, existing_task, new_task, change, move, transition,
  set_phase, update, enforce,
}
use cann_o_call.Progress.Lifecycle.{Reachable}
use cann_o_call.Progress.Moves.{transition-starts, transition-ends, set_phase-get}
use cann_o_call.Progress.Creation.{create-get}
use cann_o_call.Capability.{CapabilityError, CapabilityResult, Request, Registry}
use cann_o_call.Capability.Manager.{
  World, execute, result_completed, result_failed, result_rejected,
}
use cann_o_call.Capability.Integration.{
  ProgressIntegration, begin, complete, final_status, execute_with_progress,
}

create-ok :
    (now : ℕ) (random : String) (r : Registry.Registry) (id : String)
    → is_blank id ≡ false
    → get r id ≡ none
    → (create now random r id "capability" "request_accepted").1
      ≡ ok (new_task now id "capability" "request_accepted")
unfolding create insert_task get trim_space
create-ok now random r id named absent = ground (arith, named, absent)

-- How a result ends its task, in the texts of the two packages.
pub data Ends (res : CapabilityResult) (e : Option CapabilityError) (status : String) : Type 0 where
  completed : res.status ≡ "completed" → status ≡ "complete" → Ends res e status
  failed : res.status ≡ "failed" → status ≡ "failed" → Ends res e status
  rejected : res.status ≡ "rejected" → status ≡ "rejected" → Ends res e status
  -- Another status, which only a present error tells from success.
  other :
      res.status ≢ "completed"
      → res.status ≢ "failed"
      → res.status ≢ "rejected"
      → (x : CapabilityError) → e ≡ some x
      → status ≡ "failed"
      → Ends res e status
  silent :
      res.status ≢ "completed"
      → res.status ≢ "failed"
      → res.status ≢ "rejected"
      → e ≡ none
      → status ≡ "complete"
      → Ends res e status

final_status-Ends :
    (res : CapabilityResult) (e : Option CapabilityError)
    → Ends res e (final_status res e).1 × (is_terminal (final_status res e).1 ≡ true)
unfolding final_status is_terminal
final_status-Ends res e = elim (Bool-cases (res.status == result_completed)) [
  | inl a ↦ rw a (completed (eq→path res.status "completed" a) refl, refl)
  | inr a ↦ elim (Bool-cases (res.status == result_failed)) [
    | inl b ↦ rw (a, b) (failed (eq→path res.status "failed" b) refl, refl)
    | inr b ↦ elim (Bool-cases (res.status == result_rejected)) [
      | inl c ↦ rw (a, b, c) (rejected (eq→path res.status "rejected" c) refl, refl)
      | inr c ↦
          let x = false→ne res.status "completed" a in
          let y = false→ne res.status "failed" b in
          let z = false→ne res.status "rejected" c in
          elim (Option-cases e) [
            | inl n ↦ rw (a, b, c, n) (silent x y z refl refl, refl)
            | inr (err, n) ↦ rw (a, b, c, n) (other x y z err refl refl, refl)
          ]
    ]
  ]
]

begin-Running :
    (max : ℤ) (now : ℕ) (random : String) (p : ProgressIntegration) (req : Request)
    → Reachable (new_registry max) p.registry
    → is_blank req.request_id ≡ false
    → get p.registry req.request_id ≡ none
    → (t : Task) × (get (begin now random p req).registry req.request_id ≡ some t)
      × (t.packet.status ≡ status_running)
unfolding begin new_task
begin-Running max now random p req path named absent =
    let id = req.request_id in
    let made = (create now random p.registry id "capability" "request_accepted").0 in
    let t = new_task now id "capability" "request_accepted" in
    let stored =
      create-get max p.registry now random id "capability" "request_accepted" t path
        (create-ok now random p.registry id named absent) in
    transition-starts now made id t stored refl

-- If a request has an id that is not blank and names no task of a registry that the calls of
-- `Step` reach, and the calls between `Begin` and `Complete` leave the task of that id as `Begin`
-- left it, then after `ExecuteWithProgress` that task is stored and terminal: complete for a
-- result that is completed, failed for one that failed, rejected for one that is rejected, and for
-- any other failed or complete as there is an error or none. The calls of `Step` are all those
-- that change the registry, where the clock is past the zero time, random ids are not blank, the
-- counts of `SetProgress` are in order, and the function that `Update` is given leaves the id and
-- the status alone and the other fields in order.
pub execute_with_progress-Ends :
    (is_json : String → Bool) (between : ProgressIntegration → ProgressIntegration) (w : World)
    (random : String) (r : Registry) (p : ProgressIntegration) (req : Request) (max : ℤ)
    → Reachable (new_registry max) p.registry
    → is_blank req.request_id ≡ false
    → get p.registry req.request_id ≡ none
    → get (between (begin w.start random p req)).registry req.request_id
      ≡ get (begin w.start random p req).registry req.request_id
    → let done = execute_with_progress is_json between w random r p req in
      (t : Task) × (get done.0.registry req.request_id ≡ some t)
      × Ends done.1 done.2 t.packet.status
      × (is_terminal t.packet.status ≡ true)
unfolding execute_with_progress complete
execute_with_progress-Ends is_json between w random r p req max path named absent left =
    let (res, e) = execute is_json w r req in
    let started = between (begin w.start random p req) in
    let status = (final_status res e).1 in
    let (ends, final) = final_status-Ends res e in
    let (t, found, running) = begin-Running max w.start random p req path named absent in
    let (u, ended, at_end) =
      transition-ends w.finish started.registry req.request_id status t (left ∙ found) running
        final in
    let moved = (transition w.finish started.registry req.request_id status).0 in
    let (x, kept, same) = set_phase-get w.finish moved req.request_id phase_terminal u ended in
    let reached = same ∙ at_end in
    (
      x,
      kept,
      subst (Ends res e) (sym reached) ends,
      subst (λ s. is_terminal s ≡ true) (sym reached) final,
    )
