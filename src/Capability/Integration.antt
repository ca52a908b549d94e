-- ===== src/Capability/Integration.antt =====
-- internal/capability/progress_integration.go: the manager's executions as tasks of the registry.
pub mod Finish
use cann_o_call.Prelude.{
  ℕ, String, Bool, true, false, ◌||◌, List, [], ◌∷◌, Option, none, some, ◌==◌, if◌then◌else◌,
}
use cann_o_call.Prelude.Assoc.{find, put}
use cann_o_call.Progress
use cann_o_call.Progress.Registry
use cann_o_call.Progress.Registry.{create, transition, set_phase, mark_abandoned}
use cann_o_call.Progress.{
  status_running, status_complete, status_failed, status_rejected, phase_terminal,
}
use cann_o_call.Capability.{CapabilityError, CapabilityResult, Request, Registry}
use cann_o_call.Capability.Manager.{
  World, execute, result_completed, result_failed, result_rejected,
}

-- The elapsed time, which is the difference of the two times, is left out.
pub record TaskRecord : Type 0 where
  pub task_id : String
  pub capability_id : String
  pub request_id : String
  pub actor_id : String
  pub status : String
  pub started_at : ℕ
  pub finished_at : ℕ

pub record ProgressIntegration : Type 0 where
  pub records : List (String × TaskRecord)
  pub registry : Registry.Registry

new_record : ℕ → Request → String → TaskRecord
new_record now req status = record {
  task_id = req.request_id;
  capability_id = req.capability_id;
  request_id = req.request_id;
  actor_id = req.actor_id;
  status = status;
  started_at = now;
  finished_at = 0;
}

-- `Begin`; the errors of the registry are dropped. `random` is what `RandomTaskID` returns.
unfoldable pub begin : ℕ → String → ProgressIntegration → Request → ProgressIntegration
unfolding new_record put create transition
begin now random p req =
    let made = (create now random p.registry req.request_id "capability" "request_accepted").0 in
    record {
      records = put req.request_id (new_record now req "pending") p.records;
      registry = (transition now made req.request_id status_running).0;
    }

-- The status of the record and of the task for what an execution returned.
unfoldable pub final_status : CapabilityResult → Option CapabilityError → String × String
final_status res e =
    if res.status == result_completed
    then ("completed", status_complete)
    else (if res.status == result_failed
        then ("failed", status_failed)
        else (if res.status == result_rejected then ("rejected", status_rejected) else (elim e [
          | none ↦ ("completed", status_complete)
          | some x ↦ ("failed", status_failed)
        ])))

record_of : ℕ → Request → Option TaskRecord → TaskRecord
unfolding new_record
record_of now req none = new_record now req ""
record_of now req (some r) = r

-- `Complete`
unfoldable pub complete :
    ℕ
    → ProgressIntegration
    → Request
    → CapabilityResult
    → Option CapabilityError
    → ProgressIntegration
unfolding record_of find put final_status transition set_phase
complete now p req res e =
    let (recorded, status) = final_status res e in
    let r = record_of now req (find req.request_id p.records) in
    let moved = (transition now p.registry req.request_id status).0 in
    record {
      records = put req.request_id (record r { status = recorded; finished_at = now }) p.records;
      registry = (set_phase now moved req.request_id phase_terminal).0;
    }

abandon_record : ℕ → TaskRecord → TaskRecord
abandon_record now r =
    if r.status == "pending" || r.status == "running"
    then record r { status = "failed"; finished_at = now }
    else r

abandon_records : ℕ → List (String × TaskRecord) → List (String × TaskRecord)
unfolding abandon_record
abandon_records now [] = []
abandon_records now ((k, r) ∷ m) = (k, abandon_record now r) ∷ abandon_records now m

-- `OnRestart`
pub on_restart : ℕ → ProgressIntegration → ProgressIntegration
unfolding abandon_records mark_abandoned
on_restart now p = record {
  records = abandon_records now p.records;
  registry = mark_abandoned now p.registry;
}

-- `ExecuteWithProgress`; the clock reads `w.start` at the beginning and `w.finish` at the end. No lock
-- is held between `Begin` and `Complete`: `between` is what other calls make of the tasks meanwhile.
unfoldable pub execute_with_progress :
    (String → Bool)
    → (ProgressIntegration → ProgressIntegration)
    → World
    → String
    → Registry
    → ProgressIntegration
    → Request
    → ProgressIntegration × CapabilityResult × Option CapabilityError
unfolding begin complete execute
execute_with_progress is_json between w random r p req =
    let started = between (begin w.start random p req) in
    let (res, e) = execute is_json w r req in (complete w.finish started req res e, res, e)
