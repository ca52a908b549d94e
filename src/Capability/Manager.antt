-- ===== src/Capability/Manager.antt =====
-- internal/capability/manager.go: validation, execution, and the proposal of a result.
pub mod Guard
pub mod Ids
use Prim.Native.String.{◌++◌, len, slice}
use cann_o_call.Prelude.{
  ℕ, String, Bool, true, false, not, ◌||◌, List, [], ◌∷◌, Option, none, some, ◌==◌, ltb, nat_eq,
  if◌then◌else◌,
}
use cann_o_call.Prelude.Int64.{ℤ, pos, ltb_ℤ}
use cann_o_call.Prelude.Result.{Result, ok, err, ◌>>=◌, ◌>>◌, guard}
use cann_o_call.EventLog.{Event}
use cann_o_call.Transition
use cann_o_call.Transition.{Stop, StateRef, ProposedTransition, AcceptedTransition, Authority, ref}
use cann_o_call.Transition.Encode.{clone_projection}
use cann_o_call.Transition.Propose.{Policy, propose}
use cann_o_call.Capability.{
  CapabilityError, capability_disabled, capability_denied, invalid_input, timeout, resource_limit,
  execution_failed, durable_recorder_unavailable, executor_error, propose_failed, Descriptor,
  Request, CapabilityResult, Execution, finished, deadline_exceeded, cancelled, Executor, Registry,
  tier_read, is_blank, validate_fields, get, get_descriptor,
}

abbrev pub result_completed : String
result_completed = "completed"

abbrev pub result_failed : String
result_failed = "failed"

abbrev pub result_rejected : String
result_rejected = "rejected"

-- What the clock reads at the start and at the end of an execution.
pub record World : Type 0 where
  pub start : ℕ
  pub finish : ℕ

-- `len(b) > bound`
abbrev pub exceeds : String → ℤ → Bool
exceeds b bound = ltb_ℤ bound (pos (len b))

module _ (is_json : String → Bool) where
  unfoldable pub validate_request : Registry → Request → Result CapabilityError (Unit {0})
  unfolding validate_fields get_descriptor
  validate_request r req = do
    validate_fields is_json req
    desc ← get_descriptor r req.capability_id
    guard desc.enabled capability_disabled
    guard (not (exceeds req.inputs desc.resource_bounds.max_input_bytes)) resource_limit

-- A result of the manager's own, with the request's ids.
abbrev pub report : World → Request → String → List String → CapabilityResult
report w req status errors = record {
  request_id = req.request_id;
  capability_id = req.capability_id;
  status = status;
  outputs = "";
  evidence_refs = [];
  started_at = w.start;
  finished_at = w.finish;
  warnings = [];
  errors = errors;
  proposed_transition = "";
}

lift : Option String → Option CapabilityError
lift none = none
lift (some e) = some (executor_error e)

default_status : Option String → String
default_status none = result_completed
default_status (some e) = result_failed

-- The times and the status that an executor left out.
complete_result : World → CapabilityResult → Option String → CapabilityResult
unfolding default_status
complete_result w res e = record res {
  started_at = if nat_eq res.started_at 0 then w.start else res.started_at;
  finished_at = if nat_eq res.finished_at 0 then w.finish else res.finished_at;
  status = if res.status == "" then default_status e else res.status;
}

run : World → Request → Descriptor → Execution → CapabilityResult × Option CapabilityError
unfolding complete_result lift
run w req desc deadline_exceeded =
    (report w req result_failed ("timeout: descriptor timeout exceeded" ∷ []), some timeout)
run w req desc cancelled = (report w req result_failed ("cancelled" ∷ []), some execution_failed)
run w req desc (finished res e) =
    if exceeds res.outputs desc.resource_bounds.max_output_bytes
    then (
      report w req result_failed ("resource_limit: output exceeds bound" ∷ []),
      some resource_limit,
    )
    else (complete_result w res e, lift e)

module _ (is_json : String → Bool) where
  admitted : Registry → Request → Result CapabilityError Executor
  unfolding validate_request get
  admitted r req = do validate_request is_json r req; get r req.capability_id

  start_run :
      World → Request → Result CapabilityError Executor → CapabilityResult × Option CapabilityError
  unfolding run
  start_run w req (err e) = (report w req result_rejected [], some e)
  start_run w req (ok x) = run w req x.describe (x.execute req)

  -- `Execute`
  unfoldable pub execute : World → Registry → Request → CapabilityResult × Option CapabilityError
  unfolding admitted start_run
  execute w r req = start_run w req (admitted r req)

-- `fmt.Sprintf("cap-%s-%s", …)`, cut to 64 bytes; a character that the cut splits is dropped.
unfoldable pub transition_id_of : String → String → String
transition_id_of capability_id request_id =
    let id = "cap-" ++ capability_id ++ "-" ++ request_id in
    if ltb 64 (len id) then slice id 0 64 else id

-- `if len(a) == 0 { a = b }`
abbrev pub or_else : String → String → String
or_else a b = if a == "" then b else a

unfoldable pub build_proposed_transition :
    Request → CapabilityResult → String → String → String → StateRef → String → ProposedTransition
unfolding transition_id_of
build_proposed_transition req res operation entity node prior result_data = record {
  transition_id = transition_id_of req.capability_id req.request_id;
  proposal_id = "proposal-" ++ req.request_id;
  request_id = req.request_id;
  prior = prior;
  operation = operation;
  entity = entity;
  node = node;
  result_data = or_else (or_else result_data res.outputs) "{}";
  admission_data = "{}";
}

-- `if strings.TrimSpace(a) == "" { a = b }`
abbrev pub or_blank : String → String → String
or_blank a b = if is_blank a then b else a

-- The guards between the execution and the proposal.
unfoldable pub may_mutate :
    Registry
    → Request
    → CapabilityResult × Option CapabilityError
    → Result CapabilityError (Unit {0})
unfolding get_descriptor
may_mutate r req (res, some e) = err e
may_mutate r req (res, none) = do
  guard (res.status == result_completed) execution_failed
  desc ← get_descriptor r req.capability_id
  guard (not (desc.tier == tier_read)) capability_denied
  guard desc.mutating capability_denied

unfoldable pub proposal_of :
    Request → CapabilityResult → Authority → String → String → String → String → ProposedTransition
unfolding build_proposed_transition
proposal_of req res a operation entity node override =
    build_proposed_transition req res (or_blank operation "upsert")
      (or_blank entity req.workspace_id) (or_blank node req.capability_id)
      (ref (clone_projection a.state)) (or_else (or_else override res.outputs) "{}")

module _ (codec : Transition.Codec) (is_json : String → Bool) {L : Type 0}
    (append : L → Event → L × Option Event) (pol : Policy) where
  -- The authority's answer, as the manager returns it.
  answered :
      L × Authority × Result Stop AcceptedTransition
      → L × Authority × Result CapabilityError AcceptedTransition
  answered (log, a, err e) = (log, a, err (propose_failed e))
  answered (log, a, ok accepted) = (log, a, ok accepted)

  propose_result :
      L
      → Authority
      → Result CapabilityError (Unit {0})
      → ProposedTransition
      → L × Authority × Result CapabilityError AcceptedTransition
  unfolding answered propose
  propose_result log a (err e) p = (log, a, err e)
  propose_result log a (ok u) p =
      if is_json p.result_data
      then answered (propose codec append pol log a p)
      else (log, a, err invalid_input)

  -- `ExecuteMutating`, of a manager with an authority. The result of the execution comes first.
  unfoldable pub execute_mutating :
      World
      → Registry
      → L
      → Authority
      → Request
      → String
      → String
      → String
      → String
      → CapabilityResult × L × Authority × Result CapabilityError AcceptedTransition
  unfolding execute may_mutate propose_result proposal_of
  execute_mutating w r log a req operation entity node override =
      let out = execute is_json w r req in
      let (log', a', answer) =
        propose_result log a (may_mutate r req out)
          (proposal_of req out.0 a operation entity node override) in
      (out.0, log', a', answer)
