-- ===== src/Progress/Registry.antt =====
-- internal/progress/registry.go: the registry of the live tasks.
use Prim.Native.String
use cann_o_call.Prelude.{
  ℕ, zero, suc, ◌-◌, String, Bool, not, ◌&&◌, ◌||◌, List, [], ◌∷◌, ◌++◌, Option, none, some, ◌==◌,
  ltb, leb, nat_eq, length, if◌then◌else◌,
}
use cann_o_call.Prelude.Assoc.{find, put, remove}
use cann_o_call.Prelude.Int64.{ℤ, pos}
use cann_o_call.Prelude.Result.{Result, ok, err, ◌>>◌}
use cann_o_call.Prelude.Sort.{sort}
use cann_o_call.Prelude.Text.{str_lt}
use cann_o_call.Prelude.Trim.{trim_space}
use cann_o_call.Progress
use cann_o_call.Progress.{
  ProgressPacket, Task, TaskError, operation_missing, id_conflict, not_found, status_pending,
  status_running, status_failed, phase_terminal, phase_pending, phase_running, is_terminal,
  is_blank, validate_transition, bounded_copy,
}

-- The map is the list of its entries.
pub record Registry : Type 0 where
  pub tasks : List (String × Task)
  pub max_size : ℕ

abbrev pub max_warnings : ℕ
max_warnings = 10

abbrev pub max_errors : ℕ
max_errors = 10

-- `NewRegistry`
unfoldable pub new_registry : ℤ → Registry
new_registry (pos (suc n)) = record { tasks = []; max_size = suc n }
new_registry _ = record { tasks = []; max_size = 128 }

-- What is collected of a terminal task: its key, and when it changed.
abbrev pub Entry : Type 0
Entry = String × ℕ

unfoldable pub older : Entry → Entry → Bool
older (i, t) (j, u) = if nat_eq t u then str_lt i j else ltb t u

unfoldable pub terminals : List (String × Task) → List Entry
terminals [] = []
terminals ((k, t) ∷ m) =
    let rest = terminals m in
    if is_terminal t.packet.status then (k, t.packet.updated_at) ∷ rest else rest

-- The loop that deletes the first `need` entries.
unfoldable pub evict : ℕ → List Entry → List (String × Task) → List (String × Task)
unfolding remove
evict zero es m = m
evict (suc n) [] m = m
evict (suc n) ((k, t) ∷ es) m = evict n es (remove k m)

-- `evictIfNeededLocked`
unfoldable pub evict_if_needed : Registry → Registry
unfolding terminals evict sort older
evict_if_needed r = if leb (length r.tasks) r.max_size then r else record r {
  tasks = evict (length r.tasks - r.max_size) (sort older (λ e. e) (terminals r.tasks)) r.tasks;
}

unfoldable pub new_task : ℕ → String → String → String → Task
new_task now id op phase = record {
  packet = record {
    task_id = id;
    operation = op;
    phase = phase;
    status = status_pending;
    completed = none;
    total = none;
    started_at = now;
    updated_at = now;
    warnings = [];
    errors = [];
  };
  created_at = now;
}

unfoldable pub insert_task :
    ℕ → String → String → String → Registry → Registry × Result TaskError Task
unfolding evict_if_needed new_task put
insert_task now id op phase r =
    let t = new_task now id op phase in
    (evict_if_needed (record r { tasks = put id t r.tasks }), ok t)

unfoldable pub existing_task : String → Task → Registry → Registry × Result TaskError Task
existing_task op t r = if not (t.packet.operation == op) then (r, err id_conflict) else (r, ok t)

-- `Create`. `now` is what the clock reads, and `random` what `RandomTaskID` returns.
unfoldable pub create :
    ℕ → String → Registry → String → String → String → Registry × Result TaskError Task
unfolding insert_task existing_task find
create now random r id op phase =
    if is_blank op
    then (r, err operation_missing)
    else (let task_id = if is_blank id then random else id in
        elim (find task_id r.tasks) [
          | none ↦ insert_task now task_id op phase r
          | some t ↦ existing_task op t r
        ])

-- `DeterministicTaskID`, given the SHA-256 sum in hexadecimal.
deterministic_task_id : (String → String) → String → String → String → String
deterministic_task_id sha256_hex op workspace_id key = sha256_hex (
    String.◌++◌ op (
      String.◌++◌ "\0" (String.◌++◌ (trim_space workspace_id) (String.◌++◌ "\0" (trim_space key)))))

create_deterministic :
    (String → String)
    → ℕ
    → String
    → Registry
    → String
    → String
    → String
    → String
    → Registry × Result TaskError Task
unfolding deterministic_task_id create
create_deterministic sha256_hex now random r op workspace_id key phase =
    create now random r (deterministic_task_id sha256_hex op workspace_id key) op phase

-- `Get`
unfoldable pub get : Registry → String → Option Task
unfolding find
get r id = find id r.tasks

started_before : Entry → Entry → Bool
started_before (i, t) (j, u) = if nat_eq t u then str_lt i j else ltb t u

values : List (String × Task) → List Task
values [] = []
values ((k, t) ∷ m) = t ∷ values m

-- `List`
list : Registry → List Task
unfolding values sort started_before
list r = sort started_before (λ t. (t.packet.task_id, t.packet.started_at)) (values r.tasks)

-- A change of the packet that the key names.
unfoldable pub change :
    Registry
    → String
    → (ProgressPacket → Result TaskError ProgressPacket)
    → Registry × Option TaskError
unfolding find put
change r id f = elim (find id r.tasks) [
  | none ↦ (r, some not_found)
  | some t ↦ elim (f t.packet) [
    | err e ↦ (r, some e)
    | ok p ↦ (record r { tasks = put id (record t { packet = p }) r.tasks }, none)
  ]
]

-- The bounds that `Update` puts on what the caller's function leaves.
unfoldable pub enforce : ℕ → ProgressPacket → ProgressPacket
unfolding bounded_copy
enforce now p = record p {
  warnings =
      if ltb max_warnings (length p.warnings)
      then bounded_copy p.warnings max_warnings
      else p.warnings;
  errors = if ltb max_errors (length p.errors) then bounded_copy p.errors max_errors else p.errors;
  updated_at = if nat_eq p.updated_at 0 then now else p.updated_at;
}

-- `Update`, with a function that is not nil
unfoldable pub update :
    ℕ → Registry → String → (ProgressPacket → ProgressPacket) → Registry × Option TaskError
unfolding change enforce
update now r id f = change r id (λ p. ok (enforce now (f p)))

-- The change of the status, and the phase that follows it.
unfoldable pub move : ℕ → String → ProgressPacket → Result TaskError ProgressPacket
unfolding validate_transition is_terminal
move now to p = do
  validate_transition p.status to
  let phase = if to == status_running && p.phase == phase_pending then phase_running else p.phase
  ok (record p {
    status = to;
    updated_at = now;
    phase = if is_terminal to then phase_terminal else phase;
  })

-- `Transition`
unfoldable pub transition : ℕ → Registry → String → String → Registry × Option TaskError
unfolding change move
transition now r id to = change r id (move now to)

-- `SetPhase`
unfoldable pub set_phase : ℕ → Registry → String → String → Registry × Option TaskError
unfolding update Progress.set_phase
set_phase now r id phase = update now r id (Progress.set_phase now phase)

-- `AddWarning`
unfoldable pub add_warning : ℕ → Registry → String → String → Registry × Option TaskError
unfolding change Progress.add_warning bounded_copy
add_warning now r id msg = change r id (λ p.
    let q = Progress.add_warning now msg p in
    ok (record q {
      warnings =
          if ltb max_warnings (length q.warnings)
          then bounded_copy q.warnings max_warnings
          else q.warnings;
    }))

-- `AddError`
unfoldable pub add_error : ℕ → Registry → String → String → Registry × Option TaskError
unfolding change Progress.add_error bounded_copy
add_error now r id msg = change r id (λ p.
    let q = Progress.add_error now msg p in
    ok (record q {
      errors =
          if ltb max_errors (length q.errors) then bounded_copy q.errors max_errors else q.errors;
    }))

-- `SetProgress`
unfoldable pub set_progress :
    ℕ → Registry → String → Option ℤ → Option ℤ → Registry × Option TaskError
unfolding change Progress.set_progress
set_progress now r id completed total =
    change r id (λ p. ok (Progress.set_progress now completed total p))

-- `Delete`
unfoldable pub delete : Registry → String → Registry
unfolding remove
delete r id = record r { tasks = remove id r.tasks }

-- `Count`
unfoldable pub count : Registry → ℕ
count r = length r.tasks

abbrev pub abandoned : String
abandoned =
    "abandoned: transient in-flight progress does not survive restart; canonical state derives from durable history"

unfoldable pub abandon : ℕ → Task → Task
abandon now t =
    if t.packet.status == status_pending || t.packet.status == status_running
    then record t {
      packet = record t.packet {
        status = status_failed;
        phase = phase_terminal;
        updated_at = now;
        errors =
            if ltb (length t.packet.errors) max_errors
            then t.packet.errors ++ abandoned ∷ []
            else t.packet.errors;
      };
    }
    else t

unfoldable pub abandon_all : ℕ → List (String × Task) → List (String × Task)
unfolding abandon
abandon_all now [] = []
abandon_all now ((k, t) ∷ m) = (k, abandon now t) ∷ abandon_all now m

-- `MarkAbandoned`
unfoldable pub mark_abandoned : ℕ → Registry → Registry
unfolding abandon_all
mark_abandoned now r = record r { tasks = abandon_all now r.tasks }
