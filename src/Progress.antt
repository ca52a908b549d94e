-- ===== src/Progress.antt =====
-- internal/progress/packet.go and internal/progress/task.go: the progress packet, the statuses of a task
-- and the changes of one task.
pub mod Registry
pub mod Cases
pub mod Bounds
pub mod Validity
pub mod Lifecycle
pub mod Terminal
pub mod Eviction
pub mod Creation
pub mod Moves
mod Examples
use cann_o_call.Prelude.{
  ℕ, zero, suc, ◌-◌, String, Bool, true, false, not, ◌&&◌, ◌||◌, List, [], ◌∷◌, ◌++◌, Option, none,
  some, ◌==◌, ltb, leb, nat_eq, length, if◌then◌else◌,
}
use cann_o_call.Prelude.Trim.{trim_space}
use cann_o_call.Prelude.Int64.{ℤ, pos, ltb_ℤ}
use cann_o_call.Prelude.Result.{Result, ok, err, ◌>>=◌, ◌>>◌, guard}

-- `Operation`, `Phase` and `TaskStatus` are texts.
abbrev pub status_pending : String
status_pending = "pending"

abbrev pub status_running : String
status_running = "running"

abbrev pub status_paused : String
status_paused = "paused"

abbrev pub status_complete : String
status_complete = "complete"

abbrev pub status_failed : String
status_failed = "failed"

abbrev pub status_rejected : String
status_rejected = "rejected"

abbrev pub phase_terminal : String
phase_terminal = "terminal"

abbrev pub phase_pending : String
phase_pending = "pending"

abbrev pub phase_running : String
phase_running = "running"

unfoldable pub is_terminal : String → Bool
is_terminal s = s == status_complete || s == status_failed || s == status_rejected

-- Instants are counted from the zero `time.Time`. The metrics, the throughput and the ETA are left
-- out: they are floating-point numbers or counters that no operation of a task or a registry reads.
pub record ProgressPacket : Type 0 where
  pub task_id : String
  pub operation : String
  pub phase : String
  pub status : String
  pub completed : Option ℤ
  pub total : Option ℤ
  pub started_at : ℕ
  pub updated_at : ℕ
  pub warnings : List String
  pub errors : List String

pub record Task : Type 0 where
  pub packet : ProgressPacket
  pub created_at : ℕ

abbrev pub is_blank : String → Bool
is_blank s = trim_space s == ""

unfoldable pub is_known : String → Bool
is_known s =
    s == status_pending
    || s == status_running
    || s == status_paused
    || s == status_complete
    || s == status_failed
    || s == status_rejected

-- `p != nil && *p < 0`
unfoldable pub is_negative : Option ℤ → Bool
is_negative none = false
is_negative (some x) = ltb_ℤ x (pos 0)

-- `Completed != nil && Total != nil && *Completed > *Total`
unfoldable pub exceeds : Option ℤ → Option ℤ → Bool
exceeds (some x) (some y) = ltb_ℤ y x
exceeds _ _ = false

-- The table `validTransitions`.
valid_transitions : String → String → Bool
valid_transitions from to =
    if from == status_pending
    then to == status_running || to == status_failed || to == status_rejected
    else (if from == status_running
        then to == status_complete || to == status_failed || to == status_rejected
        else false)

unfoldable pub is_valid_transition : String → String → Bool
unfolding valid_transitions
is_valid_transition from to =
    if to == status_paused then false else (if from == to then true else valid_transitions from to)

-- The errors of a task and of the registry; all have the code `invalid_input`.
pub data TaskError : Type 0 where
  operation_missing id_conflict not_found pause_unsupported terminal_status invalid_transition :
      TaskError

unfoldable pub validate_transition : String → String → Result TaskError (Unit {0})
unfolding is_valid_transition is_terminal
validate_transition from to = do
  guard (not (to == status_paused)) pause_unsupported
  guard (not (is_terminal from)) terminal_status
  guard (is_valid_transition from to) invalid_transition

drop_first : ℕ → List String → List String
drop_first zero l = l
drop_first (suc n) [] = []
drop_first (suc n) (x ∷ l) = drop_first n l

-- `boundedCopy`
unfoldable pub bounded_copy : List String → ℕ → List String
unfolding drop_first
bounded_copy l max = if leb (length l) max then l else drop_first (length l - max) l

drop_oldest : List String → List String
drop_oldest [] = []
drop_oldest (x ∷ l) = l

unfoldable pub push_bounded : List String → String → List String
unfolding drop_oldest
push_bounded l msg = if leb 10 (length l) then drop_oldest l ++ msg ∷ [] else l ++ msg ∷ []

-- `AddWarning` of a task; the first argument of each change is what the clock reads.
pub add_warning : ℕ → String → ProgressPacket → ProgressPacket
unfolding push_bounded
add_warning now msg p =
    let text = trim_space msg in
    if text == "" then p else record p { warnings = push_bounded p.warnings text; updated_at = now }

-- `AddError` of a task
pub add_error : ℕ → String → ProgressPacket → ProgressPacket
unfolding push_bounded
add_error now msg p =
    let text = trim_space msg in
    if text == "" then p else record p { errors = push_bounded p.errors text; updated_at = now }

-- `SetPhase` of a task
pub set_phase : ℕ → String → ProgressPacket → ProgressPacket
set_phase now phase p = record p { phase = phase; updated_at = now }

-- `SetProgress` of a task
pub set_progress : ℕ → Option ℤ → Option ℤ → ProgressPacket → ProgressPacket
set_progress now completed total p = record p {
  completed = completed;
  total = total;
  updated_at = now;
}
