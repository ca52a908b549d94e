-- ===== src/Progress/Bounds.antt =====
-- The bounds of a packet, which a new task satisfies and a change of the status keeps.
pub mod Changes
use cann_o_call.Prelude.{
  ℕ, zero, suc, ◌-◌, ◌≤◌, ◌≡◌, ◌≢◌, refl, sym, ap, subst, String, true, false, ◌&&◌, ◌||◌, List, [],
  ◌∷◌, ◌++◌, Option, ◌==◌, ltb, length, if◌then◌else◌, arith, inl, inr, Bool-cases, eq→path,
  length-append,
}
use cann_o_call.Prelude.Int64.{ℤ}
use cann_o_call.Prelude.Result.{ok, Result-cases}
use cann_o_call.Prelude.Trim.{trim_space}
use cann_o_call.Progress
use cann_o_call.Progress.{
  phase_terminal, phase_pending, phase_running, status_pending, status_running, status_paused,
  status_complete, status_failed, status_rejected, drop_oldest, ProgressPacket, Task, TaskError,
  is_known, is_negative, exceeds, is_terminal, is_blank, bounded_copy, drop_first, push_bounded,
  validate_transition, is_valid_transition, valid_transitions,
}
use cann_o_call.Progress.Registry.{new_task, enforce, move, abandon, abandoned}

-- What holds of every packet that the calls of the registry's machine leave behind.
pub record InBounds (p : ProgressPacket) : Type 0 where
  pub named : is_blank p.task_id ≡ false
  pub operated : is_blank p.operation ≡ false
  pub known : is_known p.status ≡ true
  pub unpaused : (p.status == status_paused) ≡ false
  pub started : p.started_at ≢ 0
  pub updated : p.updated_at ≢ 0
  pub completed_ok : is_negative p.completed ≡ false
  pub total_ok : is_negative p.total ≡ false
  pub ratio : exceeds p.completed p.total ≡ false
  pub few_warnings : length p.warnings ≤ 10
  pub few_errors : length p.errors ≤ 10

-- The change of a packet that keeps it in bounds and does not rename it.
abbrev pub Kept : ProgressPacket → ProgressPacket → Type 0
Kept p q = InBounds q × (q.task_id ≡ p.task_id)

length-drop_first : (n : ℕ) (l : List String) → length (drop_first n l) ≡ length l - n
unfolding drop_first
length-drop_first zero l = omega arith
length-drop_first (suc n) [] = omega arith
length-drop_first (suc n) (x ∷ l) = omega (arith, length-drop_first n l)

pub length-bounded_copy : (l : List String) (max : ℕ) → length (bounded_copy l max) ≤ max
unfolding bounded_copy
length-bounded_copy l max = ground (arith, length-drop_first (length l - max) l)

pub length-push_bounded :
    (l : List String) (x : String) → length l ≤ 10 → length (push_bounded l x) ≤ 10
unfolding push_bounded drop_oldest
length-push_bounded [] x h = omega arith
length-push_bounded (y ∷ l) x h =
    ground (arith, length-append l (x ∷ []), length-append (y ∷ l) (x ∷ []))

pub new_task-InBounds :
    (now : ℕ) (id op phase : String)
    → now ≢ 0
    → is_blank id ≡ false
    → is_blank op ≡ false
    → InBounds (new_task now id op phase).packet × ((new_task now id op phase).packet.task_id ≡ id)
unfolding new_task is_known is_negative exceeds
new_task-InBounds now id op phase n i o = (
  record {
    named = i;
    operated = o;
    known = refl;
    unpaused = refl;
    started = n;
    updated = n;
    completed_ok = refl;
    total_ok = refl;
    ratio = refl;
    few_warnings = omega arith;
    few_errors = omega arith;
  },
  refl,
)

validate_transition-known :
    (from to : String)
    → is_known from ≡ true
    → validate_transition from to ≡ ok tt
    → is_known to ≡ true
unfolding validate_transition is_valid_transition valid_transitions is_known
validate_transition-known from to k h = elim (Bool-cases (from == to)) [
  | inl e ↦ subst (λ s. is_known s ≡ true) (eq→path from to e) k
  | inr e ↦ ground (arith, h, e)
]

validate_transition-unpaused :
    (from to : String) → validate_transition from to ≡ ok tt → (to == status_paused) ≡ false
unfolding validate_transition
validate_transition-unpaused from to h = ground (arith, h)

pub move-InBounds :
    (now : ℕ) (to : String) (p q : ProgressPacket)
    → now ≢ 0
    → InBounds p
    → move now to p ≡ ok q
    → Kept p q
unfolding move
move-InBounds now to p q n b h = elim (Result-cases (validate_transition p.status to)) [
  | inl (e, f) ↦ absurd (ground (arith, h, f))
  | inr (u, f) ↦
      let known = validate_transition-known p.status to b.known f in
      let phase : String =
        if is_terminal to
        then phase_terminal
        else (if to == status_running && p.phase == phase_pending
            then phase_running
            else p.phase) in
      let same : record p { status = to; updated_at = now; phase = phase } ≡ q =
        ground (arith, h, f) in
      subst (λ x. Kept p x) same
        (
          record {
            named = b.named;
            operated = b.operated;
            known = known;
            unpaused = validate_transition-unpaused p.status to f;
            started = b.started;
            updated = n;
            completed_ok = b.completed_ok;
            total_ok = b.total_ok;
            ratio = b.ratio;
            few_warnings = b.few_warnings;
            few_errors = b.few_errors;
          },
          refl,
        )
]
