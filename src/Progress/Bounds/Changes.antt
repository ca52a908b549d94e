-- ===== src/Progress/Bounds/Changes.antt =====
-- The other changes of a packet keep it in bounds.
use cann_o_call.Prelude.{
  ℕ, ◌≤◌, ◌≡◌, ◌≢◌, refl, sym, ap, subst, String, true, false, ◌||◌, List, [], ◌∷◌, ◌++◌, Option,
  ◌==◌, ltb, length, if◌then◌else◌, arith, inl, inr, Bool-cases, length-append,
}
use cann_o_call.Prelude.Int64.{ℤ}
use cann_o_call.Prelude.Trim.{trim_space}
use cann_o_call.Progress
use cann_o_call.Progress.{
  phase_terminal, phase_pending, phase_running, status_pending, status_running, status_paused,
  status_complete, status_failed, status_rejected, drop_oldest, ProgressPacket, Task, TaskError,
  is_known, is_negative, exceeds, is_terminal, is_blank, bounded_copy, drop_first, push_bounded,
  validate_transition, is_valid_transition, valid_transitions,
}
use cann_o_call.Progress.Registry.{enforce, abandon, abandoned}
use cann_o_call.Progress.Bounds.{InBounds, Kept, length-bounded_copy, length-push_bounded}

-- The fields that the other changes write, with what each must still satisfy.
pub rewrite-InBounds :
    (p : ProgressPacket) (phase : String) (completed total : Option ℤ) (now : ℕ)
    (warnings errors : List String)
    → InBounds p
    → now ≢ 0
    → is_negative completed ≡ false
    → is_negative total ≡ false
    → exceeds completed total ≡ false
    → length warnings ≤ 10
    → length errors ≤ 10
    → InBounds (record p {
      phase = phase;
      completed = completed;
      total = total;
      updated_at = now;
      warnings = warnings;
      errors = errors;
    })
rewrite-InBounds p phase completed total now warnings errors b n c t x w e = record {
  named = b.named;
  operated = b.operated;
  known = b.known;
  unpaused = b.unpaused;
  started = b.started;
  updated = n;
  completed_ok = c;
  total_ok = t;
  ratio = x;
  few_warnings = w;
  few_errors = e;
}

pub enforced : (l : List String) → length (if ltb 10 (length l) then bounded_copy l 10 else l) ≤ 10
enforced l = ground (arith, length-bounded_copy l 10)

-- What the function that `update` is given must leave in order: everything but the lists and the time.
pub record Respects (p q : ProgressPacket) : Type 0 where
  pub same_id : q.task_id ≡ p.task_id
  pub operated : is_blank q.operation ≡ false
  pub same_status : q.status ≡ p.status
  pub started : q.started_at ≢ 0
  pub completed_ok : is_negative q.completed ≡ false
  pub total_ok : is_negative q.total ≡ false
  pub ratio : exceeds q.completed q.total ≡ false

pub enforce-InBounds :
    (now : ℕ) (p q : ProgressPacket) → now ≢ 0 → InBounds p → Respects p q → Kept p (enforce now q)
unfolding enforce
enforce-InBounds now p q n b c = (
  record {
    named = subst (λ k. is_blank k ≡ false) (sym c.same_id) b.named;
    operated = c.operated;
    known = subst (λ k. is_known k ≡ true) (sym c.same_status) b.known;
    unpaused = subst (λ k. (k == status_paused) ≡ false) (sym c.same_status) b.unpaused;
    started = c.started;
    updated = ground (arith, n);
    completed_ok = c.completed_ok;
    total_ok = c.total_ok;
    ratio = c.ratio;
    few_warnings = enforced q.warnings;
    few_errors = enforced q.errors;
  },
  c.same_id,
)

pub add_warning-InBounds :
    (now : ℕ) (msg : String) (p : ProgressPacket)
    → now ≢ 0
    → InBounds p
    → Kept p (Progress.add_warning now msg p)
unfolding Progress.add_warning
add_warning-InBounds now msg p n b = elim (Bool-cases (trim_space msg == "")) [
  | inl e ↦ rw e (b, refl)
  | inr e ↦ rw e (
    rewrite-InBounds p p.phase p.completed p.total now (push_bounded p.warnings (trim_space msg))
        p.errors b n b.completed_ok b.total_ok b.ratio
        (length-push_bounded p.warnings (trim_space msg) b.few_warnings) b.few_errors,
    refl,
  )
]

pub add_error-InBounds :
    (now : ℕ) (msg : String) (p : ProgressPacket)
    → now ≢ 0
    → InBounds p
    → Kept p (Progress.add_error now msg p)
unfolding Progress.add_error
add_error-InBounds now msg p n b = elim (Bool-cases (trim_space msg == "")) [
  | inl e ↦ rw e (b, refl)
  | inr e ↦ rw e (
    rewrite-InBounds p p.phase p.completed p.total now p.warnings
        (push_bounded p.errors (trim_space msg)) b n b.completed_ok b.total_ok b.ratio
        b.few_warnings (length-push_bounded p.errors (trim_space msg) b.few_errors),
    refl,
  )
]

short : (l : List String) → length l ≤ 10 → (if ltb 10 (length l) then bounded_copy l 10 else l) ≡ l
short l h = ground (arith, h)

pub abandon-InBounds :
    (now : ℕ) (t : Task) → now ≢ 0 → InBounds t.packet → Kept t.packet (abandon now t).packet
unfolding abandon is_known
abandon-InBounds now t n b =
    let p = t.packet in
    elim (Bool-cases (p.status == status_pending || p.status == status_running)) [
      | inr e ↦ rw e (b, refl)
      | inl e ↦ rw e (
        record {
          named = b.named;
          operated = b.operated;
          known = refl;
          unpaused = refl;
          started = b.started;
          updated = n;
          completed_ok = b.completed_ok;
          total_ok = b.total_ok;
          ratio = b.ratio;
          few_warnings = b.few_warnings;
          few_errors = room p.errors b.few_errors;
        },
        refl,
      )
    ]
  where
    room :
        (l : List String)
        → length l ≤ 10
        → length (if ltb (length l) 10 then l ++ abandoned ∷ [] else l) ≤ 10
    room l h = ground (arith, length-append l (abandoned ∷ []))

-- The bound of the registry does nothing more.
pub add_warning-enforced :
    (now : ℕ) (msg : String) (p : ProgressPacket)
    → now ≢ 0
    → InBounds p
    → record (Progress.add_warning now msg p) {
      warnings =
          if ltb 10 (length (Progress.add_warning now msg p).warnings)
          then bounded_copy (Progress.add_warning now msg p).warnings 10
          else (Progress.add_warning now msg p).warnings;
    }
      ≡ Progress.add_warning now msg p
add_warning-enforced now msg p n b =
    let q = Progress.add_warning now msg p in
    ap (λ l. record q { warnings = l })
      (short q.warnings (add_warning-InBounds now msg p n b).0.few_warnings)

-- The bound of the registry does nothing more.
pub add_error-enforced :
    (now : ℕ) (msg : String) (p : ProgressPacket)
    → now ≢ 0
    → InBounds p
    → record (Progress.add_error now msg p) {
      errors =
          if ltb 10 (length (Progress.add_error now msg p).errors)
          then bounded_copy (Progress.add_error now msg p).errors 10
          else (Progress.add_error now msg p).errors;
    }
      ≡ Progress.add_error now msg p
add_error-enforced now msg p n b =
    let q = Progress.add_error now msg p in
    ap (λ l. record q { errors = l })
      (short q.errors (add_error-InBounds now msg p n b).0.few_errors)
