-- ===== src/Progress/Terminal.antt =====
-- The registry leaves terminal tasks alone, and a restart makes every task terminal.
use cann_o_call.Prelude.{
  ℕ, ◌≡◌, refl, sym, ap, ◌∙◌, subst, String, true, false, some, ◌==◌, ◌||◌, if◌then◌else◌, inl, inr,
  Bool-cases, arith, eq→path, length, ltb, List, Option,
}
use cann_o_call.Prelude.Assoc.{find, put}
use cann_o_call.Prelude.Int64.{ℤ}
use cann_o_call.Prelude.Maps.{find-put-some, find-remove-some}
use cann_o_call.Prelude.Result.{Result, ok}
use cann_o_call.Progress
use cann_o_call.Progress.{
  ProgressPacket, Task, TaskError, is_blank, is_negative, exceeds, is_terminal, is_known,
  status_paused, bounded_copy, validate_transition, is_valid_transition, valid_transitions,
  status_pending, status_running, status_complete, status_failed, status_rejected,
}
use cann_o_call.Progress.Registry.{
  Registry, new_registry, get, update, transition, set_phase, add_warning, add_error, set_progress,
  create, enforce, delete, mark_abandoned, new_task, evict_if_needed, change, abandon, move,
}
use cann_o_call.Progress.Bounds.{InBounds}
use cann_o_call.Progress.Cases.{evict_if_needed-some, change-cases, create-cases}
use cann_o_call.Progress.Validity.{find-abandon_all}
use cann_o_call.Progress.Lifecycle.{Reachable, Reachable-IsValid}

same_status_change :
    (r : Registry) (k j : String) (f : ProgressPacket → Result TaskError ProgressPacket)
    (t u : Task)
    → ((p q : ProgressPacket) → f p ≡ ok q → is_terminal p.status ≡ true → q.status ≡ p.status)
    → find j r.tasks ≡ some t
    → is_terminal t.packet.status ≡ true
    → find j (change r k f).0.tasks ≡ some u
    → u.packet.status ≡ t.packet.status
same_status_change r k j f t u keeps h final g = elim (change-cases r k f) [
  | inl e ↦
      let here : find j r.tasks ≡ some u = subst (λ s. find j s.tasks ≡ some u) e g in
      let same : t ≡ u = ground (arith, h, here) in ap (λ x. x.packet.status) (sym same)
  | inr c ↦
      let here = subst (λ s. find j s.tasks ≡ some u) c.state g in
      elim (find-put-some j k (record c.old { packet = c.new }) u r.tasks here) [
        | inl e ↦
            let found = subst (λ i. find i r.tasks ≡ some t) e.0 h in
            let same : t ≡ c.old = ground (arith, found, c.found) in
            let done = subst (λ x. is_terminal x.packet.status ≡ true) same final in
            ap (λ x. x.packet.status) (sym e.1)
            ∙ keeps c.old.packet c.new c.made done
            ∙ ap (λ x. x.packet.status) (sym same)
        | inr e ↦ let same : t ≡ u = ground (arith, h, e.1) in ap (λ x. x.packet.status) (sym same)
      ]
]

terminal-idle :
    (s : String) → is_terminal s ≡ true → (s == status_pending || s == status_running) ≡ false
unfolding is_terminal
terminal-idle s h = elim (Bool-cases (s == status_pending)) [
  | inl e ↦
      absurd (ground (arith, subst (λ k. is_terminal k ≡ true) (eq→path s status_pending e) h))
  | inr e ↦ elim (Bool-cases (s == status_running)) [
    | inl f ↦
        absurd (ground (arith, subst (λ k. is_terminal k ≡ true) (eq→path s status_running f) h))
    | inr f ↦ rw (e, f) refl
  ]
]

move-refused :
    (now : ℕ) (to : String) (p q : ProgressPacket)
    → move now to p ≡ ok q
    → is_terminal p.status ≡ true
    → q.status ≡ p.status
unfolding move validate_transition
move-refused now to p q h final = absurd (ground (arith, h, final))

add_warning-status :
    (now : ℕ) (msg : String) (p : ProgressPacket)
    → (Progress.add_warning now msg p).status ≡ p.status
unfolding Progress.add_warning
add_warning-status now msg p = ground arith

add_error-status :
    (now : ℕ) (msg : String) (p : ProgressPacket) → (Progress.add_error now msg p).status ≡ p.status
unfolding Progress.add_error
add_error-status now msg p = ground arith

same_entry :
    (k : String) (t u : Task) (m : List (String × Task))
    → find k m ≡ some t
    → find k m ≡ some u
    → u.packet.status ≡ t.packet.status
same_entry k t u m h g =
    let same : t ≡ u = ground (arith, h, g) in ap (λ x. x.packet.status) (sym same)

-- Every call that changes the registry but `Update`, which hands the packet to its caller's function.
pub data Call (r : Registry) : Registry → Type 0 where
  creates : (now : ℕ) (random id op phase : String) → Call r (create now random r id op phase).0
  moves : (now : ℕ) (id to : String) → Call r (transition now r id to).0
  phases : (now : ℕ) (id phase : String) → Call r (set_phase now r id phase).0
  warns : (now : ℕ) (id msg : String) → Call r (add_warning now r id msg).0
  fails : (now : ℕ) (id msg : String) → Call r (add_error now r id msg).0
  counts :
      (now : ℕ) (id : String) (completed total : Option ℤ)
      → Call r (set_progress now r id completed total).0
  deletes : (id : String) → Call r (delete r id)
  abandons : (now : ℕ) → Call r (mark_abandoned now r)

keeps_status :
    {r s : Registry}
    → Call r s
    → (j : String) (t u : Task) → get r j ≡ some t
    → is_terminal t.packet.status ≡ true
    → get s j ≡ some u
    → u.packet.status ≡ t.packet.status
unfolding get update abandon transition set_phase add_warning add_error set_progress
    Progress.set_phase Progress.add_warning Progress.add_error Progress.set_progress enforce delete
    mark_abandoned
keeps_status {r} (creates now random id op phase) j t u h final g =
    elim (create-cases now random r id op phase) [
      | inl e ↦ same_entry j t u r.tasks h (subst (λ (q : Registry). find j q.tasks ≡ some u) e g)
      | inr c ↦
          let k = c.task_id in
          let x = new_task now k op phase in
          let here : find j (evict_if_needed (record r { tasks = put k x r.tasks })).tasks
              ≡ some u =
            subst (λ (q : Registry). find j q.tasks ≡ some u) c.state g in
          let placed = evict_if_needed-some (record r { tasks = put k x r.tasks }) j u here in
          elim (find-put-some j k x u r.tasks placed) [
            | inl y ↦ absurd (ground (arith, c.absent, subst (λ i. find i r.tasks ≡ some t) y.0 h))
            | inr y ↦ same_entry j t u r.tasks h y.1
          ]
    ]
keeps_status {r} (moves now id to) j t u h final g =
    same_status_change r id j (move now to) t u (λ p q e d. move-refused now to p q e d) h final g
keeps_status {r} (phases now id phase) j t u h final g =
    same_status_change r id j (λ p. ok (enforce now (Progress.set_phase now phase p))) t u
      (λ p q e d. ground (arith, e)) h final g
keeps_status {r} (warns now id msg) j t u h final g =
    same_status_change r id j
      (λ p.
        let q = Progress.add_warning now msg p in
        ok (record q {
          warnings = if ltb 10 (length q.warnings) then bounded_copy q.warnings 10 else q.warnings;
        }))
      t u (λ p q e d. ground (arith, e, add_warning-status now msg p)) h final g
keeps_status {r} (fails now id msg) j t u h final g =
    same_status_change r id j
      (λ p.
        let q = Progress.add_error now msg p in
        ok (record q {
          errors = if ltb 10 (length q.errors) then bounded_copy q.errors 10 else q.errors;
        }))
      t u (λ p q e d. ground (arith, e, add_error-status now msg p)) h final g
keeps_status {r} (counts now id completed total) j t u h final g =
    same_status_change r id j (λ p. ok (Progress.set_progress now completed total p)) t u
      (λ p q e d. ground (arith, e)) h final g
keeps_status {r} (deletes id) j t u h final g =
    let kept = (find-remove-some j id u r.tasks g).1 in
    let same : t ≡ u = ground (arith, h, kept) in ap (λ x. x.packet.status) (sym same)
keeps_status {r} (abandons now) j t u h final g =
    let (x, found, e) = find-abandon_all now j u r.tasks g in
    let same = same_entry j t x r.tasks h found in
    let idle = terminal-idle x.packet.status (subst (λ k. is_terminal k ≡ true) (sym same) final) in
    let left : abandon now x ≡ x = rw idle refl in ap (λ y. y.packet.status) (e ∙ left) ∙ same

-- Every call on the registry but `Update`, with any arguments and from any registry, leaves the
-- status of a terminal task alone, unless the task is no longer stored.
pub Call-Terminal :
    (r s : Registry) (id : String) (t u : Task)
    → Call r s
    → get r id ≡ some t
    → is_terminal t.packet.status ≡ true
    → get s id ≡ some u
    → u.packet.status ≡ t.packet.status
Call-Terminal r s id t u step h final g = keeps_status step id t u h final g

settled :
    (s : String)
    → is_known s ≡ true
    → (s == status_paused) ≡ false
    → (s == status_pending || s == status_running) ≡ false
    → is_terminal s ≡ true
unfolding is_known is_terminal
settled s k p i = ground (arith, k, p, i)

abandon-Terminal :
    (now : ℕ) (t : Task) → InBounds t.packet → is_terminal (abandon now t).packet.status ≡ true
unfolding abandon is_terminal
abandon-Terminal now t b =
    elim (Bool-cases (t.packet.status == status_pending || t.packet.status == status_running)) [
      | inl e ↦ rw e refl
      | inr e ↦ rw e (settled t.packet.status b.known b.unpaused e)
    ]

-- After `MarkAbandoned` in a registry that the calls of `Step` reach, every task is terminal. The
-- calls of `Step` are all those that change the registry, where the clock is past the zero time,
-- random ids are not blank, the counts of `SetProgress` are in order, and the function that
-- `Update` is given leaves the id and the status alone and the other fields in order.
pub mark_abandoned-Terminal :
    (max : ℤ) (r : Registry) (now : ℕ) (id : String) (t : Task)
    → Reachable (new_registry max) r
    → get (mark_abandoned now r) id ≡ some t
    → is_terminal t.packet.status ≡ true
unfolding get mark_abandoned
mark_abandoned-Terminal max r now id t path h =
    let (u, found, e) = find-abandon_all now id t r.tasks h in
    let b = ((Reachable-IsValid max r path).sound id u found).0 in
    subst (λ x. is_terminal x.packet.status ≡ true) (sym e) (abandon-Terminal now u b)
