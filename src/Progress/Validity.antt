-- ===== src/Progress/Validity.antt =====
-- Every operation of the registry keeps it valid: no key twice, and every packet in bounds under its key.
use cann_o_call.Prelude.{
  ℕ, zero, suc, ◌-◌, ◌≡◌, ◌≢◌, refl, sym, ap, ◌∙◌, subst, String, false, List, [], ◌∷◌, Option,
  some, ◌==◌, ltb, leb, length, if◌then◌else◌, arith, inl, inr, Bool-cases,
}
use cann_o_call.Prelude.Assoc.{find, put, remove}
use cann_o_call.Prelude.Maps.{
  keys, IsDistinct, remove-IsDistinct, put-IsDistinct, find-put-some, find-remove-some,
}
use cann_o_call.Prelude.Int64.{ℤ}
use cann_o_call.Prelude.Result.{Result, ok}
use cann_o_call.Prelude.Sort.{sort}
use cann_o_call.Progress
use cann_o_call.Progress.{
  phase_terminal, phase_pending, phase_running, status_pending, status_running, status_paused,
  status_complete, status_failed, status_rejected, drop_oldest, ProgressPacket, Task, TaskError,
  is_known, is_negative, exceeds, is_terminal, is_blank, bounded_copy, drop_first, push_bounded,
  validate_transition, is_valid_transition, valid_transitions,
}
use cann_o_call.Progress.Bounds.{InBounds, Kept, new_task-InBounds, move-InBounds}
use cann_o_call.Progress.Bounds.Changes.{
  Respects, rewrite-InBounds, enforce-InBounds, add_warning-InBounds, add_error-InBounds,
  add_warning-enforced, add_error-enforced, abandon-InBounds,
}
use cann_o_call.Progress.Cases.{change-cases, create-cases}
use cann_o_call.Progress.Registry.{
  Registry, Entry, older, terminals, evict, evict_if_needed, new_task, create, change, update,
  enforce, move, transition, set_phase, add_warning, add_error, set_progress, delete, abandon,
  abandon_all, mark_abandoned,
}

-- A registry in which no key stands twice and every packet is in bounds, under its own key.
pub record IsValid (r : Registry) : Type 0 where
  pub distinct : IsDistinct (keys r.tasks)
  pub sound :
      (k : String) (t : Task) → find k r.tasks ≡ some t → InBounds t.packet × (t.packet.task_id ≡ k)

put-IsValid :
    (r : Registry) (k : String) (t : Task)
    → IsValid r
    → InBounds t.packet
    → t.packet.task_id ≡ k
    → IsValid (record r { tasks = put k t r.tasks })
put-IsValid r k t v b i = record {
  distinct = put-IsDistinct k t r.tasks v.distinct;
  sound = λ j u h. elim (find-put-some j k t u r.tasks h) [
    | inl e ↦ subst (λ x. InBounds x.packet × (x.packet.task_id ≡ j)) e.1 (b, i ∙ sym e.0)
    | inr e ↦ v.sound j u e.1
  ];
}

remove-IsValid :
    (r : Registry) (k : String) → IsValid r → IsValid (record r { tasks = remove k r.tasks })
remove-IsValid r k v = record {
  distinct = remove-IsDistinct k r.tasks v.distinct;
  sound = λ j u h. v.sound j u (find-remove-some j k u r.tasks h).1;
}

evict-IsValid :
    (n : ℕ) (es : List Entry) (r : Registry)
    → IsValid r
    → IsValid (record r { tasks = evict n es r.tasks })
unfolding evict
evict-IsValid zero es r v = v
evict-IsValid (suc n) [] r v = v
evict-IsValid (suc n) ((k, u) ∷ es) r v =
    evict-IsValid n es (record r { tasks = remove k r.tasks }) (remove-IsValid r k v)

evict_if_needed-IsValid : (r : Registry) → IsValid r → IsValid (evict_if_needed r)
unfolding evict_if_needed
evict_if_needed-IsValid r v = elim (Bool-cases (leb (length r.tasks) r.max_size)) [
  | inl e ↦ rw e v
  | inr e ↦
      rw e
        (evict-IsValid (length r.tasks - r.max_size) (sort older (λ e. e) (terminals r.tasks)) r v)
]

-- A change that keeps packets in bounds and their ids keeps the registry valid.
change-IsValid :
    (r : Registry) (k : String) (f : ProgressPacket → Result TaskError ProgressPacket)
    → IsValid r
    → ((p q : ProgressPacket) → InBounds p → f p ≡ ok q → Kept p q)
    → IsValid (change r k f).0
change-IsValid r k f v keeps = elim (change-cases r k f) [
  | inl e ↦ subst IsValid (sym e) v
  | inr c ↦
      let (b, i) = v.sound k c.old c.found in
      let (d, j) = keeps c.old.packet c.new b c.made in
      subst IsValid (sym c.state) (put-IsValid r k (record c.old { packet = c.new }) v d (j ∙ i))
]

pub create-IsValid :
    (now : ℕ) (random : String) (r : Registry) (id op phase : String)
    → now ≢ 0
    → is_blank random ≡ false
    → IsValid r
    → IsValid (create now random r id op phase).0
create-IsValid now random r id op phase n rand v = elim (create-cases now random r id op phase) [
  | inl e ↦ subst IsValid (sym e) v
  | inr c ↦
      let k = c.task_id in
      let t = new_task now k op phase in
      let chosen : is_blank (if is_blank id then random else id) ≡ false =
        elim (Bool-cases (is_blank id)) [ inl f ↦ rw f rand | inr f ↦ rw f f ] in
      let named : is_blank k ≡ false = subst (λ j. is_blank j ≡ false) (sym c.id_chosen) chosen in
      let (b, same_id) = new_task-InBounds now k op phase n named c.operated in
      subst IsValid (sym c.state) (
        evict_if_needed-IsValid (record r { tasks = put k t r.tasks })
          (put-IsValid r k t v b same_id))
]

pub transition-IsValid :
    (now : ℕ) (r : Registry) (k to : String)
    → now ≢ 0
    → IsValid r
    → IsValid (transition now r k to).0
unfolding transition
transition-IsValid now r k to n v =
    change-IsValid r k (move now to) v (λ p q b h. move-InBounds now to p q n b h)

pub update-IsValid :
    (now : ℕ) (r : Registry) (k : String) (f : ProgressPacket → ProgressPacket)
    → now ≢ 0
    → ((p : ProgressPacket) → InBounds p → Respects p (f p))
    → IsValid r
    → IsValid (update now r k f).0
unfolding update
update-IsValid now r k f n respects v =
    change-IsValid r k (λ p. ok (enforce now (f p))) v
      (λ p q b h.
        subst (λ x. Kept p x) (ground (arith, h)) (enforce-InBounds now p (f p) n b (respects p b)))

pub set_phase-IsValid :
    (now : ℕ) (r : Registry) (k phase : String)
    → now ≢ 0
    → IsValid r
    → IsValid (set_phase now r k phase).0
unfolding set_phase Progress.set_phase
set_phase-IsValid now r k phase n v =
    update-IsValid now r k (Progress.set_phase now phase) n
      (λ p b. record {
        same_id = refl;
        operated = b.operated;
        same_status = refl;
        started = b.started;
        completed_ok = b.completed_ok;
        total_ok = b.total_ok;
        ratio = b.ratio;
      })
      v

pub set_progress-IsValid :
    (now : ℕ) (r : Registry) (k : String) (completed total : Option ℤ)
    → now ≢ 0
    → is_negative completed ≡ false
    → is_negative total ≡ false
    → exceeds completed total ≡ false
    → IsValid r
    → IsValid (set_progress now r k completed total).0
unfolding set_progress Progress.set_progress
set_progress-IsValid now r k completed total n c t x v =
    change-IsValid r k (λ p. ok (Progress.set_progress now completed total p)) v
      (λ p q b h.
        subst (λ x. Kept p x) (ground (arith, h))
          (
            rewrite-InBounds p p.phase completed total now p.warnings p.errors b n c t x
                b.few_warnings b.few_errors,
            refl,
          ))

pub add_warning-IsValid :
    (now : ℕ) (r : Registry) (k msg : String)
    → now ≢ 0
    → IsValid r
    → IsValid (add_warning now r k msg).0
unfolding add_warning
add_warning-IsValid now r k msg n v =
    change-IsValid r k
      (λ p.
        let q = Progress.add_warning now msg p in
        ok (record q {
          warnings = if ltb 10 (length q.warnings) then bounded_copy q.warnings 10 else q.warnings;
        }))
      v
      (λ p q b h.
        let made : Progress.add_warning now msg p ≡ q =
          sym (add_warning-enforced now msg p n b) ∙ ground (arith, h) in
        subst (Kept p) made (add_warning-InBounds now msg p n b))

pub add_error-IsValid :
    (now : ℕ) (r : Registry) (k msg : String)
    → now ≢ 0
    → IsValid r
    → IsValid (add_error now r k msg).0
unfolding add_error
add_error-IsValid now r k msg n v =
    change-IsValid r k
      (λ p.
        let q = Progress.add_error now msg p in
        ok (record q {
          errors = if ltb 10 (length q.errors) then bounded_copy q.errors 10 else q.errors;
        }))
      v
      (λ p q b h.
        let made : Progress.add_error now msg p ≡ q =
          sym (add_error-enforced now msg p n b) ∙ ground (arith, h) in
        subst (Kept p) made (add_error-InBounds now msg p n b))

pub delete-IsValid : (r : Registry) (k : String) → IsValid r → IsValid (delete r k)
unfolding delete
delete-IsValid r k v = remove-IsValid r k v

pub find-abandon_all :
    (now : ℕ) (k : String) (t : Task) (m : List (String × Task))
    → find k (abandon_all now m) ≡ some t
    → (u : Task) × (find k m ≡ some u) × (t ≡ abandon now u)
unfolding find abandon_all
find-abandon_all now k t [] h = absurd (ground (arith, h))
find-abandon_all now k t ((j, u) ∷ m) h = elim (Bool-cases (k == j)) [
  | inl e ↦ rw e (u, refl, ground (arith, e, h))
  | inr e ↦ rw e (find-abandon_all now k t m (ground (arith, e, h)))
]

keys-abandon_all : (now : ℕ) (m : List (String × Task)) → keys (abandon_all now m) ≡ keys m
unfolding keys abandon_all
keys-abandon_all now [] = refl
keys-abandon_all now ((k, t) ∷ m) = ap (λ l. k ∷ l) (keys-abandon_all now m)

pub mark_abandoned-IsValid :
    (now : ℕ) (r : Registry) → now ≢ 0 → IsValid r → IsValid (mark_abandoned now r)
unfolding mark_abandoned
mark_abandoned-IsValid now r n v = record {
  distinct = subst IsDistinct (sym (keys-abandon_all now r.tasks)) v.distinct;
  sound = λ k t h.
      let (u, found, e) = find-abandon_all now k t r.tasks h in
      let (b, i) = v.sound k u found in
      let (c, j) = abandon-InBounds now u n b in
      subst (λ x. InBounds x.packet × (x.packet.task_id ≡ k)) (sym e) (c, j ∙ i);
}
