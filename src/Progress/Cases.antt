-- ===== src/Progress/Cases.antt =====
-- The outcomes of `change` and of `create`, for the proofs about the registry.
use cann_o_call.Prelude.{
  zero, suc, List, [], ◌∷◌, subst, ℕ, ◌≡◌, refl, String, false, none, some, if◌then◌else◌, ◌⊎◌, inl,
  inr, Bool-cases, Option-cases, length, leb, ◌≤◌, ◌<◌, ◌-◌, arith,
}
use cann_o_call.Prelude.Assoc.{find, put, remove}
use cann_o_call.Prelude.Maps.{find-remove-some}
use cann_o_call.Prelude.Sort.{sort}
use cann_o_call.Prelude.Result.{Result, ok, Result-cases}
use cann_o_call.Progress.{ProgressPacket, Task, TaskError, is_blank}
use cann_o_call.Progress.Registry.{
  Entry, Registry, change, create, insert_task, existing_task, new_task, evict, older, terminals,
  evict_if_needed,
}

-- What a change that is made has done.
pub record Changed (r s : Registry) (k : String)
    (f : ProgressPacket → Result TaskError ProgressPacket) : Type 0 where
  pub old : Task
  pub new : ProgressPacket
  pub found : find k r.tasks ≡ some old
  pub made : f old.packet ≡ ok new
  pub state : s ≡ record r { tasks = put k (record old { packet = new }) r.tasks }

pub change-cases :
    (r : Registry) (k : String) (f : ProgressPacket → Result TaskError ProgressPacket)
    → ((change r k f).0 ≡ r) ⊎ Changed r (change r k f).0 k f
unfolding change
change-cases r k f = elim (Option-cases (find k r.tasks)) [
  | inl e ↦ inl (ground (arith, e))
  | inr (t, e) ↦ elim (Result-cases (f t.packet)) [
    | inl (x, g) ↦ inl (ground (arith, e, g))
    | inr (p, g) ↦
        inr (record { old = t; new = p; found = e; made = g; state = ground (arith, e, g) })
  ]
]

-- What a creation that puts a new task in has done.
pub record Created (now : ℕ) (random : String) (r s : Registry) (id op phase : String)
    : Type 0 where
  pub task_id : String
  pub id_chosen : task_id ≡ (if is_blank id then random else id)
  pub operated : is_blank op ≡ false
  pub absent : find task_id r.tasks ≡ none
  pub state :
      s ≡ evict_if_needed (record r { tasks = put task_id (new_task now task_id op phase) r.tasks })

pub create-cases :
    (now : ℕ) (random : String) (r : Registry) (id op phase : String)
    → ((create now random r id op phase).0 ≡ r)
      ⊎ Created now random r (create now random r id op phase).0 id op phase
unfolding create insert_task existing_task
create-cases now random r id op phase = elim (Bool-cases (is_blank op)) [
  | inl e ↦ inl (ground (arith, e))
  | inr e ↦
      let task_id = if is_blank id then random else id in
      elim (Option-cases (find task_id r.tasks)) [
        | inl f ↦ inr (record {
          task_id = task_id;
          id_chosen = refl;
          operated = e;
          absent = f;
          state = ground (arith, e, f);
        })
        | inr (t, f) ↦ inl (ground (arith, e, f))
      ]
]

pub evict_if_needed-cases :
    (r : Registry)
    → ((length r.tasks ≤ r.max_size) × (evict_if_needed r ≡ r))
      ⊎ ((r.max_size < length r.tasks)
          × (evict_if_needed r ≡ record r {
            tasks =
                evict
                  (length r.tasks - r.max_size)
                  (sort older (λ e. e) (terminals r.tasks))
                  r.tasks;
          }))
unfolding evict_if_needed
evict_if_needed-cases r = elim (Bool-cases (leb (length r.tasks) r.max_size)) [
  | inl e ↦ inl (ground (arith, e), rw e refl)
  | inr e ↦ inr (ground (arith, e), rw e refl)
]

pub create-new :
    (now : ℕ) (random : String) (r : Registry) (id op phase : String)
    → is_blank op ≡ false
    → find (if is_blank id then random else id) r.tasks ≡ none
    → (create now random r id op phase).0
      ≡ evict_if_needed (record r {
        tasks =
            put
              (if is_blank id then random else id)
              (new_task now (if is_blank id then random else id) op phase)
              r.tasks;
      })
unfolding create insert_task
create-new now random r id op phase e f = ground (arith, e, f)

pub evict-some :
    (n : ℕ) (es : List Entry) (m : List (String × Task)) (k : String) (t : Task)
    → find k (evict n es m) ≡ some t
    → find k m ≡ some t
unfolding evict
evict-some zero es m k t h = h
evict-some (suc n) [] m k t h = h
evict-some (suc n) ((j, u) ∷ es) m k t h =
    (find-remove-some k j t m (evict-some n es (remove j m) k t h)).1

pub evict_if_needed-some :
    (r : Registry) (k : String) (t : Task)
    → find k (evict_if_needed r).tasks ≡ some t
    → find k r.tasks ≡ some t
evict_if_needed-some r k t h = elim (evict_if_needed-cases r) [
  | inl (small, e) ↦ subst (λ (s : Registry). find k s.tasks ≡ some t) e h
  | inr (large, e) ↦
      evict-some (length r.tasks - r.max_size) (sort older (λ e. e) (terminals r.tasks)) r.tasks k t
        (subst (λ (s : Registry). find k s.tasks ≡ some t) e h)
]
