-- ===== src/Progress/Creation.antt =====
-- `Create` and the eviction that follows it.
use cann_o_call.Prelude.{
  ℕ, ◌-◌, ◌≤◌, ◌≡◌, ◌≢◌, refl, sym, ap, ◌∙◌, subst, String, true, false, List, none, some,
  if◌then◌else◌, inl, inr, Bool-cases, leb, Option-cases, arith, length,
}
use cann_o_call.Prelude.Assoc.{find, put}
use cann_o_call.Prelude.Int64.{ℤ}
use cann_o_call.Prelude.Maps.{keys, IsDistinct, put-IsDistinct, find-put, find-put_other}
use cann_o_call.Prelude.Result.{ok}
use cann_o_call.Progress.{Task, is_terminal, is_blank}
use cann_o_call.Progress.Registry.{
  Registry, new_registry, get, create, count, older, terminals, evict, evict_if_needed, new_task,
  insert_task, existing_task,
}
use cann_o_call.Progress.Cases.{evict-some, create-cases, create-new, evict_if_needed-cases}
use cann_o_call.Progress.Lifecycle.{Reachable, Reachable-IsValid}
use cann_o_call.Progress.Eviction.{
  by_age, find-terminals, terminals-IsDistinct, terminals-absent, find-by_age, by_age-IsDistinct,
  by_age-IsSorted, evict-length, evict-all, evict-kept, evict-older,
}

-- A stored task is among the entries that may go exactly if it is terminal.
find-entries :
    (k : String) (m : List (String × Task)) (t : Task)
    → IsDistinct (keys m)
    → find k m ≡ some t
    → find k (by_age (terminals m))
      ≡ (if is_terminal t.packet.status then some t.packet.updated_at else none)
find-entries k m t d h =
    find-by_age k (terminals m) (terminals-IsDistinct m d) ∙ find-terminals k m t d h

evict_if_needed-Live :
    (r : Registry) (k : String) (t : Task)
    → IsDistinct (keys r.tasks)
    → find k r.tasks ≡ some t
    → is_terminal t.packet.status ≡ false
    → find k (evict_if_needed r).tasks ≡ some t
evict_if_needed-Live r k t d h live = elim (evict_if_needed-cases r) [
  | inl (small, e) ↦ subst (λ (s : Registry). find k s.tasks ≡ some t) (sym e) h
  | inr (large, e) ↦
      let es = by_age (terminals r.tasks) in
      let spared : find k es ≡ none = ground (arith, find-entries k r.tasks t d h, live) in
      subst (λ (s : Registry). find k s.tasks ≡ some t) (sym e)
        (evict-kept (length r.tasks - r.max_size) es r.tasks k spared ∙ h)
]

evict_if_needed-count :
    (r : Registry) (k : String) (t : Task)
    → IsDistinct (keys r.tasks)
    → find k (evict_if_needed r).tasks ≡ some t
    → is_terminal t.packet.status ≡ true
    → length (evict_if_needed r).tasks ≤ r.max_size
evict_if_needed-count r k t d h final = elim (evict_if_needed-cases r) [
  | inl (small, e) ↦ subst (λ (s : Registry). length s.tasks ≤ r.max_size) (sym e) small
  | inr (large, e) ↦
      let es = by_age (terminals r.tasks) in
      let n = length r.tasks - r.max_size in
      let kept : find k (evict n es r.tasks) ≡ some t =
        subst (λ (s : Registry). find k s.tasks ≡ some t) e h in
      let listed = find-entries k r.tasks t d (evict-some n es r.tasks k t kept) in
      elim (Bool-cases (leb n (length es))) [
        | inl f ↦
            let fewer =
              evict-length n es r.tasks
                (by_age-IsDistinct (terminals r.tasks) (terminals-IsDistinct r.tasks d))
                (present r d) (ground (arith, f)) in
            subst (λ (s : Registry). length s.tasks ≤ r.max_size) (sym e)
              (omega (arith, fewer, large))
        | inr f ↦
            let missed = evict-all n es r.tasks k t (ground (arith, f)) kept in
            absurd (ground (arith, missed, listed, final))
      ]
]
  where
    present :
        (r : Registry)
        → IsDistinct (keys r.tasks)
        → (j : String) (a : ℕ) → find j (by_age (terminals r.tasks)) ≡ some a
        → find j r.tasks ≢ none
    present r d j a g c = ground (
      arith,
      g,
      find-by_age j (terminals r.tasks) (terminals-IsDistinct r.tasks d),
      terminals-absent j r.tasks c,
    )

evict_if_needed-older :
    (r : Registry) (k j : String) (t u : Task)
    → IsDistinct (keys r.tasks)
    → find k r.tasks ≡ some t
    → find k (evict_if_needed r).tasks ≡ none
    → find j (evict_if_needed r).tasks ≡ some u
    → is_terminal u.packet.status ≡ true
    → (is_terminal t.packet.status ≡ true)
      × (older (k, t.packet.updated_at) (j, u.packet.updated_at) ≡ true)
evict_if_needed-older r k j t u d h gone kept final = elim (evict_if_needed-cases r) [
  | inl (small, e) ↦ absurd (ground (arith, h, gone, e))
  | inr (large, e) ↦
      let es = by_age (terminals r.tasks) in
      let n = length r.tasks - r.max_size in
      let kept_here : find j (evict n es r.tasks) ≡ some u =
        subst (λ (s : Registry). find j s.tasks ≡ some u) e kept in
      let gone_here : find k (evict n es r.tasks) ≡ none =
        subst (λ (s : Registry). find k s.tasks ≡ none) e gone in
      let listed = find-entries j r.tasks u d (evict-some n es r.tasks j u kept_here) in
      elim (Bool-cases (is_terminal t.packet.status)) [
        | inr f ↦ absurd (ground (arith, evict_if_needed-Live r k t d h f, gone))
        | inl f ↦ (
          f,
          evict-older n es r.tasks k j t.packet.updated_at u.packet.updated_at t u
              (by_age-IsSorted (terminals r.tasks) (terminals-IsDistinct r.tasks d))
              (ground (arith, find-entries k r.tasks t d h, f)) (ground (arith, listed, final)) h
              gone_here kept_here,
        )
      ]
]

-- In every registry that the calls of `Step` reach, a creation leaves every task that is not
-- terminal as it is. The calls of `Step` are all those that change the registry, where the clock
-- is past the zero time, random ids are not blank, the counts of `SetProgress` are in order, and
-- the function that `Update` is given leaves the id and the status alone and the other fields in
-- order.
pub create-Live :
    (max : ℤ) (r : Registry) (now : ℕ) (random id op phase k : String) (t : Task)
    → Reachable (new_registry max) r
    → get r k ≡ some t
    → is_terminal t.packet.status ≡ false
    → get (create now random r id op phase).0 k ≡ some t
unfolding get
create-Live max r now random id op phase k t path h live =
    elim (create-cases now random r id op phase) [
      | inl e ↦ subst (λ (s : Registry). find k s.tasks ≡ some t) (sym e) h
      | inr c ↦
          let x = new_task now c.task_id op phase in
          let other : k ≢ c.task_id =
            λ q. ground (arith, h, c.absent, ap (λ i. find i r.tasks) q) in
          let distinct =
            put-IsDistinct c.task_id x r.tasks (Reachable-IsValid max r path).distinct in
          subst (λ (s : Registry). find k s.tasks ≡ some t) (sym c.state)
            (evict_if_needed-Live (record r { tasks = put c.task_id x r.tasks }) k t distinct
              (find-put_other k c.task_id x r.tasks other ∙ h) live)
    ]

-- In every registry that the calls of `Step` reach, if a creation under a new id leaves a terminal
-- task stored, then the registry holds at most its maximum of tasks. The calls of `Step` are all
-- those that change the registry, where the clock is past the zero time, random ids are not blank,
-- the counts of `SetProgress` are in order, and the function that `Update` is given leaves the id
-- and the status alone and the other fields in order.
pub create-Bounded :
    (max : ℤ) (r : Registry) (now : ℕ) (random id op phase k : String) (t : Task)
    → Reachable (new_registry max) r
    → is_blank op ≡ false
    → get r (if is_blank id then random else id) ≡ none
    → get (create now random r id op phase).0 k ≡ some t
    → is_terminal t.packet.status ≡ true
    → count (create now random r id op phase).0 ≤ r.max_size
unfolding get count
create-Bounded max r now random id op phase k t path operated absent h final =
    let j = if is_blank id then random else id in
    let x = new_task now j op phase in
    let state = create-new now random r id op phase operated absent in
    let distinct = put-IsDistinct j x r.tasks (Reachable-IsValid max r path).distinct in
    subst (λ (s : Registry). length s.tasks ≤ r.max_size) (sym state)
      (evict_if_needed-count (record r { tasks = put j x r.tasks }) k t distinct
        (subst (λ (s : Registry). find k s.tasks ≡ some t) state h) final)

-- In every registry that the calls of `Step` reach, a task that a creation removes is terminal,
-- and changed before every terminal task that it leaves, or at the same time and with a smaller
-- id. The calls of `Step` are all those that change the registry, where the clock is past the zero
-- time, random ids are not blank, the counts of `SetProgress` are in order, and the function that
-- `Update` is given leaves the id and the status alone and the other fields in order.
pub create-Oldest :
    (max : ℤ) (r : Registry) (now : ℕ) (random id op phase k j : String) (t u : Task)
    → Reachable (new_registry max) r
    → get r k ≡ some t
    → get (create now random r id op phase).0 k ≡ none
    → get (create now random r id op phase).0 j ≡ some u
    → is_terminal u.packet.status ≡ true
    → (is_terminal t.packet.status ≡ true)
      × (older (k, t.packet.updated_at) (j, u.packet.updated_at) ≡ true)
unfolding get
create-Oldest max r now random id op phase k j t u path h gone kept final =
    elim (create-cases now random r id op phase) [
      | inl e ↦ absurd (ground (arith, h, gone, ap (λ (s : Registry). find k s.tasks) e))
      | inr c ↦
          let x = new_task now c.task_id op phase in
          let other : k ≢ c.task_id =
            λ q. ground (arith, h, c.absent, ap (λ i. find i r.tasks) q) in
          let distinct =
            put-IsDistinct c.task_id x r.tasks (Reachable-IsValid max r path).distinct in
          evict_if_needed-older (record r { tasks = put c.task_id x r.tasks }) k j t u distinct
            (find-put_other k c.task_id x r.tasks other ∙ h)
            (subst (λ (s : Registry). find k s.tasks ≡ none) c.state gone)
            (subst (λ (s : Registry). find j s.tasks ≡ some u) c.state kept) final
    ]

-- In every registry that the calls of `Step` reach, the task that a creation returns, new or not,
-- is the one that `Get` finds under its id. The calls of `Step` are all those that change the
-- registry, where the clock is past the zero time, random ids are not blank, the counts of
-- `SetProgress` are in order, and the function that `Update` is given leaves the id and the status
-- alone and the other fields in order.
pub create-get :
    (max : ℤ) (r : Registry) (now : ℕ) (random id op phase : String) (t : Task)
    → Reachable (new_registry max) r
    → (create now random r id op phase).1 ≡ ok t
    → get (create now random r id op phase).0 t.packet.task_id ≡ some t
unfolding get create insert_task existing_task new_task is_terminal
create-get max r now random id op phase t path h = elim (Bool-cases (is_blank op)) [
  | inl e ↦ absurd (ground (arith, e, h))
  | inr e ↦
      let j = if is_blank id then random else id in
      elim (Option-cases (find j r.tasks)) [
        | inl f ↦
            let x = new_task now j op phase in
            let same : x ≡ t = ground (arith, e, f, h) in
            let state = create-new now random r id op phase e f in
            let distinct = put-IsDistinct j x r.tasks (Reachable-IsValid max r path).distinct in
            subst (λ y. find y.packet.task_id (create now random r id op phase).0.tasks ≡ some y)
              same
              (subst (λ (s : Registry). find j s.tasks ≡ some x) (sym state)
                (evict_if_needed-Live (record r { tasks = put j x r.tasks }) j x distinct
                  (find-put j x r.tasks) refl))
        | inr (x, f) ↦
            let same : x ≡ t = ground (arith, e, f, h) in
            let left : (create now random r id op phase).0 ≡ r = ground (arith, e, f) in
            let named : t.packet.task_id ≡ j =
              ((Reachable-IsValid max r path).sound j t (f ∙ ap some same)).1 in
            subst (λ (s : Registry). find t.packet.task_id s.tasks ≡ some t) (sym left)
              (ap (λ i. find i r.tasks) named ∙ f ∙ ap some same)
      ]
]
