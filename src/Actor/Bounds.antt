-- ===== src/Actor/Bounds.antt =====
-- internal/actorstub/actor.go: the limits on active activations, through `ActivateWithParent`.
use cann_o_call.Prelude.{
  subst, ℕ, ◌+◌, ◌≤◌, ◌<◌, ◌≡◌, refl, String, Bool, true, false, not, ◌&&◌, ◌||◌, List, [], ◌∷◌,
  ◌++◌, Option, none, some, ◌==◌, inl, inr, All, All-append, Bool-cases, ltb, arith,
}
use cann_o_call.Prelude.Assoc.{has, put, with_key}
use cann_o_call.Prelude.Int64.{pos, ltb_ℤ, inc}
use cann_o_call.Actor.{
  Activation, Controller, dedup_key, is_active, find_descriptor, update, ended, stop_live,
  forget_key, sweep_one, sweep, clean_locked,
}
use cann_o_call.Actor.Activate.{
  child_activation, Request, World, Verdict, suppressed, rejected, passed, check_limits,
  judge_child, judge, root_activation, active_count, enrol, spawn, open_activation, settle,
  within_window, admit, activate_with_parent, same_subject, repeated,
}

pub fits : ℕ → Activation → Bool
unfolding is_active
fits limit a =
    not (is_active a) || (not (ltb_ℤ (pos limit) a.depth) && not (ltb_ℤ a.remaining_budget (pos 0)))

-- The limits are those of the start; the active activations number at most `max_active`, and none
-- is deeper than `max_depth` or has overspent its budget.
pub record Bounded (active depth active_now depth_now : ℕ) (xs : List Activation) : Type 0 where
  pub same_active : active_now ≡ active
  pub same_depth : depth_now ≡ depth
  pub count : active_count xs ≤ active
  pub within : All (λ a. fits depth a ≡ true) xs

abbrev pub Holds : Controller → Controller → Type 0
Holds start c = Bounded start.max_active start.max_depth c.max_active c.max_depth c.activations

-- An operation that keeps the limits, whatever they are.
abbrev pub Keeps : (Controller → Controller) → Type 0
Keeps f = (start c : Controller) → Holds start c → Holds start (f c)

count-update :
    (id : String) (g : Activation → Activation) (xs : List Activation)
    → ((a : Activation) → is_active (g a) ≡ false)
    → active_count (update id g xs) ≤ active_count xs
unfolding update active_count
count-update id g [] h = omega arith
count-update id g (a ∷ xs) h = ground (arith, h a, count-update id g xs h)

within-update :
    (limit : ℕ) (id : String) (g : Activation → Activation) (xs : List Activation)
    → ((a : Activation) → is_active (g a) ≡ false)
    → All (λ a. fits limit a ≡ true) xs
    → All (λ a. fits limit a ≡ true) (update id g xs)
unfolding update fits
within-update limit id g [] h w = tt
within-update limit id g (a ∷ xs) h w =
    (ground (arith, h a, w.0), within-update limit id g xs h w.1)

pub ended-Holds :
    (start c : Controller) (id status : String) (notes : List String)
    → (status == "active") ≡ false
    → Holds start c
    → Holds start (record c { activations = update id (ended status notes) c.activations })
unfolding is_active ended
ended-Holds start c id status notes off h = record {
  same_active = h.same_active;
  same_depth = h.same_depth;
  count = omega (arith, count-update id (ended status notes) c.activations (λ a. off), h.count);
  within = within-update start.max_depth id _ c.activations (λ a. off) h.within;
}

pub stop_live-Keeps : (id : String) → Keeps (stop_live id)
unfolding stop_live
stop_live-Keeps id start c h = elim (Bool-cases (has id c.live)) [ inl e ↦ rw e h | inr e ↦ rw e h ]

sweep_one-Keeps : (now : ℕ) (a : Activation) → Keeps (sweep_one now a)
unfolding sweep_one forget_key
sweep_one-Keeps now a start c h = elim (Bool-cases (is_active a && ltb a.expires_at now)) [
  | inl e ↦ rw e (stop_live-Keeps a.id start _ (ended-Holds start c a.id "expired" [] refl h))
  | inr e ↦ rw e h
]

sweep-Keeps : (now : ℕ) (xs : List Activation) → Keeps (sweep now xs)
unfolding sweep
sweep-Keeps now [] start c h = h
sweep-Keeps now (a ∷ xs) start c h =
    sweep-Keeps now xs start (sweep_one now a c) (sweep_one-Keeps now a start c h)

pub clean_locked-Keeps : (now : ℕ) → Keeps (clean_locked now)
unfolding clean_locked
clean_locked-Keeps now start c h = sweep-Keeps now c.activations start c h

count-append :
    (xs ys : List Activation) → active_count (xs ++ ys) ≡ active_count xs + active_count ys
unfolding active_count
count-append [] ys = omega arith
count-append (a ∷ xs) ys = omega (arith, count-append xs ys)

-- An activation may join when there is room for it and it fits.
enrol-Holds :
    (start c : Controller) (a : Activation)
    → active_count c.activations + active_count (a ∷ []) ≤ start.max_active
    → fits start.max_depth a ≡ true
    → Holds start c
    → Holds start (enrol a c).0
unfolding enrol
enrol-Holds start c a room fit h = record {
  same_active = h.same_active;
  same_depth = h.same_depth;
  count = omega (arith, count-append c.activations (a ∷ []), room);
  within = All-append _ c.activations (a ∷ []) h.within (fit, tt);
}

inactive-Holds :
    (start c : Controller) (a : Activation)
    → is_active a ≡ false
    → Holds start c
    → Holds start (enrol a c).0
unfolding active_count fits
inactive-Holds start c a off h =
    enrol-Holds start c a (ground (arith, off, h.count)) (ground (arith, off)) h

-- What `judge` rejects is not active, and what it passes fits once it is made active.
pub data Sound (limit : ℕ) : Verdict → Type 0 where
  silent : Sound limit suppressed
  refused : (a : Activation) → is_active a ≡ false → Sound limit (rejected a)
  allowed :
      (a : Activation)
      → ltb_ℤ (pos limit) a.depth ≡ false
      → ltb_ℤ a.remaining_budget (pos 0) ≡ false
      → Sound limit (passed a)

check_limits-Sound : (c : Controller) (a : Activation) → Sound c.max_depth (check_limits c a)
unfolding check_limits is_active ended
check_limits-Sound c a = elim (Bool-cases (ltb_ℤ (pos c.max_depth) a.depth)) [
  | inl e ↦ rw e (refused _ refl)
  | inr e ↦ elim (Bool-cases (ltb_ℤ a.remaining_budget (pos 0))) [
    | inl f ↦ rw (e, f) (refused _ refl)
    | inr f ↦ rw (e, f) (allowed a e f)
  ]
]

judge_child-Sound :
    (c : Controller) (now : ℕ) (r : Request) (parent : Option Activation)
    → Sound c.max_depth (judge_child c now r parent)
unfolding judge_child is_active ended
judge_child-Sound c now r none = refused _ refl
judge_child-Sound c now r (some parent) = elim (Bool-cases (parent.lineage_id == "")) [
  | inl e ↦ rw e (refused _ refl)
  | inr e ↦ elim (Bool-cases (same_subject parent r)) [
    | inl f ↦ rw (e, f) (refused _ refl)
    | inr f ↦ elim (Bool-cases (repeated parent.lineage_id r c.activations)) [
      | inl g ↦ rw (e, f, g) silent
      | inr g ↦ rw (e, f, g) (check_limits-Sound c (child_activation c now r parent))
    ]
  ]
]

pub judge-Sound : (c : Controller) (now : ℕ) (r : Request) → Sound c.max_depth (judge c now r)
unfolding judge
judge-Sound c now r = elim (Bool-cases (r.parent_id == "")) [
  | inl e ↦ rw e (check_limits-Sound c (root_activation c now r))
  | inr e ↦ rw e (judge_child-Sound c now r (find_descriptor r.parent_id c.activations))
]

open-Holds :
    (start c : Controller) (w : World) (r : Request) (a : Activation)
    → active_count c.activations < start.max_active
    → ltb_ℤ (pos start.max_depth) a.depth ≡ false
    → ltb_ℤ a.remaining_budget (pos 0) ≡ false
    → Holds start c
    → Holds start (open_activation w r a c).0
unfolding open_activation spawn is_active ended fits active_count
open-Holds start c w r a room deep spent h =
    let kept = record c {
      dedup = put (dedup_key r.workspace r.action r.path) a.expires_at c.dedup;
    } in
    let opened = ended "active" [] a in
    elim (Bool-cases c.closed) [
      | inl e ↦ rw e (
          inactive-Holds start kept (ended "failed" ("actor system unavailable" ∷ []) opened) refl
            h)
      | inr e ↦ elim (Bool-cases w.spawned) [
        | inl f ↦
            rw (e, f)
              (enrol-Holds start
                (record kept { live = with_key a.id c.live; timers = with_key a.id c.timers })
                opened (ground arith) (ground (arith, deep, spent)) h)
        | inr f ↦
            rw (e, f)
              (inactive-Holds start kept (ended "failed" ("spawn failed" ∷ []) opened) refl h)
      ]
    ]

settle-Keeps :
    (w : World) (r : Request) (start c : Controller) (v : Verdict)
    → Sound start.max_depth v
    → Holds start c
    → Holds start (settle w r c v).0
unfolding settle ended is_active
settle-Keeps w r start c _ silent h = h
settle-Keeps w r start c _ (refused a off) h = inactive-Holds start c a off h
settle-Keeps w r start c _ (allowed a deep spent) h =
    elim (Bool-cases (ltb (active_count c.activations) c.max_active)) [
      | inl e ↦ rw e (open-Holds start c w r a (ground (arith, h.same_active)) deep spent h)
      | inr e ↦ rw e (
          inactive-Holds start c (ended "rejected_budget" ("actor-count limit reached" ∷ []) a) refl
            h)
    ]

admit-Keeps : (w : World) (r : Request) → Keeps (λ c. (admit w r c).0)
unfolding admit
admit-Keeps w r start c h =
    let counted = record c { counter = inc c.counter } in
    elim (Bool-cases (within_window w.now r c)) [
      | inl e ↦ rw e h
      | inr e ↦ rw e (
          settle-Keeps w r start counted (judge counted w.now r)
            (subst (λ m. Sound m (judge counted w.now r)) h.same_depth
              (judge-Sound counted w.now r))
            h)
    ]

pub activate-Keeps : (w : World) (r : Request) → Keeps (λ c. (activate_with_parent w r c).0)
unfolding activate_with_parent
activate-Keeps w r start c h =
    admit-Keeps w r start (clean_locked w.now c) (clean_locked-Keeps w.now start c h)
