-- ===== src/Progress/Moves.antt =====
-- The way of a task from its start to its end.
use cann_o_call.Prelude.{
  ℕ, ◌≡◌, refl, sym, subst, String, true, some, ◌==◌, ◌&&◌, arith, if◌then◌else◌, Bool-cases, inl,
  inr, eq→path,
}
use cann_o_call.Prelude.Maps.{find-put}
use cann_o_call.Prelude.Result.{Result, ok}
use cann_o_call.Progress
use cann_o_call.Progress.{
  ProgressPacket, Task, TaskError, is_terminal, status_pending, status_running, status_complete,
  status_failed, status_rejected, validate_transition, is_valid_transition, valid_transitions,
  phase_terminal, phase_pending, phase_running, status_paused,
}
use cann_o_call.Progress.Registry.{
  Registry, get, change, move, transition, set_phase, update, enforce,
}

get-change :
    (r : Registry) (k : String) (f : ProgressPacket → Result TaskError ProgressPacket) (t : Task)
    (p : ProgressPacket)
    → get r k ≡ some t
    → f t.packet ≡ ok p
    → get (change r k f).0 k ≡ some (record t { packet = p })
unfolding get change
get-change r k f t p h g = ground (arith, h, g, find-put k (record t { packet = p }) r.tasks)

validate-ends :
    (to : String) → is_terminal to ≡ true → validate_transition status_running to ≡ ok tt
unfolding validate_transition is_valid_transition valid_transitions is_terminal
validate-ends to h = elim (Bool-cases (to == status_complete)) [
  | inl e ↦
      subst (λ s. validate_transition status_running s ≡ ok tt) (sym (eq→path to status_complete e))
        refl
  | inr e ↦ elim (Bool-cases (to == status_failed)) [
    | inl f ↦
        subst (λ s. validate_transition status_running s ≡ ok tt) (sym (eq→path to status_failed f))
          refl
    | inr f ↦
        subst (λ s. validate_transition status_running s ≡ ok tt)
          (sym (eq→path to status_rejected (ground (arith, h, e, f)))) refl
  ]
]

-- What `move` leaves of a packet.
moved : ℕ → String → ProgressPacket → ProgressPacket
moved now to p = record p {
  status = to;
  updated_at = now;
  phase =
      if is_terminal to
      then phase_terminal
      else (if to == status_running && p.phase == phase_pending then phase_running else p.phase);
}

transition-get :
    (now : ℕ) (r : Registry) (k to : String) (t : Task)
    → get r k ≡ some t
    → validate_transition t.packet.status to ≡ ok tt
    → get (transition now r k to).0 k ≡ some (record t { packet = moved now to t.packet })
unfolding transition move moved
transition-get now r k to t h v =
    get-change r k (move now to) t (moved now to t.packet) h (ground (arith, v))

-- A pending task that is started is running.
pub transition-starts :
    (now : ℕ) (r : Registry) (k : String) (t : Task)
    → get r k ≡ some t
    → t.packet.status ≡ status_pending
    → (u : Task) × (get (transition now r k status_running).0 k ≡ some u)
      × (u.packet.status ≡ status_running)
unfolding moved validate_transition is_valid_transition valid_transitions is_terminal
transition-starts now r k t h s =
    let allowed : validate_transition t.packet.status status_running ≡ ok tt =
      subst (λ x. validate_transition x status_running ≡ ok tt) (sym s) refl in
    (
      record t { packet = moved now status_running t.packet },
      transition-get now r k status_running t h allowed,
      refl,
    )

-- A running task ends in the terminal status that it is given.
pub transition-ends :
    (now : ℕ) (r : Registry) (k to : String) (t : Task)
    → get r k ≡ some t
    → t.packet.status ≡ status_running
    → is_terminal to ≡ true
    → (u : Task) × (get (transition now r k to).0 k ≡ some u) × (u.packet.status ≡ to)
unfolding moved
transition-ends now r k to t h s final =
    let allowed : validate_transition t.packet.status to ≡ ok tt =
      subst (λ x. validate_transition x to ≡ ok tt) (sym s) (validate-ends to final) in
    (record t { packet = moved now to t.packet }, transition-get now r k to t h allowed, refl)

pub set_phase-get :
    (now : ℕ) (r : Registry) (k phase : String) (t : Task)
    → get r k ≡ some t
    → (u : Task) × (get (set_phase now r k phase).0 k ≡ some u)
      × (u.packet.status ≡ t.packet.status)
unfolding set_phase update enforce Progress.set_phase
set_phase-get now r k phase t h = (
  record t { packet = enforce now (Progress.set_phase now phase t.packet) },
  get-change r k (λ p. ok (enforce now (Progress.set_phase now phase p))) t
      (enforce now (Progress.set_phase now phase t.packet)) h refl,
  refl,
)
