-- ===== src/Capability/Manager/Guard.antt =====
-- What `ExecuteMutating` lets through to the authority.
use cann_o_call.Prelude.{
  ◌≡◌, refl, ap, ◌∙◌, subst, String, Bool, true, false, Option, none, some, ◌==◌, inl, inr, arith,
  Bool-cases, Option-cases,
}
use cann_o_call.Prelude.Assoc.{find}
use cann_o_call.Prelude.Result.{Result, ok, err, Result-cases}
use cann_o_call.EventLog.{Event}
use cann_o_call.Transition
use cann_o_call.Transition.{Stop, AcceptedTransition, Authority, ProposedTransition}
use cann_o_call.Transition.Propose.{Policy, propose}
use cann_o_call.Transition.Propose.Outcome.{Accepts, refuses, repeats, accepts, propose-Outcome}
use cann_o_call.Capability.{
  CapabilityError, Request, CapabilityResult, Executor, Registry, tier_read, get, get_descriptor,
  validate_fields,
}
use cann_o_call.Capability.Manager.{
  World, execute, execute_mutating, may_mutate, proposal_of, propose_result, answered, admitted,
  start_run, validate_request, exceeds, result_completed,
}

-- An executor that a request may run: registered, enabled, and with room for the inputs.
pub record Admits (is_json : String → Bool) (r : Registry) (req : Request) (x : Executor)
    : Type 0 where
  pub found : find req.capability_id r.entries ≡ some x
  pub enabled : x.describe.enabled ≡ true
  pub within : exceeds req.inputs x.describe.resource_bounds.max_input_bytes ≡ false
  pub valid : validate_fields is_json req ≡ ok tt

admitted-Admits :
    (is_json : String → Bool) (r : Registry) (req : Request) (x : Executor)
    → admitted is_json r req ≡ ok x
    → Admits is_json r req x
unfolding admitted validate_request get get_descriptor
admitted-Admits is_json r req x h = elim (Result-cases (validate_fields is_json req)) [
  | inl (e, f) ↦ absurd (ground (arith, h, f))
  | inr (u, f) ↦ elim (Option-cases (find req.capability_id r.entries)) [
    | inl g ↦ absurd (ground (arith, h, f, g))
    | inr (y, g) ↦
        let same : y ≡ x = ground (arith, h, f, g) in
        let enabled : y.describe.enabled ≡ true = ground (arith, h, f, g) in
        let within : exceeds req.inputs y.describe.resource_bounds.max_input_bytes ≡ false =
          ground (arith, h, f, g) in
        subst (Admits is_json r req) same
          (record { found = g; enabled = enabled; within = within; valid = f })
  ]
]

-- Without an error, the executor that ran was admitted.
execute-Admits :
    (is_json : String → Bool) (w : World) (r : Registry) (req : Request)
    → (execute is_json w r req).1 ≡ none
    → (x : Executor) × Admits is_json r req x
unfolding execute start_run
execute-Admits is_json w r req h = elim (Result-cases (admitted is_json r req)) [
  | inl (e, f) ↦ absurd (ground (arith, h, f))
  | inr (x, f) ↦ (x, admitted-Admits is_json r req x f)
]

-- What has let a result through to the authority.
pub record Cleared (is_json : String → Bool) (r : Registry) (req : Request) (res : CapabilityResult)
    : Type 0 where
  pub executor : Executor
  pub admits : Admits is_json r req executor
  pub completed : (res.status == result_completed) ≡ true
  pub no_read : (executor.describe.tier == tier_read) ≡ false
  pub mutating : executor.describe.mutating ≡ true

may_mutate-Cleared :
    (is_json : String → Bool) (w : World) (r : Registry) (req : Request)
    → may_mutate r req (execute is_json w r req) ≡ ok tt
    → Cleared is_json r req (execute is_json w r req).0
unfolding may_mutate get_descriptor
may_mutate-Cleared is_json w r req h = elim (Option-cases (execute is_json w r req).1) [
  | inr (e, f) ↦ absurd (ground (arith, h, f))
  | inl f ↦
      let (x, admits) = execute-Admits is_json w r req f in
      let d = admits.found in
      record {
        executor = x;
        admits = admits;
        completed = ground (arith, h, f, d);
        no_read = ground (arith, h, f, d);
        mutating = ground (arith, h, f, d);
      }
]

module _ (codec : Transition.Codec) (is_json : String → Bool) {L : Type 0}
    (append : L → Event → L × Option Event) (pol : Policy) where
  abbrev Answer : Type 0
  Answer = CapabilityResult × L × Authority × Result CapabilityError AcceptedTransition

  -- The authority is as it was; or a cleared result went to it, and it accepted the proposal.
  pub data Mutation (r : Registry) (log : L) (a : Authority) (req : Request)
      (operation entity node override : String) (out : Answer) : Type 0 where
    leaves : out.2 ≡ a → Mutation r log a req operation entity node override out
    mutates :
        Cleared is_json r req out.0
        → Accepts codec append pol log a (proposal_of req out.0 a operation entity node override) (
            propose codec append pol log a (proposal_of req out.0 a operation entity node override))
        → out.2
          ≡ (propose codec append pol log a
              (proposal_of req out.0 a operation entity node override)).1
        → Mutation r log a req operation entity node override out

  answered-state :
      (out : L × Authority × Result Stop AcceptedTransition)
      → (answered codec is_json append pol out).1 ≡ out.1
  unfolding answered
  answered-state (l, b, err e) = refl
  answered-state (l, b, ok t) = refl

  propose_result-state :
      (log : L) (a : Authority) (d : Result CapabilityError (Unit {0})) (p : ProposedTransition)
      → d ≡ ok tt
      → is_json p.result_data ≡ true
      → (propose_result codec is_json append pol log a d p).1 ≡ (propose codec append pol log a p).1
  unfolding propose_result
  propose_result-state log a (err e) p h g = absurd (ground (arith, h))
  propose_result-state log a (ok u) p h g = rw g (answered-state (propose codec append pol log a p))

  -- `ExecuteMutating` changes the authority only when an executor that is registered, enabled,
  -- mutating and not of the tier `T1_READ` has completed a valid request within its input bound,
  -- and the authority has accepted the proposal that is made of the result.
  pub execute_mutating-Outcome :
      (w : World) (r : Registry) (log : L) (a : Authority) (req : Request)
      (operation entity node override : String)
      → Mutation r log a req operation entity node override
          (execute_mutating codec is_json append pol w r log a req operation entity node override)
  unfolding execute_mutating propose_result answered
  execute_mutating-Outcome w r log a req operation entity node override =
      let out = execute is_json w r req in
      let p = proposal_of req out.0 a operation entity node override in
      elim (Result-cases (may_mutate r req out)) [
        | inl (e, f) ↦ leaves (ground (arith, f))
        | inr (u, f) ↦ elim (Bool-cases (is_json p.result_data)) [
          | inr g ↦ leaves (ground (arith, f, g))
          | inl g ↦
              let kept : (execute_mutating codec is_json append pol w r log a req operation entity
                    node override).2
                  ≡ (propose codec append pol log a p).1 =
                (propose_result-state log a (may_mutate r req out) p f g) in
              elim (propose-Outcome codec append pol log a p) [
                | refuses e same q ↦ leaves (kept ∙ same)
                | repeats t d q ↦ leaves (kept ∙ ap (λ o. o.1) q)
                | accepts x ↦ mutates (may_mutate-Cleared is_json w r req f) x kept
              ]
        ]
      ]
