-- ===== src/Transition/Propose/Recorded.antt =====
-- The transition that a successful `Propose` answers with stands in the authority's map.
use cann_o_call.Prelude.{
  ◌≡◌, refl, sym, ap, ◌∙◌, subst, inl, inr, String, true, Option, some, arith, ◌==◌, Option-cases,
  Bool-cases,
}
use cann_o_call.Prelude.Result.{ok, Result-cases}
use cann_o_call.EventLog.{Event}
use cann_o_call.Transition.{
  ProposedTransition, AcceptedTransition, AcceptedRecord, Authority, Codec, Projection, ref,
}
use cann_o_call.Transition.Encode.{proposal_bytes, canonical_json, accepted_bytes, clone_projection}
use cann_o_call.Transition.Apply.{apply}
use cann_o_call.Transition.Propose.{
  Policy, repeated, canonical_proposal, canonical_admission, check_names, normalize, lookup, decide,
  decide_seen, decide_new, advance, propose, ref_eq, denies, pending,
}
use cann_o_call.Transition.Propose.Outcome.{
  refuses, repeats, accepts, propose-Outcome, decide-Admits, lookup-insert_self,
}

module _ (codec : Codec) where
  normalize-id :
      (p n : ProposedTransition) (request : String)
      → normalize codec p ≡ ok (request, n)
      → n.transition_id ≡ p.transition_id
  unfolding normalize
  normalize-id p n request h = elim (Option-cases (canonical_json codec p.result_data)) [
    | inl f ↦ absurd (ground (arith, f))
    | inr (result, f) ↦ elim (Option-cases (canonical_admission codec p.admission_data)) [
      | inl g ↦ absurd (ground (arith, f, g))
      | inr (admission, g) ↦
          let made : ProposedTransition = record p {
            result_data = result;
            admission_data = admission;
          } in
          elim (Option-cases (proposal_bytes codec made)) [
            | inl k ↦ absurd (ground (arith, f, g, k))
            | inr (bytes, k) ↦
                let same : made ≡ n = ground (arith, f, g, k) in
                ap (λ (q : ProposedTransition). q.transition_id) (sym same)
          ]
    ]
  ]

  pub canonical_proposal-id :
      (p n : ProposedTransition) (request : String)
      → canonical_proposal codec p ≡ ok (request, n)
      → n.transition_id ≡ p.transition_id
  unfolding canonical_proposal
  canonical_proposal-id p n request h = elim (Result-cases (check_names codec p)) [
    | inl (e, f) ↦ absurd (ground (arith, f))
    | inr (u, f) ↦ normalize-id p n request (ground (arith, f))
  ]

  -- Under the proposal's id, with the answer but for its mark of a repetition.
  abbrev pub IsRecorded : ProposedTransition → AcceptedTransition → Authority → Type 0
  IsRecorded p t a =
      (r : AcceptedRecord) × (lookup p.transition_id a.accepted ≡ some r)
      × (t ≡ record r.accepted { duplicate = t.duplicate })

  decide_new-fresh :
      (pol : Policy) (s : Projection) (request : String) (n : ProposedTransition)
      (t : AcceptedTransition)
      → ¬ (decide_new codec pol s request n ≡ ok (repeated t))
  unfolding decide_new
  decide_new-fresh pol s request n t h = elim (Bool-cases (ref_eq n.prior (ref s))) [
    | inr c ↦ ground (arith, h, c)
    | inl c ↦ elim (Bool-cases (denies pol n (clone_projection s))) [
      | inl d ↦ ground (arith, h, c, d)
      | inr d ↦ elim (Option-cases (apply codec s n)) [
        | inl f ↦ ground (arith, h, c, d, f)
        | inr (next, f) ↦ elim (Option-cases (accepted_bytes codec (pending codec n next))) [
          | inl g ↦ ground (arith, h, c, d, f, g)
          | inr (payload, g) ↦ ground (arith, h, c, d, f, g)
        ]
      ]
    ]
  ]

  decide-repeated :
      (pol : Policy) (a : Authority) (p : ProposedTransition) (t : AcceptedTransition)
      → decide codec pol a p ≡ ok (repeated t)
      → IsRecorded p t a
  unfolding decide decide_seen decide_new
  decide-repeated pol a p t h = elim (Result-cases (canonical_proposal codec p)) [
    | inl (e, c) ↦ absurd (ground (arith, c))
    | inr ((request, n), c) ↦ elim (Option-cases (lookup n.transition_id a.accepted)) [
      | inl l ↦ absurd (decide_new-fresh pol a.state request n t (ground (arith, h, c, l)))
      | inr (r, l) ↦ elim (Bool-cases (r.request == request)) [
        | inl e ↦
            let same : record r.accepted { duplicate = true } ≡ t = ground (arith, h, c, l, e) in
            let id = canonical_proposal-id p n request c in
            (
              r,
              subst (λ i. lookup i a.accepted ≡ some r) id l,
              subst (λ (x : AcceptedTransition). x ≡ record r.accepted { duplicate = x.duplicate })
                  same refl,
            )
        | inr e ↦ absurd (ground (arith, h, c, l, e))
      ]
    ]
  ]

  module _ {L : Type 0} (append : L → Event → L × Option Event) where
    -- A call of `Propose` that answers with a transition leaves it recorded.
    pub propose-IsRecorded :
        (pol : Policy) (log : L) (a : Authority) (p : ProposedTransition) (t : AcceptedTransition)
        → (propose codec append pol log a p).2 ≡ ok t
        → IsRecorded p t (propose codec append pol log a p).1
    propose-IsRecorded pol log a p t h = elim (propose-Outcome codec append pol log a p) [
      | refuses e same out ↦ absurd (ground (arith, h, out))
      | repeats x d out ↦
          let same : x ≡ t = ground (arith, h, out) in
          let kept : a ≡ (propose codec append pol log a p).1 = sym (ap (λ o. o.1) out) in
          subst (IsRecorded p t) kept
            (decide-repeated pol a p t (d ∙ ap (λ (y : AcceptedTransition). ok (repeated y)) same))
      | accepts z ↦
          let made = (advance codec a z.x z.saved).1 in
          let same : t ≡ made = ground (arith, h, z.returned) in
          let canonical = (decide-Admits codec pol a p z.x z.decided).canonical in
          let id = canonical_proposal-id p z.x.normalized z.x.request canonical in
          subst (IsRecorded p t) (sym z.moved) (
            record { request = z.x.request; accepted = (advance codec a z.x z.saved).1 },
            lookup-insert_self z.x.normalized.transition_id p.transition_id _ a.accepted (sym id),
            subst (λ (x : AcceptedTransition). x ≡ record made { duplicate = x.duplicate })
                (sym same) refl,
          )
    ]
