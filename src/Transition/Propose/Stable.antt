-- ===== src/Transition/Propose/Stable.antt =====
-- `canonicalProposal` of internal/transition/authority.go, at what it returned.
use cann_o_call.Prelude.{
  ◌≡◌, ◌≢◌, refl, ap, ◌∙◌, subst, inl, inr, String, none, some, arith, ◌==◌, Option-cases,
  Bool-cases, ne→false,
}
use mathlib.Core.Path.{subst₂}
use cann_o_call.Prelude.Result.{ok, Result-cases}
use cann_o_call.Json.{object, end}
use cann_o_call.Json.Canonical.{write_canonical}
use cann_o_call.Transition.{ProposedTransition, Codec}
use cann_o_call.Transition.Encode.{canonical_json, proposal_bytes}
use cann_o_call.Transition.Propose.{canonical_admission, canonical_proposal, check_names, normalize}

-- What the code relies on in `json.Decoder`: a canonical text decodes to a value with the same canonical
-- text, `{}` is the empty object, and the empty input is an error.
pub record JsonLaws (codec : Codec) : Type 0 where
  pub idempotent :
      (given s : String) → canonical_json codec given ≡ some s → canonical_json codec s ≡ some s
  pub empty_object : codec.decode "{}" ≡ some (object end)
  pub empty_input : codec.decode "" ≡ none

module _ (codec : Codec) (laws : JsonLaws codec) where
  canonical_json-object : canonical_json codec "{}" ≡ some "{}"
  unfolding canonical_json write_canonical
  canonical_json-object = rw laws.empty_object refl

  canonical_json-nonempty : (given : String) → canonical_json codec given ≢ some ""
  unfolding canonical_json
  canonical_json-nonempty given h = ground (arith, laws.empty_input, laws.idempotent given "" h)

  canonical_admission-again :
      (given s : String)
      → canonical_admission codec given ≡ some s
      → canonical_admission codec s ≡ some s
  unfolding canonical_admission
  canonical_admission-again given s h = elim (Bool-cases (given == "")) [
    | inl e ↦
        let same : "{}" ≡ s = ground (arith, e) in
        subst (λ u. canonical_admission codec u ≡ some u) same canonical_json-object
    | inr e ↦
        let c : canonical_json codec given ≡ some s = ground (arith, e) in
        rw (ne→false s "" (λ q. canonical_json-nonempty given (c ∙ ap some q)))
          (laws.idempotent given s c)
  ]

  canonical_admission-json :
      (given s : String)
      → canonical_admission codec given ≡ some s
      → canonical_json codec s ≡ some s
  unfolding canonical_admission
  canonical_admission-json given s h = elim (Bool-cases (given == "")) [
    | inl e ↦
        let same : "{}" ≡ s = ground (arith, e) in
        subst (λ u. canonical_json codec u ≡ some u) same canonical_json-object
    | inr e ↦ laws.idempotent given s (ground (arith, e))
  ]

  -- A normalized proposal, its parts, and what normalizing it again gives.
  record Normal (p n : ProposedTransition) (request : String) : Type 0 where
    result : String
    admission : String
    parts : n ≡ record p { result_data = result; admission_data = admission }
    stored : canonical_json codec n.admission_data ≡ some n.admission_data
    again : normalize codec n ≡ ok (request, n)

  Normal-parts :
      (p : ProposedTransition) (result admission request : String)
      → canonical_json codec p.result_data ≡ some result
      → canonical_admission codec p.admission_data ≡ some admission
      → proposal_bytes codec (record p { result_data = result; admission_data = admission })
        ≡ some request
      → Normal p (record p { result_data = result; admission_data = admission }) request
  unfolding normalize
  Normal-parts p result admission request f g k = record {
    result = result;
    admission = admission;
    parts = refl;
    stored = canonical_admission-json p.admission_data admission g;
    again = rw (
      laws.idempotent p.result_data result f,
      canonical_admission-again p.admission_data admission g,
      k,
    );
  }

  normalize-Normal :
      (p n : ProposedTransition) (request : String)
      → normalize codec p ≡ ok (request, n)
      → Normal p n request
  unfolding normalize
  normalize-Normal p n request h = elim (Option-cases (canonical_json codec p.result_data)) [
    | inl f ↦ absurd (ground (arith, f))
    | inr (result, f) ↦ elim (Option-cases (canonical_admission codec p.admission_data)) [
      | inl g ↦ absurd (ground (arith, f, g))
      | inr (admission, g) ↦
          let made : ProposedTransition = record p {
            result_data = result;
            admission_data = admission;
          } in
          elim (Option-cases (proposal_bytes codec made)) [
            | inl k ↦ absurd (ground (arith, f, g, k))
            | inr (bytes, k) ↦
                let same : made ≡ n = ground (arith, f, g, k) in
                let sent : bytes ≡ request = ground (arith, f, g, k) in
                subst₂ (Normal p) same sent (Normal-parts p result admission bytes f g k)
          ]
    ]
  ]

  check_names-payloads :
      (p : ProposedTransition) (result admission : String)
      → check_names codec (record p { result_data = result; admission_data = admission })
        ≡ check_names codec p
  unfolding check_names
  check_names-payloads p result admission = refl

  pub canonical_proposal-again :
      (p n : ProposedTransition) (request : String)
      → canonical_proposal codec p ≡ ok (request, n)
      → canonical_proposal codec n ≡ ok (request, n)
  unfolding canonical_proposal
  canonical_proposal-again p n request h = elim (Result-cases (check_names codec p)) [
    | inl (e, f) ↦ absurd (ground (arith, f))
    | inr (u, f) ↦
        let z = normalize-Normal p n request (ground (arith, f)) in
        let named : check_names codec n ≡ ok u =
          ap (check_names codec) z.parts ∙ check_names-payloads p z.result z.admission ∙ f in
        rw (named, z.again)
  ]

  pub canonical_proposal-admission :
      (p n : ProposedTransition) (request : String)
      → canonical_proposal codec p ≡ ok (request, n)
      → canonical_json codec n.admission_data ≡ some n.admission_data
  unfolding canonical_proposal
  canonical_proposal-admission p n request h = elim (Result-cases (check_names codec p)) [
    | inl (e, f) ↦ absurd (ground (arith, f))
    | inr (u, f) ↦ (normalize-Normal p n request (ground (arith, f))).stored
  ]
