-- ===== src/Graph/Links/Enough.antt =====
-- The fuel of the loop of `extractLinks`.
use Prim.Native.String.{[], ◌∷◌, len, slice, find}
use cann_o_call.Prelude.{
  ℕ, zero, suc, ◌+◌, ◌≤◌, ◌<◌, ◌≡◌, refl, String, some, inl, inr, Option-cases, Bool-cases, leb,
  arith,
}
use cann_o_call.Prelude.Trim.{trim_space}
use cann_o_call.Graph.Links.{stopped, found, value_at, round, values}

value_at-moves :
    (html : String) (at : ℕ) (rest val : String) (next : ℕ)
    → at < len html
    → value_at html at rest ≡ found val next
    → at ≤ next
unfolding value_at
value_at-moves html at [] val next h e = absurd (ground (arith, e))
value_at-moves html at (c ∷ s) val next h e = ground (arith, e, h)

-- A round that finds a value goes on behind where it began.
round-moves :
    (html lower : String) (idx : ℕ) (val : String) (next : ℕ)
    → round html lower idx ≡ some (found val next)
    → idx < next
unfolding round
round-moves html lower idx val next e = ground (
  arith,
  e,
  value_at-moves html (idx + find (slice lower idx (len lower)) "href=" + 5)
      (trim_space (slice html (idx + find (slice lower idx (len lower)) "href=" + 5) (len html)))
      val next,
)

-- Two rounds agree when what follows them does.
next_round :
    (n m : ℕ) (html lower : String) (idx : ℕ)
    → ((next : ℕ)
        → idx < next
        → next < len html
        → values n html lower next ≡ values m html lower next)
    → values (suc n) html lower idx ≡ values (suc m) html lower idx
unfolding values
next_round n m html lower idx ih = elim (Option-cases (round html lower idx)) [
  | inl e ↦ rw (e, values) refl
  | inr (stopped, e) ↦ rw (e, values) refl
  | inr (found val next, e) ↦ elim (Bool-cases (leb (len html) next)) [
    | inl f ↦ rw (e, f, values) refl
    | inr f ↦
        rw (e, f, values, ih next (round-moves html lower idx val next e) (ground (arith, f))) refl
  ]
]

-- From a position on, as many rounds as there are bytes left give what any larger number gives.
values_enough :
    (n m : ℕ) (html lower : String) (idx : ℕ)
    → len html ≤ idx + n
    → len html ≤ idx + m
    → values (suc n) html lower idx ≡ values (suc m) html lower idx
values_enough zero m html lower idx h k =
    next_round zero m html lower idx (λ next l f. absurd (omega (arith, h, l, f)))
values_enough (suc n) zero html lower idx h k =
    next_round (suc n) zero html lower idx (λ next l f. absurd (omega (arith, k, l, f)))
values_enough (suc n) (suc m) html lower idx h k =
    next_round (suc n) (suc m) html lower idx
      (λ next l f. values_enough n m html lower next (omega (arith, h, l)) (omega (arith, k, l)))
