-- ===== src/Prelude/Sort/Ranked.antt =====
-- A sorted list falls apart into a front and a rest that ranks no higher.
use cann_o_call.Prelude.{
  ℕ, zero, suc, ◌≤◌, ◌≡◌, ◌⊎◌, refl, ap, Bool, true, false, inl, inr, List, [], ◌∷◌, ◌++◌, All,
  All-map, length, arith, Bool-cases, ltb, if◌then◌else◌,
}
use cann_o_call.Prelude.Sort.{IsOrder, sort, insert}
use cann_o_call.Prelude.Sort.Permute.{All-Perm, Perm-insert}

-- `if len(l) > n { l = l[:n] }`
unfoldable pub cut {ℓ} : {A : Type ℓ} → ℕ → List A → List A
cut zero l = []
cut (suc n) [] = []
cut (suc n) (x ∷ l) = x ∷ cut n l

unfoldable pub beyond {ℓ} : {A : Type ℓ} → ℕ → List A → List A
beyond zero l = l
beyond (suc n) [] = []
beyond (suc n) (x ∷ l) = beyond n l

abbrev pub least : ℕ → ℕ → ℕ
least a b = if ltb a b then a else b

module _ {ℓ} {A : Type ℓ} where
  pub cut-cut : (n m : ℕ) (l : List A) → cut n (cut m l) ≡ cut (least n m) l
  unfolding cut
  cut-cut zero m l = ground (arith)
  cut-cut (suc n) zero l = ground (arith)
  cut-cut (suc n) (suc m) [] = ground (arith)
  cut-cut (suc n) (suc m) (x ∷ l) = ground (arith, cut-cut n m l)

  pub cut-beyond : (n : ℕ) (l : List A) → (cut n l ++ beyond n l) ≡ l
  unfolding cut beyond
  cut-beyond zero l = refl
  cut-beyond (suc n) [] = refl
  cut-beyond (suc n) (x ∷ l) = ap (λ r. x ∷ r) (cut-beyond n l)

  pub length-cut : (n : ℕ) (l : List A) → length (cut n l) ≤ n
  unfolding cut
  length-cut zero l = omega arith
  length-cut (suc n) [] = omega arith
  length-cut (suc n) (x ∷ l) = omega (arith, length-cut n l)

  -- Nothing is left over before the front is full.
  pub cut-full : (n : ℕ) (l : List A) → (beyond n l ≡ []) ⊎ (length (cut n l) ≡ n)
  unfolding cut beyond
  cut-full zero l = inr refl
  cut-full (suc n) [] = inl refl
  cut-full (suc n) (x ∷ l) = elim (cut-full n l) [ inl e ↦ inl e | inr e ↦ inr (ap suc e) ]

module _ {ℓ κ} {K : Type κ} {A : Type ℓ} {lt : K → K → Bool} (o : IsOrder lt) (key : A → K) where
  -- no element ranks before one in front of it
  abbrev pub IsRanked : List A → Type 0
  IsRanked [] = Unit
  IsRanked (x ∷ l) = All (λ y. lt (key y) (key x) ≡ false) l × IsRanked l

  insert-IsRanked : (x : A) (l : List A) → IsRanked l → IsRanked (insert lt key x l)
  unfolding insert
  insert-IsRanked x [] h = (tt, tt)
  insert-IsRanked x (y ∷ l) h = elim (Bool-cases (lt (key x) (key y))) [
    | inl e ↦ rw e ((o.asym (key x) (key y) e, All-map _ _ l (λ z f. below z f e) h.0), h)
    | inr e ↦ rw e (All-Perm _ (Perm-insert lt key x l) (e, h.0), insert-IsRanked x l h.1)
  ]
    where
      below :
          (z : A)
          → lt (key z) (key y) ≡ false
          → lt (key x) (key y) ≡ true
          → lt (key z) (key x) ≡ false
      below z f e = elim (Bool-cases (lt (key z) (key x))) [
        | inl g ↦ absurd (ground (arith, f, o.trans (key z) (key x) (key y) g e))
        | inr g ↦ g
      ]

  pub sort-IsRanked : (l : List A) → IsRanked (sort lt key l)
  unfolding sort
  sort-IsRanked [] = tt
  sort-IsRanked (x ∷ l) = insert-IsRanked x (sort lt key l) (sort-IsRanked l)

  All-beyond {ι} : (P : A → Type ι) (n : ℕ) (l : List A) → All P l → All P (beyond n l)
  unfolding beyond
  All-beyond P zero l h = h
  All-beyond P (suc n) [] h = h
  All-beyond P (suc n) (x ∷ l) h = All-beyond P n l h.1

  All-both :
      (n : ℕ) (x : A) (l r : List A)
      → All (λ z. lt (key z) (key x) ≡ false) r
      → All (λ z. All (λ y. lt (key z) (key y) ≡ false) l) r
      → All (λ z. All (λ y. lt (key z) (key y) ≡ false) (x ∷ l)) r
  All-both n x l [] h k = tt
  All-both n x l (z ∷ r) h k = ((h.0, k.0), All-both n x l r h.1 k.1)

  All-none : (r : List A) → All (λ z. All (λ y. lt (key z) (key y) ≡ false) []) r
  All-none [] = tt
  All-none (z ∷ r) = (tt, All-none r)

  pub beyond-below :
      (n : ℕ) (l : List A)
      → IsRanked l
      → All (λ z. All (λ y. lt (key z) (key y) ≡ false) (cut n l)) (beyond n l)
  unfolding cut beyond
  beyond-below zero l h = All-none l
  beyond-below (suc n) [] h = tt
  beyond-below (suc n) (x ∷ l) h =
      All-both n x (cut n l) (beyond n l) (All-beyond _ n l h.0) (beyond-below n l h.1)
