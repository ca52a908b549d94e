-- ===== src/Prelude/Sort.antt =====
-- `sort.Slice` and `sort.Strings`: insertion into a list that is ordered by a key. Go's sort is not
-- stable; where no two keys are equal there is one sorted order, which is the one computed here.
pub mod Permute
pub mod Ranked
use cann_o_call.Prelude.{
  ◌≡◌, ◌≢◌, refl, sym, ◌∙◌, ap, Bool, true, false, List, [], ◌∷◌, ◌++◌, arith, if◌then◌else◌, inl,
  inr, Bool-cases, All,
}

-- A strict total order, as a Boolean test.
pub record IsOrder {ℓ} {K : Type ℓ} (lt : K → K → Bool) : Type ℓ where
  pub trans : (a b c : K) → lt a b ≡ true → lt b c ≡ true → lt a c ≡ true
  pub asym : (a b : K) → lt a b ≡ true → lt b a ≡ false
  pub total : (a b : K) → lt a b ≡ false → lt b a ≡ false → a ≡ b

module _ {ℓ κ} {K : Type κ} {A : Type ℓ} (lt : K → K → Bool) (key : A → K) where
  unfoldable pub insert : A → List A → List A
  insert x [] = x ∷ []
  insert x (y ∷ l) = if lt (key x) (key y) then x ∷ y ∷ l else y ∷ insert x l

  unfoldable pub sort : List A → List A
  unfolding insert
  sort [] = []
  sort (x ∷ l) = insert x (sort l)

  -- strictly rising keys
  abbrev pub IsSorted : List A → Type κ
  IsSorted [] = Unit
  IsSorted (x ∷ l) = All (λ y. lt (key x) (key y) ≡ true) l × IsSorted l

  -- no element has the key of `x`
  abbrev pub Lacks : A → List A → Type κ
  Lacks x = All (λ y. key x ≢ key y)

module _ {ℓ κ} {K : Type κ} {A : Type ℓ} {lt : K → K → Bool} (o : IsOrder lt) (key : A → K) where
  -- Two elements with distinct keys go in in either order, whatever the list.
  pub insert_comm :
      (x y : A) (l : List A)
      → key x ≢ key y
      → insert lt key x (insert lt key y l) ≡ insert lt key y (insert lt key x l)
  unfolding insert
  insert_comm x y [] d = ground (arith, d, o.asym (key x) (key y), o.total (key x) (key y))
  insert_comm x y (z ∷ l) d = ground (
    arith,
    d,
    o.asym (key x) (key y),
    o.total (key x) (key y),
    o.trans (key x) (key y) (key z),
    o.trans (key y) (key x) (key z),
    insert_comm x y l d,
  )

  Above :
      (k : K) (x : A) (l : List A)
      → lt k (key x) ≡ true
      → All (λ y. lt (key x) (key y) ≡ true) l
      → All (λ y. lt k (key y) ≡ true) l
  Above k x [] h a = tt
  Above k x (y ∷ l) h a = (o.trans k (key x) (key y) h a.0, Above k x l h a.1)

  -- What a list and the new element lie above, the longer list does.
  insert-All :
      (k : K) (x : A) (l : List A)
      → lt k (key x) ≡ true
      → All (λ y. lt k (key y) ≡ true) l
      → All (λ y. lt k (key y) ≡ true) (insert lt key x l)
  unfolding insert
  insert-All k x [] h a = (h, tt)
  insert-All k x (y ∷ l) h a = elim (Bool-cases (lt (key x) (key y))) [
    | inl e ↦ rw e (h, a)
    | inr e ↦ rw e (a.0, insert-All k x l h a.1)
  ]

  pub insert-IsSorted :
      (x : A) (l : List A)
      → Lacks lt key x l
      → IsSorted lt key l
      → IsSorted lt key (insert lt key x l)
  unfolding insert
  insert-IsSorted x [] d s = (tt, tt)
  insert-IsSorted x (y ∷ l) d s = elim (Bool-cases (lt (key x) (key y))) [
    | inl e ↦ rw e ((e, Above (key x) y l e s.0), s)
    | inr e ↦ rw e (insert-All (key y) x l (after e) s.0, insert-IsSorted x l d.1 s.1)
  ]
    where
      after : lt (key x) (key y) ≡ false → lt (key y) (key x) ≡ true
      after e = elim (Bool-cases (lt (key y) (key x))) [
        | inl f ↦ f
        | inr f ↦ absurd (d.0 (o.total (key x) (key y) e f))
      ]

  -- The head of a sorted list goes back in front.
  insert-below :
      (x : A) (l : List A) → All (λ y. lt (key x) (key y) ≡ true) l → insert lt key x l ≡ x ∷ l
  unfolding insert
  insert-below x [] a = refl
  insert-below x (y ∷ l) a = rw (a.0)

  -- A sorted list is left alone.
  pub sort-sorted : (l : List A) → IsSorted lt key l → sort lt key l ≡ l
  unfolding sort
  sort-sorted [] s = refl
  sort-sorted (x ∷ l) s = rw (sort-sorted l s.1) (insert-below x l s.0)

  -- Sorting after an append is one insertion.
  pub sort-append :
      (x : A) (l : List A)
      → Lacks lt key x l
      → IsSorted lt key l
      → sort lt key (l ++ x ∷ []) ≡ insert lt key x l
  unfolding sort
  sort-append x [] d s = refl
  sort-append x (y ∷ l) d s =
      rw (sort-append x l d.1 s.1)
        (insert_comm y x l (λ e. d.0 (sym e)) ∙ ap (insert lt key x) (insert-below y l s.0))
