-- ===== src/Prelude/Sort/Permute.antt =====
-- Sorting forgets the order of its input, where no two elements have one key.
use mathlib.Core.List.{Permᴰ}
use mathlib.Core.List.Permᴰ
use cann_o_call.Prelude.{
  suc, length, ◌≡◌, refl, sym, ◌∙◌, ap, subst, Bool, List, [], ◌∷◌, ◌++◌, inl, inr, Bool-cases, All,
}
use cann_o_call.Prelude.Sort.{IsOrder, insert, sort, Lacks, insert_comm}

module _ {ℓ κ} {A : Type ℓ} where
  -- What holds of every element of a list does of every element of a rearrangement.
  pub All-Perm : (P : A → Type κ) {xs ys : List A} → Permᴰ xs ys → All P xs → All P ys
  All-Perm P Permᴰ.nil h = h
  All-Perm P (Permᴰ.cons e d) h = (subst P e h.0, All-Perm P d h.1)
  All-Perm P (Permᴰ.swap e f) h = (subst P f h.1.0, (subst P e h.0, h.1.1))
  All-Perm P (Permᴰ.trans d e) h = All-Perm P e (All-Perm P d h)

module _ {ℓ κ} {K : Type κ} {A : Type ℓ} (lt : K → K → Bool) (key : A → K) where
  -- No two elements have one key.
  abbrev pub IsApart : List A → Type κ
  IsApart [] = Unit
  IsApart (x ∷ l) = Lacks lt key x l × IsApart l

  pub IsApart-Perm : {xs ys : List A} → Permᴰ xs ys → IsApart xs → IsApart ys
  IsApart-Perm Permᴰ.nil h = h
  IsApart-Perm (Permᴰ.cons {l₂ = l₂} e d) h =
      (subst (λ (x : A). Lacks lt key x l₂) e (All-Perm _ d h.0), IsApart-Perm d h.1)
  IsApart-Perm (Permᴰ.swap {l = l} e f) h = (
    (λ q. h.0.0 (ap key e ∙ sym q ∙ sym (ap key f)), subst (λ (x : A). Lacks lt key x l) f h.1.0),
    (subst (λ (x : A). Lacks lt key x l) e h.0.1, h.1.1),
  )
  IsApart-Perm (Permᴰ.trans d e) h = IsApart-Perm e (IsApart-Perm d h)

  pub Perm-insert : (x : A) (l : List A) → Permᴰ (x ∷ l) (insert lt key x l)
  unfolding insert
  Perm-insert x [] = Permᴰ.refl (x ∷ [])
  Perm-insert x (y ∷ l) = elim (Bool-cases (lt (key x) (key y))) [
    | inl e ↦ rw e (Permᴰ.refl (x ∷ y ∷ l))
    | inr e ↦ rw e (Permᴰ.trans (Permᴰ.swap refl refl) (Permᴰ.cons refl (Perm-insert x l)))
  ]

  -- A sorted list is a rearrangement.
  pub Perm-sort : (l : List A) → Permᴰ l (sort lt key l)
  unfolding sort
  Perm-sort [] = Permᴰ.nil
  Perm-sort (x ∷ l) = Permᴰ.trans (Permᴰ.cons refl (Perm-sort l)) (Perm-insert x (sort lt key l))

module _ {ℓ κ} {K : Type κ} {A : Type ℓ} {lt : K → K → Bool} (o : IsOrder lt) (key : A → K) where
  pub sort-Perm :
      {xs ys : List A} → Permᴰ xs ys → IsApart lt key xs → sort lt key xs ≡ sort lt key ys
  unfolding sort
  sort-Perm Permᴰ.nil h = refl
  sort-Perm (Permᴰ.cons {a = a} {l₁ = l₁} e d) h = rw (sort-Perm d h.1, e) refl
  sort-Perm (Permᴰ.swap {a = a} {b = b} {l = l} e f) h =
      insert_comm o key a b (sort lt key l) h.0.0 ∙ rw (e, f) refl
  sort-Perm (Permᴰ.trans d e) h = sort-Perm d h ∙ sort-Perm e (IsApart-Perm lt key d h)

module _ {ℓ} {A : Type ℓ} where
  pub Perm-middle : (x : A) (l m : List A) → Permᴰ (x ∷ (l ++ m)) (l ++ x ∷ m)
  Perm-middle x [] m = Permᴰ.refl (x ∷ m)
  Perm-middle x (y ∷ l) m = Permᴰ.trans (Permᴰ.swap refl refl) (Permᴰ.cons refl (Perm-middle x l m))

  pub length-Perm : {xs ys : List A} → Permᴰ xs ys → length xs ≡ length ys
  length-Perm Permᴰ.nil = refl
  length-Perm (Permᴰ.cons e d) = ap suc (length-Perm d)
  length-Perm (Permᴰ.swap e f) = refl
  length-Perm (Permᴰ.trans d e) = length-Perm d ∙ length-Perm e
