-- ===== src/Prelude/Maps.antt =====
-- The maps of Assoc: what a write and a deletion leave, and the keys.
use cann_o_call.Prelude.{
  All, suc, ◌≤◌, ◌≡◌, ◌≢◌, refl, sym, ◌∙◌, subst, eq_iff, ◌⊎◌, String, false, List, [], ◌∷◌, none,
  some, ◌==◌, inl, inr, Bool-cases, length, arith, eq→path, ne→false, eq_refl,
}
use cann_o_call.Prelude.Assoc.{find, put, remove, has}

pub false→ne : (s t : String) → (s == t) ≡ false → s ≢ t
false→ne s t h e = ground (arith, h, (eq_iff s t).1 e)

module _ {ℓ} {A : Type ℓ} where
  pub find-remove : (k : String) (m : List (String × A)) → find k (remove k m) ≡ none
  unfolding find remove
  find-remove k [] = refl
  find-remove k ((j, x) ∷ m) = ground (arith, find-remove k m)

  pub find-remove_other :
      (j k : String) (m : List (String × A)) → j ≢ k → find j (remove k m) ≡ find j m
  unfolding find remove
  find-remove_other j k [] d = refl
  find-remove_other j k ((i, x) ∷ m) d = elim (Bool-cases (k == i)) [
    | inl e ↦
        let here : (j == i) ≡ false =
          subst (λ z. (j == z) ≡ false) (eq→path k i e) (ne→false j k d) in
        rw (e, here) (find-remove_other j k m d)
    | inr e ↦ rw e (ground (arith, find-remove_other j k m d))
  ]

  pub find-put : (k : String) (x : A) (m : List (String × A)) → find k (put k x m) ≡ some x
  unfolding find put
  find-put k x m = rw (eq_refl k) refl

  pub find-put_other :
      (j k : String) (x : A) (m : List (String × A)) → j ≢ k → find j (put k x m) ≡ find j m
  unfolding find put
  find-put_other j k x m d = rw (ne→false j k d) (find-remove_other j k m d)

  -- Where an entry of a map after a write comes from.
  pub find-put-some :
      (j k : String) (x y : A) (m : List (String × A))
      → find j (put k x m) ≡ some y
      → ((j ≡ k) × (x ≡ y)) ⊎ ((j ≢ k) × (find j m ≡ some y))
  find-put-some j k x y m h = elim (Bool-cases (j == k)) [
    | inl e ↦
        let same = eq→path j k e in
        let written = subst (λ i. find i (put k x m) ≡ some y) same h in
        inl (same, ground (arith, written, find-put k x m))
    | inr e ↦ let other = false→ne j k e in inr (other, sym (find-put_other j k x m other) ∙ h)
  ]

  pub find-remove-some :
      (j k : String) (y : A) (m : List (String × A))
      → find j (remove k m) ≡ some y
      → (j ≢ k) × (find j m ≡ some y)
  find-remove-some j k y m h = elim (Bool-cases (j == k)) [
    | inl e ↦
        let gone = subst (λ i. find i (remove k m) ≡ some y) (eq→path j k e) h in
        absurd (ground (arith, gone, find-remove k m))
    | inr e ↦ let other = false→ne j k e in (other, sym (find-remove_other j k m other) ∙ h)
  ]

  pub length-remove_le : (k : String) (m : List (String × A)) → length (remove k m) ≤ length m
  unfolding remove
  length-remove_le k [] = omega arith
  length-remove_le k ((j, x) ∷ m) = ground (arith, length-remove_le k m)

  pub length-remove :
      (k : String) (x : A) (m : List (String × A))
      → find k m ≡ some x
      → suc (length (remove k m)) ≤ length m
  unfolding find remove
  length-remove k x [] h = absurd (ground (arith))
  length-remove k x ((j, y) ∷ m) h = ground (arith, h, length-remove_le k m, length-remove k x m)

  pub remove_absent : (k : String) (m : List (String × A)) → find k m ≡ none → remove k m ≡ m
  unfolding find remove
  remove_absent k [] h = refl
  remove_absent k ((j, x) ∷ m) h = elim (Bool-cases (k == j)) [
    | inl e ↦ absurd (ground (arith, h, e))
    | inr e ↦ rw (e, remove_absent k m (ground (arith, h, e))) refl
  ]

  unfoldable pub keys : List (String × A) → List String
  keys [] = []
  keys ((k, x) ∷ m) = k ∷ keys m

  pub has-keys : (k : String) (m : List (String × A)) → find k m ≡ none → has k (keys m) ≡ false
  unfolding find has keys
  has-keys k [] h = refl
  has-keys k ((j, x) ∷ m) h = ground (arith, h, has-keys k m)

  pub keys-has : (k : String) (m : List (String × A)) → has k (keys m) ≡ false → find k m ≡ none
  unfolding find has keys
  keys-has k [] h = refl
  keys-has k ((j, x) ∷ m) h = ground (arith, h, keys-has k m)

-- No key stands twice.
abbrev pub IsDistinct : List String → Type 0
IsDistinct [] = Unit
IsDistinct (k ∷ ks) = (has k ks ≡ false) × IsDistinct ks

module _ {ℓ} {A : Type ℓ} where
  has-remove :
      (j k : String) (m : List (String × A))
      → has j (keys m) ≡ false
      → has j (keys (remove k m)) ≡ false
  unfolding has keys remove
  has-remove j k [] h = refl
  has-remove j k ((i, x) ∷ m) h = ground (arith, h, has-remove j k m)

  pub remove-IsDistinct :
      (k : String) (m : List (String × A)) → IsDistinct (keys m) → IsDistinct (keys (remove k m))
  unfolding keys remove
  remove-IsDistinct k [] d = tt
  remove-IsDistinct k ((j, x) ∷ m) d = elim (Bool-cases (k == j)) [
    | inl e ↦ rw e (remove-IsDistinct k m d.1)
    | inr e ↦ rw e (has-remove j k m d.0, remove-IsDistinct k m d.1)
  ]

  pub put-IsDistinct :
      (k : String) (x : A) (m : List (String × A))
      → IsDistinct (keys m)
      → IsDistinct (keys (put k x m))
  unfolding keys put
  put-IsDistinct k x m d = (has-keys k (remove k m) (find-remove k m), remove-IsDistinct k m d)

pub All-remove {ℓ κ} :
    {A : Type ℓ} (P : String × A → Type κ) (k : String) (m : List (String × A))
    → All P m
    → All P (remove k m)
unfolding remove
All-remove P k [] h = tt
All-remove P k ((j, x) ∷ m) h = elim (Bool-cases (k == j)) [
  | inl e ↦ rw e (All-remove P k m h.1)
  | inr e ↦ rw e (h.0, All-remove P k m h.1)
]

pub All-find {ℓ κ} :
    {A : Type ℓ} (P : A → Type κ) (k : String) (x : A) (m : List (String × A))
    → All (λ (e : String × A). P e.1) m
    → find k m ≡ some x
    → P x
unfolding find
All-find P k x [] h e = absurd (ground (arith))
All-find P k x ((j, y) ∷ m) h e = elim (Bool-cases (k == j)) [
  | inl f ↦ subst P (ground (arith, e, f)) h.0
  | inr f ↦ All-find P k x m h.1 (ground (arith, e, f))
]
