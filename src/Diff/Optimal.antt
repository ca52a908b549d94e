-- ===== src/Diff/Optimal.antt =====
-- internal/diff/diff.go: the table against longest common subsequences, and what `Lines` keeps.
use cann_o_call.Prelude.{
  ℕ, zero, suc, ◌+◌, ◌≤◌, ◌≡◌, refl, String, List, [], ◌∷◌, ◌==◌, leb, eq→path, eq_refl, arith,
  length, if◌then◌else◌, Bool-cases, inl, inr, sym, ap, subst,
}
use native.Mathlib.Nat.{add-zero}
use cann_o_call.Diff.{
  Line, split_lines, get_or, head_or, drop_one, row, zeros, first_row, table, cell, walk,
  remove_rest, add_rest, lines,
}

-- What the table is to hold, by its recurrence.
lcs : List String → List String → ℕ
lcs [] b = 0
lcs (x ∷ xs) [] = 0
lcs (x ∷ xs) (y ∷ ys) =
    let both = lcs xs ys in
    let fewer = lcs xs (y ∷ ys) in
    let more = lcs (x ∷ xs) ys in
    if x == y then suc both else if leb more fewer then fewer else more

-- A subsequence of both lists.
pub data Common : List String → List String → List String → Type 0 where
  done : (a b : List String) → Common [] a b
  both : (x : String) {p a b : List String} → Common p a b → Common (x ∷ p) (x ∷ a) (x ∷ b)
  skip_old : (x : String) {p a b : List String} → Common p a b → Common p (x ∷ a) b
  skip_new : (y : String) {p a b : List String} → Common p a b → Common p a (y ∷ b)

-- One more line on the left loses nothing, and one more on the right gains at most one.
lcs_mono :
    (a b : List String)
    → ((x : String) → lcs a b ≤ lcs (x ∷ a) b) × ((y : String) → lcs a (y ∷ b) ≤ suc (lcs a b))
unfolding lcs
lcs_mono [] [] = (λ x. omega arith, λ y. omega arith)
lcs_mono [] (z ∷ b) = (λ x. omega arith, λ y. omega arith)
lcs_mono (w ∷ a) [] =
    (λ x. omega arith, λ y. ground (arith, (lcs_mono a []).1 y, (lcs_mono a []).0 w))
lcs_mono (w ∷ a) (z ∷ b) = (
  λ x. ground (arith, (lcs_mono (w ∷ a) b).1 z),
  λ y. ground (arith, (lcs_mono a (z ∷ b)).1 y, (lcs_mono a (z ∷ b)).0 w),
)

-- The same with the sides exchanged.
lcs_mono_new :
    (a b : List String)
    → ((y : String) → lcs a b ≤ lcs a (y ∷ b)) × ((x : String) → lcs (x ∷ a) b ≤ suc (lcs a b))
unfolding lcs
lcs_mono_new [] [] = (λ y. omega arith, λ x. omega arith)
lcs_mono_new (w ∷ a) [] = (λ y. omega arith, λ x. omega arith)
lcs_mono_new [] (z ∷ b) =
    (λ y. omega arith, λ x. ground (arith, (lcs_mono_new [] b).1 x, (lcs_mono_new [] b).0 z))
lcs_mono_new (w ∷ a) (z ∷ b) = (
  λ y. ground (arith, (lcs_mono_new a (z ∷ b)).1 w),
  λ x. ground (arith, (lcs_mono_new (w ∷ a) b).1 x, (lcs_mono_new (w ∷ a) b).0 z),
)

Common-le : (p a b : List String) → Common p a b → length p ≤ lcs a b
unfolding lcs
Common-le _ _ _ (done a b) = omega arith
Common-le _ _ _ (both x {p} {a} {b} c) = ground (arith, eq_refl x, Common-le p a b c)
Common-le _ _ _ (skip_old x {p} {a} {b} c) = omega (arith, Common-le p a b c, (lcs_mono a b).0 x)
Common-le _ _ _ (skip_new y {p} {a} {b} c) =
    omega (arith, Common-le p a b c, (lcs_mono_new a b).0 y)

row_of : List String → List String → List ℕ
row_of a [] = lcs a [] ∷ []
row_of a (y ∷ ys) = lcs a (y ∷ ys) ∷ row_of a ys

rows_of : List String → List String → List (List ℕ)
rows_of [] b = row_of [] b ∷ []
rows_of (x ∷ xs) b = row_of (x ∷ xs) b ∷ rows_of xs b

zeros-row_of : (b : List String) → zeros b ≡ row_of [] b
unfolding zeros row_of lcs
zeros-row_of [] = refl
zeros-row_of (y ∷ ys) = ap (λ r. 0 ∷ r) (zeros-row_of ys)

drop_one-row_of : (a ys : List String) (y : String) → drop_one (row_of a (y ∷ ys)) ≡ row_of a ys
unfolding row_of drop_one
drop_one-row_of a ys y = refl

head_or-row_of : (a ys : List String) → head_or (row_of a ys) ≡ lcs a ys
unfolding row_of head_or
head_or-row_of a [] = refl
head_or-row_of a (y ∷ ys) = refl

row-row_of : (x : String) (xs b : List String) → row x b (row_of xs b) ≡ row_of (x ∷ xs) b
unfolding row row_of lcs
row-row_of x xs [] = refl
row-row_of x xs (y ∷ ys) =
    rw (
      drop_one-row_of xs ys y,
      row-row_of x xs ys,
      head_or-row_of xs ys,
      head_or-row_of (x ∷ xs) ys,
    )

first_row-rows_of : (xs b : List String) → first_row (rows_of xs b) ≡ row_of xs b
unfolding first_row rows_of
first_row-rows_of [] b = refl
first_row-rows_of (x ∷ xs) b = refl

table-rows_of : (a b : List String) → table a b ≡ rows_of a b
unfolding table rows_of
table-rows_of [] b = rw (zeros-row_of b)
table-rows_of (x ∷ xs) b = rw (table-rows_of xs b, first_row-rows_of xs b, row-row_of x xs b)

drop : ℕ → List String → List String
drop zero xs = xs
drop (suc n) [] = []
drop (suc n) (x ∷ xs) = drop n xs

lcs-nil : (a : List String) → lcs a [] ≡ 0
unfolding lcs
lcs-nil [] = refl
lcs-nil (x ∷ xs) = refl

get_or-row_of : (a b : List String) (j : ℕ) → get_or 0 (row_of a b) j ≡ lcs a (drop j b)
unfolding get_or row_of drop
get_or-row_of a [] zero = refl
get_or-row_of a [] (suc j) = sym (lcs-nil a)
get_or-row_of a (y ∷ ys) zero = refl
get_or-row_of a (y ∷ ys) (suc j) = get_or-row_of a ys j

get_or-rows_of :
    (a b : List String) (i j : ℕ)
    → get_or 0 (get_or [] (rows_of a b) i) j ≡ lcs (drop i a) (drop j b)
unfolding get_or rows_of drop lcs
get_or-rows_of [] b zero j = get_or-row_of [] b j
get_or-rows_of [] b (suc i) j = refl
get_or-rows_of (x ∷ xs) b zero j = get_or-row_of (x ∷ xs) b j
get_or-rows_of (x ∷ xs) b (suc i) j = get_or-rows_of xs b i j

-- The table, from the cell `i`, `j` on, is that of the two lists.
abbrev Holds : List (List ℕ) → ℕ → ℕ → List String → List String → Type 0
Holds t i j xs ys = (k l : ℕ) → cell t (k + i) (l + j) ≡ lcs (drop k xs) (drop l ys)

table-Holds : (a b : List String) → Holds (table a b) 0 0 a b
unfolding cell
table-Holds a b k l =
    subst (λ m. cell (table a b) m (l + 0) ≡ lcs (drop k a) (drop l b)) (sym (add-zero k))
      (subst (λ m. cell (table a b) k m ≡ lcs (drop k a) (drop l b)) (sym (add-zero l))
        (rw (table-rows_of a b) (get_or-rows_of a b k l)))

-- The lines that the result keeps.
pub kept : List Line → List String
kept [] = []
kept (l ∷ ls) = let rest = kept ls in if l.op == "context" then l.text ∷ rest else rest

kept-remove_rest : (xs : List String) (n : ℕ) → kept (remove_rest xs n) ≡ []
unfolding kept remove_rest
kept-remove_rest [] n = refl
kept-remove_rest (x ∷ xs) n = kept-remove_rest xs (suc n)

kept-add_rest : (xs : List String) (n : ℕ) → kept (add_rest xs n) ≡ []
unfolding kept add_rest
kept-add_rest [] n = refl
kept-add_rest (x ∷ xs) n = kept-add_rest xs (suc n)

-- A longest common subsequence, as a list and as a number.
abbrev Longest : List String → List String → List String → Type 0
Longest p a b = Common p a b × (length p ≡ lcs a b)

module _ (t : List (List ℕ)) where
  -- The same cell under other spellings of its indices.
  moved : (m m' n n' r : ℕ) → cell t m n ≡ r → m ≡ m' → n ≡ n' → cell t m' n' ≡ r
  moved m m' n n' r h e f = subst (λ k. cell t m' k ≡ r) f (subst (λ k. cell t k n ≡ r) e h)

  Holds-both :
      (i j : ℕ) (x y : String) (xs ys : List String)
      → Holds t i j (x ∷ xs) (y ∷ ys)
      → Holds t (suc i) (suc j) xs ys
  unfolding drop
  Holds-both i j x y xs ys h k l =
      moved (suc k + i) (k + suc i) (suc l + j) (l + suc j) _ (h (suc k) (suc l)) (omega arith)
        (omega arith)

  Holds-old :
      (i j : ℕ) (x : String) (xs ys : List String)
      → Holds t i j (x ∷ xs) ys
      → Holds t (suc i) j xs ys
  unfolding drop
  Holds-old i j x xs ys h k l =
      moved (suc k + i) (k + suc i) (l + j) (l + j) _ (h (suc k) l) (omega arith) refl

  Holds-new :
      (i j : ℕ) (y : String) (xs ys : List String)
      → Holds t i j xs (y ∷ ys)
      → Holds t i (suc j) xs ys
  unfolding drop
  Holds-new i j y xs ys h k l =
      moved (k + i) (k + i) (suc l + j) (l + suc j) _ (h k (suc l)) refl (omega arith)

  walk-Longest :
      (i j : ℕ) (xs ys : List String) (old new : ℕ)
      → Holds t i j xs ys
      → Longest (kept (walk t i j xs ys old new)) xs ys
  unfolding walk kept lcs drop
  walk-Longest i j [] ys old new h = rw (kept-add_rest ys new) (done [] ys, refl)
  walk-Longest i j (x ∷ xs) [] old new h =
      rw (kept-remove_rest (x ∷ xs) old) (done (x ∷ xs) [], refl)
  walk-Longest i j (x ∷ xs) (y ∷ ys) old new h =
      let both_ih =
        walk-Longest (suc i) (suc j) xs ys (suc old) (suc new) (Holds-both i j x y xs ys h) in
      let old_ih =
        walk-Longest (suc i) j xs (y ∷ ys) (suc old) new (Holds-old i j x xs (y ∷ ys) h) in
      let new_ih =
        walk-Longest i (suc j) (x ∷ xs) ys old (suc new) (Holds-new i j y (x ∷ xs) ys h) in
      let down : cell t (suc i) j ≡ lcs xs (y ∷ ys) =
        moved (1 + i) (suc i) (0 + j) j _ (h 1 0) (omega arith) (omega arith) in
      let right : cell t i (suc j) ≡ lcs (x ∷ xs) ys =
        moved (0 + i) i (1 + j) (suc j) _ (h 0 1) (omega arith) (omega arith) in
      elim (Bool-cases (x == y)) [
        | inl e ↦ rw e (
          subst
              (λ z.
                Common (x ∷ kept (walk t (suc i) (suc j) xs ys (suc old) (suc new))) (x ∷ xs)
                  (z ∷ ys))
              (eq→path x y e) (both x both_ih.0),
          ap suc both_ih.1,
        )
        | inr e ↦ elim (Bool-cases (leb (cell t i (suc j)) (cell t (suc i) j))) [
          | inl f ↦ rw (e, f) (skip_old x old_ih.0, ground (arith, f, down, right, old_ih.1))
          | inr f ↦ rw (e, f) (skip_new y new_ih.0, ground (arith, f, down, right, new_ih.1))
        ]
      ]

-- The lines that `Lines` keeps are a common subsequence of the two texts, and no common
-- subsequence is longer.
pub lines-Longest :
    (old_text new_text : String) (p : List String)
    → Common p (split_lines old_text) (split_lines new_text)
    → Common (kept (lines old_text new_text)) (split_lines old_text) (split_lines new_text)
      × (length p ≤ length (kept (lines old_text new_text)))
unfolding lines
lines-Longest old_text new_text p c =
    let a = split_lines old_text in
    let b = split_lines new_text in
    let (common, longest) = walk-Longest (table a b) 0 0 a b 1 1 (table-Holds a b) in
    (common, omega (arith, longest, Common-le p a b c))
