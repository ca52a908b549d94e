-- ===== src/Diff/Recover.antt =====
-- internal/diff/diff.go: the two texts in the result of `Lines`.
use cann_o_call.Prelude.{
  ℕ, suc, ◌≡◌, refl, String, List, [], ◌∷◌, ◌==◌, leb, eq→path, if◌then◌else◌, Bool-cases, inl, inr,
  ap, ◌∙◌,
}
use cann_o_call.Diff.{Line, split_lines, walk, table, cell, remove_rest, add_rest, lines}

-- The numbered lines of the old text: those that the result keeps or removes.
pub old_side : List Line → List (ℕ × String)
old_side [] = []
old_side (l ∷ ls) =
    let rest = old_side ls in if l.op == "add" then rest else (l.old_line, l.text) ∷ rest

-- The numbered lines of the new text: those that the result keeps or adds.
pub new_side : List Line → List (ℕ × String)
new_side [] = []
new_side (l ∷ ls) =
    let rest = new_side ls in if l.op == "remove" then rest else (l.new_line, l.text) ∷ rest

pub numbered : ℕ → List String → List (ℕ × String)
numbered n [] = []
numbered n (x ∷ xs) = (n, x) ∷ numbered (suc n) xs

old-remove_rest : (xs : List String) (n : ℕ) → old_side (remove_rest xs n) ≡ numbered n xs
unfolding old_side remove_rest numbered
old-remove_rest [] n = refl
old-remove_rest (x ∷ xs) n = ap (λ l. (n, x) ∷ l) (old-remove_rest xs (suc n))

new-remove_rest : (xs : List String) (n : ℕ) → new_side (remove_rest xs n) ≡ []
unfolding new_side remove_rest
new-remove_rest [] n = refl
new-remove_rest (x ∷ xs) n = new-remove_rest xs (suc n)

old-add_rest : (ys : List String) (n : ℕ) → old_side (add_rest ys n) ≡ []
unfolding old_side add_rest
old-add_rest [] n = refl
old-add_rest (y ∷ ys) n = old-add_rest ys (suc n)

new-add_rest : (ys : List String) (n : ℕ) → new_side (add_rest ys n) ≡ numbered n ys
unfolding new_side add_rest numbered
new-add_rest [] n = refl
new-add_rest (y ∷ ys) n = ap (λ l. (n, y) ∷ l) (new-add_rest ys (suc n))

abbrev Recovers : List String → List String → ℕ → ℕ → List Line → Type 0
Recovers xs ys old new ls = (old_side ls ≡ numbered old xs) × (new_side ls ≡ numbered new ys)

walk-Recovers :
    (t : List (List ℕ)) (i j : ℕ) (xs ys : List String) (old new : ℕ)
    → Recovers xs ys old new (walk t i j xs ys old new)
unfolding walk old_side new_side numbered
walk-Recovers t i j [] ys old new = (old-add_rest ys new, new-add_rest ys new)
walk-Recovers t i j (x ∷ xs) [] old new =
    (old-remove_rest (x ∷ xs) old, new-remove_rest (x ∷ xs) old)
walk-Recovers t i j (x ∷ xs) (y ∷ ys) old new =
    let both = walk-Recovers t (suc i) (suc j) xs ys (suc old) (suc new) in
    let fewer = walk-Recovers t (suc i) j xs (y ∷ ys) (suc old) new in
    let more = walk-Recovers t i (suc j) (x ∷ xs) ys old (suc new) in
    elim (Bool-cases (x == y)) [
      | inl e ↦ rw e (
        ap (λ l. (old, x) ∷ l) both.0,
        ap (λ s. (new, s) ∷ new_side (walk t (suc i) (suc j) xs ys (suc old) (suc new)))
              (eq→path x y e)
            ∙ ap (λ l. (new, y) ∷ l) both.1,
      )
      | inr e ↦ elim (Bool-cases (leb (cell t i (suc j)) (cell t (suc i) j))) [
        | inl f ↦ rw (e, f) (ap (λ l. (old, x) ∷ l) fewer.0, fewer.1)
        | inr f ↦ rw (e, f) (more.0, ap (λ l. (new, y) ∷ l) more.1)
      ]
    ]

-- The lines kept or removed are those of the old text, and the lines kept or added those of the
-- new one, each in order and under its number from 1.
pub lines-Recovers :
    (old_text new_text : String)
    → (old_side (lines old_text new_text) ≡ numbered 1 (split_lines old_text))
      × (new_side (lines old_text new_text) ≡ numbered 1 (split_lines new_text))
unfolding lines
lines-Recovers old_text new_text =
    walk-Recovers (table (split_lines old_text) (split_lines new_text)) 0 0 (split_lines old_text)
      (split_lines new_text) 1 1
