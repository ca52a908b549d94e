-- ===== src/Diff.antt =====
-- internal/diff/diff.go: the difference of two texts by lines, from the table of longest common
-- subsequences.
pub mod Recover
pub mod Optimal
mod Examples
use Prim.Native.Char.{Char, code}
use Prim.Native.String
use cann_o_call.Prelude.{
  ℕ, zero, suc, ◌+◌, String, Bool, true, false, ◌&&◌, List, [], ◌∷◌, ◌==◌, leb, nat_eq,
  if◌then◌else◌,
}

pub record Line : Type 0 where
  pub op : String
  pub old_line : ℕ
  pub new_line : ℕ
  pub text : String

is_newline : Char → Bool
is_newline c = nat_eq (code c) 10

-- `strings.ReplaceAll(s, "\r\n", "\n")`
replace_returns : String → String
unfolding is_newline
replace_returns String.[] = String.[]
replace_returns (String.◌∷◌ c String.[]) = String.◌∷◌ c String.[]
replace_returns (String.◌∷◌ c (String.◌∷◌ d s)) =
    let shorter = String.◌∷◌ d (replace_returns s) in
    let longer = String.◌∷◌ c (replace_returns (String.◌∷◌ d s)) in
    if nat_eq (code c) 13 && is_newline d then shorter else longer

-- `strings.TrimSuffix(s, "\n")`
trim_newline : String → String
unfolding is_newline
trim_newline String.[] = String.[]
trim_newline (String.◌∷◌ c String.[]) = if is_newline c then String.[] else String.◌∷◌ c String.[]
trim_newline (String.◌∷◌ c (String.◌∷◌ d s)) = String.◌∷◌ c (trim_newline (String.◌∷◌ d s))

put_first : Char → List String → List String
put_first c [] = String.◌∷◌ c String.[] ∷ []
put_first c (w ∷ ws) = String.◌∷◌ c w ∷ ws

-- `strings.Split(s, "\n")`
split_newlines : String → List String
unfolding is_newline put_first
split_newlines String.[] = "" ∷ []
split_newlines (String.◌∷◌ c s) =
    let rest = split_newlines s in if is_newline c then "" ∷ rest else put_first c rest

unfoldable pub split_lines : String → List String
unfolding replace_returns trim_newline split_newlines
split_lines given =
    let s = trim_newline (replace_returns given) in if s == "" then [] else split_newlines s

-- A read of a slice; out of range, where the code would panic, it gives `d`.
get_or {ℓ} : {A : Type ℓ} → A → List A → ℕ → A
get_or d [] n = d
get_or d (x ∷ xs) zero = x
get_or d (x ∷ xs) (suc n) = get_or d xs n

head_or : List ℕ → ℕ
head_or [] = 0
head_or (n ∷ ns) = n

drop_one : List ℕ → List ℕ
drop_one [] = []
drop_one (n ∷ ns) = ns

-- The inner loop: `dp[i]` from `dp[i+1]`, which the third argument holds from `j` on.
row : String → List String → List ℕ → List ℕ
unfolding head_or drop_one
row x [] below = 0 ∷ []
row x (y ∷ ys) below =
    let rest = row x ys (drop_one below) in
    (if x == y
      then suc (head_or (drop_one below))
      else if leb (head_or rest) (head_or below)
      then head_or below
      else head_or rest)
    ∷ rest

zeros : List String → List ℕ
zeros [] = 0 ∷ []
zeros (y ∷ ys) = 0 ∷ zeros ys

first_row : List (List ℕ) → List ℕ
first_row [] = []
first_row (r ∷ rs) = r

-- The outer loop: the rows `dp[i], ..., dp[n]`.
table : List String → List String → List (List ℕ)
unfolding row zeros first_row
table [] b = zeros b ∷ []
table (x ∷ xs) b = let rest = table xs b in row x b (first_row rest) ∷ rest

cell : List (List ℕ) → ℕ → ℕ → ℕ
unfolding get_or
cell t i j = get_or 0 (get_or [] t i) j

context : ℕ → ℕ → String → Line
context old new s = record { op = "context"; old_line = old; new_line = new; text = s }

removed : ℕ → String → Line
removed old s = record { op = "remove"; old_line = old; new_line = 0; text = s }

added : ℕ → String → Line
added new s = record { op = "add"; old_line = 0; new_line = new; text = s }

remove_rest : List String → ℕ → List Line
unfolding removed
remove_rest [] old = []
remove_rest (x ∷ xs) old = removed old x ∷ remove_rest xs (suc old)

add_rest : List String → ℕ → List Line
unfolding added
add_rest [] new = []
add_rest (y ∷ ys) new = added new y ∷ add_rest ys (suc new)

-- The three loops that write the result; `i` and `j` index the table.
walk : List (List ℕ) → ℕ → ℕ → List String → List String → ℕ → ℕ → List Line
unfolding cell context removed added remove_rest add_rest
walk t i j [] ys old new = add_rest ys new
walk t i j (x ∷ xs) [] old new = remove_rest (x ∷ xs) old
walk t i j (x ∷ xs) (y ∷ ys) old new =
    let both = context old new x ∷ walk t (suc i) (suc j) xs ys (suc old) (suc new) in
    let fewer = removed old x ∷ walk t (suc i) j xs (y ∷ ys) (suc old) new in
    let more = added new y ∷ walk t i (suc j) (x ∷ xs) ys old (suc new) in
    if x == y then both else if leb (cell t i (suc j)) (cell t (suc i) j) then fewer else more

pub lines_of : List String → List String → List Line
unfolding table walk
lines_of a b = walk (table a b) 0 0 a b 1 1

-- `Lines`
unfoldable pub lines : String → String → List Line
unfolding lines_of split_lines
lines old_text new_text = lines_of (split_lines old_text) (split_lines new_text)

mark : Line → String
mark l =
    if l.op == "context"
    then String.◌++◌ " " (String.◌++◌ l.text "\n")
    else if l.op == "remove"
    then String.◌++◌ "-" (String.◌++◌ l.text "\n")
    else if l.op == "add"
    then String.◌++◌ "+" (String.◌++◌ l.text "\n")
    else ""

print : List Line → String
unfolding mark
print [] = ""
print (l ∷ ls) = String.◌++◌ (mark l) (print ls)

-- `Unified`
unfoldable pub unified : String → String → String → String
unfolding print lines
unified old_text new_text path =
    String.◌++◌ (String.◌++◌ "--- " (String.◌++◌ path "\n"))
      (String.◌++◌ (String.◌++◌ "+++ " (String.◌++◌ path "\n")) (print (lines old_text new_text)))
