-- ===== src/Graph/Links.antt =====
-- `extractLinks` of internal/graph/builder.go. Positions count bytes, as Go's do; where lower-casing has
-- moved them into the middle of a character, the model's slice leaves that character out.
mod Enough
use Prim.Native.Char.{Char, code}
use Prim.Native.String.{[], ◌∷◌, len, slice, find}
use cann_o_call.Prelude.{
  ℕ, zero, suc, ◌+◌, ◌≤◌, ◌<◌, ◌≡◌, refl, String, Bool, true, false, ◌||◌, List, Option, none, some,
  ◌==◌, ◌>>=◌, leb, ltb, nat_eq, if◌then◌else◌, arith,
}
use cann_o_call.Prelude.Text.{str_lt}
use cann_o_call.Prelude.Sort.{sort}
use cann_o_call.Prelude.Trim.{trim_space}
use cann_o_call.Prelude.Assoc.{has}

-- `strings.Contains(lower, "href=")`
unfoldable pub contains_href : String → Bool
contains_href lower = leb (find lower "href=") (len lower)

-- The text before the first character that a test picks, if there is one.
before : (Char → Bool) → String → Option String
before p [] = none
before p (c ∷ s) =
    let rest = before p s in
    if p c then some [] else elim rest [ none ↦ none | some t ↦ some (c ∷ t) ]

-- `" \t\n>"`
ends_value : Char → Bool
ends_value c = nat_eq (code c) 32 || nat_eq (code c) 9 || nat_eq (code c) 10 || nat_eq (code c) 62

is_quote : Char → Bool
is_quote c = nat_eq (code c) 34 || nat_eq (code c) 39

-- One round of the loop: it leaves it, or goes on with a value and the next position.
pub data Round : Type 0 where
  stopped : Round
  found : String → ℕ → Round

-- The value at position `at` of `html`, whose trimmed text from there is the argument.
value_at : String → ℕ → String → Round
unfolding before ends_value is_quote
value_at html at [] = stopped
value_at html at (c ∷ s) =
    if is_quote c
    then elim (before (λ d. nat_eq (code d) (code c)) s) [
      | none ↦ stopped
      | some val ↦ found val (at + 1 + len val + 1)
    ]
    else elim (before ends_value (c ∷ s)) [
      | none ↦ found (c ∷ s) (len html)
      | some val ↦ found val (at + len val)
    ]

-- `none` is the panic of `lower[idx:]` past the end of `lower`.
round : String → String → ℕ → Option Round
unfolding value_at trim_space
round html lower idx =
    if ltb (len lower) idx
    then none
    else let rest = slice lower idx (len lower) in
      let i = find rest "href=" in
      let at = idx + i + 5 in
      if ltb (len rest) i || leb (len html) at
      then some stopped
      else some (value_at html at (trim_space (slice html at (len html))))

-- Each round that goes on moves forward, so the length of `html` is fuel enough.
values : ℕ → String → String → ℕ → Option (List String)
unfolding round trim_space
values zero html lower idx = some List.[]
values (suc n) html lower idx = elim (round html lower idx) [
  | none ↦ none
  | some stopped ↦ some List.[]
  | some (found val next) ↦ do
    rest ← if leb (len html) next then some List.[] else values n html lower next
    let kept = trim_space val
    some (if kept == "" then rest else List.◌∷◌ kept rest)
]

-- The first of each key is kept.
unfoldable pub first_by {ℓ} : {A : Type ℓ} → (A → String) → List String → List A → List A
unfolding has
first_by key seen List.[] = List.[]
first_by key seen (List.◌∷◌ x l) = elim (has (key x) seen) [
  | true ↦ first_by key seen l
  | false ↦ List.◌∷◌ x (first_by key (List.◌∷◌ (key x) seen) l)
]

-- `extractLinks`; the second argument is the text in lower case.
unfoldable pub extract_links : String → String → Option (List String)
unfolding values first_by sort
extract_links html lower = do
  out ← values (suc (len html)) html lower 0
  some (sort str_lt (λ s. s) (first_by (λ s. s) List.[] out))
