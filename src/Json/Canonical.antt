-- ===== src/Json/Canonical.antt =====
-- `writeCanonical` of internal/transition/authority.go (and its copy in internal/graph/graph.go), with
-- what it calls of `encoding/json`: the quoting of a text and the check of a number's text.
pub mod Order
use Prim.Native.Char.{Char, code}
use Prim.Native.String.{[], ◌∷◌, char_at}
use Prim.Native.String
use mathlib.Core.List
use cann_o_call.Prelude.{
  ◌≡◌, refl, ℕ, ◌-◌, ◌/◌, ◌%◌, String, Bool, true, false, ◌&&◌, ◌||◌, List, Option, none, some, map,
  leb, ltb, nat_eq, if◌then◌else◌, ◌>>=◌,
}
use cann_o_call.Prelude.Text.{str_lt}
use cann_o_call.Prelude.Sort.{sort}
use cann_o_call.Json.{
  Json, Items, Fields, null, bool, text, number, array, object, raw, nil, cons, end, field,
}

unfoldable pub concat : List String → String
concat List.[] = ""
concat (List.◌∷◌ s r) = String.◌++◌ s (concat r)

-- Texts with commas between them.
comma_separated : List String → String
unfolding concat
comma_separated List.[] = ""
comma_separated (List.◌∷◌ s List.[]) = s
comma_separated (List.◌∷◌ s r) =
    let rest = comma_separated r in concat (List.◌∷◌ s (List.◌∷◌ "," (List.◌∷◌ rest List.[])))

hex_digit : ℕ → Char
hex_digit d = char_at "0123456789abcdef" d

-- `\u` and four hexadecimal digits, before `s`
unicode_escape : ℕ → String → String
unfolding hex_digit
unicode_escape n s = String.◌++◌ "\\u" (
    hex_digit (n / 4096 % 16)
    ∷ hex_digit (n / 256 % 16)
    ∷ hex_digit (n / 16 % 16)
    ∷ hex_digit (n % 16)
    ∷ s)

-- `json.Marshal` of a text escapes control characters, `"`, `\`, the characters `<`, `>` and `&`, and the
-- separators U+2028 and U+2029.
escape : Char → String → String
unfolding unicode_escape
escape c s =
    let n = code c in
    if nat_eq n 34
    then String.◌++◌ "\\\"" s
    else if nat_eq n 92
    then String.◌++◌ "\\\\" s
    else if nat_eq n 8
    then String.◌++◌ "\\b" s
    else if nat_eq n 12
    then String.◌++◌ "\\f" s
    else if nat_eq n 10
    then String.◌++◌ "\\n" s
    else if nat_eq n 13
    then String.◌++◌ "\\r" s
    else if nat_eq n 9
    then String.◌++◌ "\\t" s
    else if ltb n 32
        || nat_eq n 60
        || nat_eq n 62
        || nat_eq n 38
        || nat_eq n 0x2028
        || nat_eq n 0x2029
    then unicode_escape n s
    else c ∷ s

escaped : String → String
unfolding escape
escaped [] = "\""
escaped (c ∷ s) = escape c (escaped s)

unfoldable pub quote : String → String
unfolding escaped
quote s = String.◌++◌ "\"" (escaped s)

is_digit : Char → Bool
is_digit c = leb b'0' (code c) && leb (code c) b'9'

skip_digits : String → String
unfolding is_digit
skip_digits [] = []
skip_digits (c ∷ s) = let rest = skip_digits s in if is_digit c then rest else c ∷ s

-- `none` where no integer part begins.
integer_part : String → Option String
unfolding skip_digits
integer_part [] = none
integer_part (c ∷ s) =
    if nat_eq (code c) b'0' then some s else if is_digit c then some (skip_digits s) else none

fraction : String → String
unfolding skip_digits
fraction (p ∷ d ∷ s) = if nat_eq (code p) b'.' && is_digit d then skip_digits s else p ∷ d ∷ s
fraction s = s

signed_digits : String → Option String
unfolding skip_digits
signed_digits [] = some []
signed_digits (c ∷ []) =
    if nat_eq (code c) b'+' || nat_eq (code c) b'-' then none else some (skip_digits (c ∷ []))
signed_digits (c ∷ s) =
    some (skip_digits (if nat_eq (code c) b'+' || nat_eq (code c) b'-' then s else c ∷ s))

exponent : String → Option String
unfolding signed_digits
exponent (e ∷ d ∷ s) =
    if nat_eq (code e) b'e' || nat_eq (code e) b'E' then signed_digits (d ∷ s) else some (e ∷ d ∷ s)
exponent s = some s

drop_minus : String → String
drop_minus [] = []
drop_minus (c ∷ s) = if nat_eq (code c) b'-' then s else c ∷ s

-- `json.Marshal` of a `json.Number`: the empty text stands for 0, any other must be a number.
unfoldable pub is_number : String → Bool
unfolding integer_part fraction exponent drop_minus
is_number [] = true
is_number s = elim (integer_part (drop_minus s) >>= λ r. exponent (fraction r)) [
  | none ↦ false
  | some [] ↦ true
  | some (c ∷ r) ↦ false
]

-- A member of an object with its value written.
abbrev pub Member : Type 0
Member = String × String

abbrev pub name : Member → String
name m = m.0

write_member : Member → String
unfolding concat quote
write_member (k, v) = concat (List.◌∷◌ (quote k) (List.◌∷◌ ":" (List.◌∷◌ v List.[])))

unfoldable pub write_array : List String → String
unfolding comma_separated concat
write_array items = concat (List.◌∷◌ "[" (List.◌∷◌ (comma_separated items) (List.◌∷◌ "]" List.[])))

render : List Member → String
unfolding comma_separated concat write_member
render members =
    concat
      (List.◌∷◌ "{" (List.◌∷◌ (comma_separated (map write_member members)) (List.◌∷◌ "}" List.[])))

-- `sort.Strings(keys)`, and then the members in that order.
unfoldable pub write_object : List Member → String
unfolding render sort
write_object members = render (sort str_lt name members)

-- `none` is an error: a number that is none, or a value of a type that has no case.
unfoldable mutual
  unfolding quote is_number write_array write_object

  pub write_canonical : Json → Option String
  write_canonical null = some "null"
  write_canonical (bool true) = some "true"
  write_canonical (bool false) = some "false"
  write_canonical (text s) = some (quote s)
  write_canonical (number s) = if is_number s then some s else none
  write_canonical (array items) = do written ← write_items items; some (write_array written)
  write_canonical (object fields) = do members ← write_fields fields; some (write_object members)
  write_canonical (raw s) = none

  pub write_items : Items → Option (List String)
  write_items nil = some List.[]
  write_items (cons v items) = do
    here ← write_canonical v
    rest ← write_items items
    some (List.◌∷◌ here rest)

  pub write_fields : Fields → Option (List Member)
  write_fields end = some List.[]
  write_fields (field k v fields) = do
    here ← write_canonical v
    rest ← write_fields fields
    some (List.◌∷◌ (k, here) rest)
