-- ===== src/Prelude/Trim.antt =====
-- `strings.TrimSpace` and `bytes.TrimSpace`.
use Prim.Native.Char.{Char, code}
use Prim.Native.String.{[], ◌∷◌}
use cann_o_call.Prelude.{String, Bool, ◌&&◌, ◌||◌, ◌==◌, leb, nat_eq, if◌then◌else◌}

-- `unicode.IsSpace`, which the functions trim by.
is_space : Char → Bool
is_space c =
    let n = code c in
    leb 9 n && leb n 13
    || nat_eq n 32
    || nat_eq n 0x85
    || nat_eq n 0xa0
    || nat_eq n 0x1680
    || leb 0x2000 n && leb n 0x200a
    || nat_eq n 0x2028
    || nat_eq n 0x2029
    || nat_eq n 0x202f
    || nat_eq n 0x205f
    || nat_eq n 0x3000

trim_left : String → String
unfolding is_space
trim_left [] = []
trim_left (c ∷ s) = let rest = trim_left s in if is_space c then rest else c ∷ s

trim_right : String → String
unfolding is_space
trim_right [] = []
trim_right (c ∷ s) = let rest = trim_right s in if is_space c && rest == "" then [] else c ∷ rest

unfoldable pub trim_space : String → String
unfolding trim_left trim_right
trim_space s = trim_left (trim_right s)
