-- ===== src/Prelude/Decimal.antt =====
-- `%d` and `%06d` of a number that is not negative.
use Prim.Native.Char.{Char, code}
use Prim.Native.String.{[], ◌∷◌, ◌++◌, char_at, count}
use cann_o_call.Prelude.{
  ℕ, zero, suc, ◌+◌, ◌-◌, ◌*◌, ◌/◌, ◌%◌, ◌<◌, ◌≡◌, refl, sym, ap, subst, ◌∙◌, String, Bool, true,
  false, inl, inr, arith, ltb, nat_eq, if◌then◌else◌, Bool-cases,
}
use cann_o_call.Prelude.Int64.{ℤ, pos, negsuc}

digit : ℕ → Char
digit d = char_at "0123456789" d

emit : ℕ → ℕ → String → String
unfolding digit
emit zero n out = out
emit (suc fuel) n out =
    let rest = emit fuel (n / 10) (digit (n % 10) ∷ out) in if ltb n 10 then digit n ∷ out else rest

unfoldable pub decimal : ℕ → String
unfolding emit
decimal n = emit (suc n) n ""

zeros : ℕ → String → String
unfolding digit
zeros zero s = s
zeros (suc k) s = digit 0 ∷ zeros k s

unfoldable pub padded : ℕ → String
unfolding zeros decimal
padded n = let s = decimal n in zeros (6 - count s) s

-- `%d` and `%06d`, with the sign.
unfoldable pub int_text : ℤ → String
unfolding decimal
int_text (pos n) = decimal n
int_text (negsuc n) = "-" ++ decimal (suc n)

unfoldable pub padded_int : ℤ → String
unfolding padded zeros decimal
padded_int (pos n) = padded n
padded_int (negsuc n) = let s = decimal (suc n) in "-" ++ zeros (5 - count s) s

-- The number that digits stand for, after the number `a`.
value : ℕ → String → ℕ
value a [] = a
value a (c ∷ s) = value (a * 10 + (code c - 48)) s

-- The digits below a number read back as themselves.
read_back : ℕ → Bool
unfolding digit
read_back zero = true
read_back (suc d) = let rest = read_back d in if nat_eq (code (digit d) - 48) d then rest else false

code-digit_from : (n d : ℕ) → read_back n ≡ true → d < n → code (digit d) - 48 ≡ d
unfolding read_back
code-digit_from zero d h k = absurd (omega arith)
code-digit_from (suc n) d h k = elim (Bool-cases (nat_eq d n)) [
  | inl e ↦
      let same : d ≡ n = ground arith in
      subst (λ m. code (digit m) - 48 ≡ m) (sym same) (ground arith)
  | inr e ↦ code-digit_from n d (ground arith) (ground arith)
]

ten_digits : read_back 10 ≡ true
unfolding read_back
ten_digits = refl

code-digit : (d : ℕ) → d < 10 → code (digit d) - 48 ≡ d
code-digit d h = code-digit_from 10 d ten_digits h

value-emit : (fuel n : ℕ) (out : String) → n < fuel → value 0 (emit fuel n out) ≡ value n out
unfolding value emit
value-emit zero n out h = absurd (omega arith)
value-emit (suc fuel) n out h = elim (Bool-cases (ltb n 10)) [
  | inl small ↦ rw small (ap (λ a. value a out) (ground (arith, code-digit n)))
  | inr big ↦ rw big (
      value-emit fuel (n / 10) (digit (n % 10) ∷ out) (ground arith)
      ∙ ap (λ a. value a out) (ground (arith, code-digit (n % 10))))
]

value-zeros : (k : ℕ) (s : String) → value 0 (zeros k s) ≡ value 0 s
unfolding value zeros
value-zeros zero s = refl
value-zeros (suc k) s = value-zeros k s

-- Two numbers that are written alike are one number.
pub padded-injective : (m n : ℕ) → padded m ≡ padded n → m ≡ n
unfolding padded value
padded-injective m n h = sym (read m) ∙ ap (value 0) h ∙ read n
  where
    read : (k : ℕ) → value 0 (zeros (6 - count (decimal k)) (decimal k)) ≡ k
    read k = value-zeros (6 - count (decimal k)) (decimal k) ∙ value-emit (suc k) k "" (omega arith)
