-- ===== src/Prelude/Int64.antt =====
-- Go's `int64`, with the wrap-around of `++` and `--` at the two ends of the range.
use cann_o_call.Prelude.{
  ℕ, zero, suc, ◌-◌, ◌^◌, ◌<◌, ◌≡◌, ◌↔◌, Bool, true, false, arith, ltb, nat_eq, if◌then◌else◌,
}

-- `negsuc n` is -(n + 1).
pub data ℤ : Type 0 where
  pos : ℕ → ℤ
  negsuc : ℕ → ℤ

abbrev pub limit : ℕ
limit = 2 ^ 63

abbrev pub InRange : ℤ → Type 0
InRange (pos n) = n < limit
InRange (negsuc n) = n < limit

-- `x++`
unfoldable pub inc : ℤ → ℤ
inc (pos n) = if nat_eq (suc n) limit then negsuc (limit - 1) else pos (suc n)
inc (negsuc zero) = pos 0
inc (negsuc (suc n)) = negsuc n

-- `x--`
unfoldable pub dec : ℤ → ℤ
dec (pos zero) = negsuc 0
dec (pos (suc n)) = pos n
dec (negsuc n) = if nat_eq (suc n) limit then pos (limit - 1) else negsuc (suc n)

pub dec-inc : (x : ℤ) → InRange x → dec (inc x) ≡ x
unfolding inc dec
dec-inc (pos n) h = ground arith
dec-inc (negsuc zero) h = ground arith
dec-inc (negsuc (suc n)) h = ground arith

pub inc-pos : (n : ℕ) → suc n < limit → inc (pos n) ≡ pos (suc n)
unfolding inc
inc-pos n h = ground arith

infix 50 ◌==ℤ◌
abbrev pub ◌==ℤ◌ : ℤ → ℤ → Bool
pos m ==ℤ pos n = nat_eq m n
pos m ==ℤ negsuc n = false
negsuc m ==ℤ pos n = false
negsuc m ==ℤ negsuc n = nat_eq m n

pub int_eq_iff : (x y : ℤ) → ((x ==ℤ y) ≡ true) ↔ (x ≡ y)
int_eq_iff (pos m) (pos n) = ground arith
int_eq_iff (pos m) (negsuc n) = ground arith
int_eq_iff (negsuc m) (pos n) = ground arith
int_eq_iff (negsuc m) (negsuc n) = ground arith

-- `x < y`
abbrev pub ltb_ℤ : ℤ → ℤ → Bool
ltb_ℤ (pos m) (pos n) = ltb m n
ltb_ℤ (pos m) (negsuc n) = false
ltb_ℤ (negsuc m) (pos n) = true
ltb_ℤ (negsuc m) (negsuc n) = ltb n m
