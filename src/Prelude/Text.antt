-- ===== src/Prelude/Text.antt =====
-- The order of texts, as Go's `<` on strings: bytes, which for UTF-8 is the order of code points.
use Prim.Native.Nat.{Ordering}
use Prim.Native.String.compare
use Prim.Native.String.{[], ◌∷◌, compare}
use text.Mathlib.Text.{is_lt}
use text.Mathlib.TextEquality.{path_by_compare}
use cann_o_call.Prelude.{◌≡◌, String, Bool, true, arith}
use cann_o_call.Prelude.Sort.{IsOrder}

-- Go's `s < t`
abbrev pub str_lt : String → String → Bool
str_lt s t = is_lt (compare s t)

abbrev flip : Ordering → Ordering
flip Ordering.lt = Ordering.gt
flip Ordering.eq = Ordering.eq
flip Ordering.gt = Ordering.lt

compare-flip : (s t : String) → compare t s ≡ flip (compare s t)
compare-flip [] [] = ground (arith, compare.nil-nil)
compare-flip [] (d ∷ t) = ground (arith, compare.nil-cons d t, compare.cons-nil d t)
compare-flip (c ∷ s) [] = ground (arith, compare.nil-cons c s, compare.cons-nil c s)
compare-flip (c ∷ s) (d ∷ t) =
    ground (arith, compare.cons-cons c d s t, compare.cons-cons d c t s, compare-flip s t)

str_lt_trans : (s t u : String) → str_lt s t ≡ true → str_lt t u ≡ true → str_lt s u ≡ true
str_lt_trans s [] [] h k = ground (arith, compare.nil-nil)
str_lt_trans [] [] (e ∷ u) h k = ground (arith, compare.nil-cons e u)
str_lt_trans (c ∷ s) [] u h k = ground (arith, compare.cons-nil c s)
str_lt_trans s (d ∷ t) [] h k = ground (arith, compare.cons-nil d t)
str_lt_trans [] (d ∷ t) (e ∷ u) h k = ground (arith, compare.nil-cons e u)
str_lt_trans (c ∷ s) (d ∷ t) (e ∷ u) h k = ground (
  arith,
  compare.cons-cons c d s t,
  compare.cons-cons d e t u,
  compare.cons-cons c e s u,
  str_lt_trans s t u,
)

pub str_lt-IsOrder : IsOrder str_lt
str_lt-IsOrder = record {
  trans = str_lt_trans;
  asym = λ s t h. ground (arith, compare-flip s t);
  total = λ s t h k. path_by_compare s t (ground (arith, compare-flip s t));
}
