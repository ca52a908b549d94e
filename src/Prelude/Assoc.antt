-- ===== src/Prelude/Assoc.antt =====
-- Go's `map[string]T` as the list of its entries, and the set of keys of such a map.
use cann_o_call.Prelude.{
  String, Bool, true, false, List, [], ◌∷◌, Option, none, some, ◌==◌, if◌then◌else◌,
}

module _ {ℓ} {A : Type ℓ} where
  -- `m[k]`
  unfoldable pub find : String → List (String × A) → Option A
  find k [] = none
  find k ((j, x) ∷ m) = if k == j then some x else find k m

  -- `delete(m, k)`
  unfoldable pub remove : String → List (String × A) → List (String × A)
  remove k [] = []
  remove k ((j, x) ∷ m) = let rest = remove k m in if k == j then rest else (j, x) ∷ rest

  -- `m[k] = x`
  unfoldable pub put : String → A → List (String × A) → List (String × A)
  unfolding remove
  put k x m = (k, x) ∷ remove k m

unfoldable pub has : String → List String → Bool
has k [] = false
has k (j ∷ ks) = let rest = has k ks in if k == j then true else rest

unfoldable pub without : String → List String → List String
without k [] = []
without k (j ∷ ks) = let rest = without k ks in if k == j then rest else j ∷ rest

unfoldable pub with_key : String → List String → List String
unfolding without
with_key k ks = k ∷ without k ks
