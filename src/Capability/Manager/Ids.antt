-- ===== src/Capability/Manager/Ids.antt =====
-- The transition ids that `BuildProposedTransition` makes, which are cut to 64 bytes.
use Prim.Native.Nat.{compare}
use Prim.Native.Char.{len_utf8}
use Prim.Native.String.{[], ◌∷◌, ◌++◌, len, slice, fits}
use Prim.Native.String.append
use Prim.Native.String.len
use Prim.Native.String.slice
use cann_o_call.Prelude.{ℕ, ◌-◌, ◌<◌, ◌≤◌, ◌≡◌, sym, ap, ◌∙◌, subst, String, arith, ltb, true}
use cann_o_call.Capability.Manager.{transition_id_of}
use text.Mathlib.TextPositions.{len-append, slice-zero-zero}
use text.Mathlib.TextLemmas.{append_assoc}

-- What stands in the first bytes of a text does not depend on what follows them.
slice-prefix_same : (u s t : String) (k : ℕ) → k ≤ len u → slice (u ++ s) 0 k ≡ slice (u ++ t) 0 k
slice-prefix_same [] s t k h =
    let none_left : k ≡ 0 = omega (arith, h, len.nil) in
    subst (λ n. slice ([] ++ s) 0 n ≡ slice ([] ++ t) 0 n) (sym none_left)
      (slice-zero-zero ([] ++ s) ∙ sym (slice-zero-zero ([] ++ t)))
slice-prefix_same (c ∷ u) s t k h =
    let rest = slice-prefix_same u s t (k - len_utf8 c) (omega (arith, h, len.cons c u)) in
    ap (λ v. slice v 0 k) (append.cons c u s)
    ∙ slice.cons-zero c (u ++ s) k
    ∙ ap (λ v. fits (compare (len_utf8 c) k) c v) rest
    ∙ sym (slice.cons-zero c (u ++ t) k)
    ∙ ap (λ v. slice v 0 k) (sym (append.cons c u t))

cut : (u s : String) → 64 < len u → ltb 64 (len (u ++ s)) ≡ true
cut u s h = ground (arith, h, len-append u s)

-- If the capability's id and the beginning `p` of two request ids fill more than the 64 bytes, the
-- two requests are proposed under one transition id, whatever follows `p`.
pub transition_id_cut :
    (capability_id p s t : String)
    → 64 < len ("cap-" ++ capability_id ++ "-" ++ p)
    → transition_id_of capability_id (p ++ s) ≡ transition_id_of capability_id (p ++ t)
unfolding transition_id_of
transition_id_cut capability_id p s t h =
    let u = "cap-" ++ capability_id ++ "-" ++ p in
    let joined : (v : String) → "cap-" ++ capability_id ++ "-" ++ (p ++ v) ≡ u ++ v = (λ v. sym (
      append_assoc "cap-" (capability_id ++ "-" ++ p) v
      ∙ ap (λ x. "cap-" ++ x)
          (append_assoc capability_id ("-" ++ p) v
            ∙ ap (λ x. capability_id ++ x) (append_assoc "-" p v)))) in
    rw (joined s, joined t, cut u s h, cut u t h) (slice-prefix_same u s t 64 (omega (arith, h)))
