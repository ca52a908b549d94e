-- ===== src/Diff/Examples.antt =====
-- The difference of two texts of three lines.
use cann_o_call.Prelude.{◌≤◌, ◌≡◌, refl, String, [], ◌∷◌, length}
use cann_o_call.Diff.{split_lines, lines, unified}
use cann_o_call.Diff.Recover.{old_side, new_side, numbered, lines-Recovers}
use cann_o_call.Diff.Optimal.{Common, done, both, kept, lines-Longest}

abbrev before : String
before = "a\r\nb\nc\n"

abbrev after : String
after = "a\nx\nc"

unified_sample : unified before after "f" ≡ "--- f\n+++ f\n a\n-b\n+x\n c\n"
unfolding unified
unified_sample = refl

lines-Recovers_example :
    (old_side (lines before after) ≡ numbered 1 (split_lines before))
    × (new_side (lines before after) ≡ numbered 1 (split_lines after))
lines-Recovers_example = lines-Recovers before after

Common-first : Common ("a" ∷ []) (split_lines before) (split_lines after)
unfolding split_lines
Common-first = both "a" (done ("b" ∷ "c" ∷ []) ("x" ∷ "c" ∷ []))

lines-Longest_example :
    Common (kept (lines before after)) (split_lines before) (split_lines after)
    × (length {A = String} ("a" ∷ []) ≤ length (kept (lines before after)))
lines-Longest_example = lines-Longest before after ("a" ∷ []) Common-first
