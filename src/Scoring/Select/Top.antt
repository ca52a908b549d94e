-- ===== src/Scoring/Select/Top.antt =====
-- What `SelectCandidates` leaves out.
use mathlib.Core.List.{Permᴰ}
use cann_o_call.Prelude.{
  ℕ, zero, suc, ◌≤◌, ◌≡◌, ◌⊎◌, sym, subst, String, false, List, [], ◌++◌, All, All-map, filter,
  length, arith,
}
use cann_o_call.Prelude.Text.{str_lt-IsOrder}
use cann_o_call.Prelude.Sort.{IsOrder, sort}
use cann_o_call.Prelude.Sort.Ranked.{
  beyond, least, cut, cut-cut, cut-beyond, cut-full, length-cut, sort-IsRanked, beyond-below,
}
use cann_o_call.Prelude.Sort.Permute.{Perm-sort}
use cann_o_call.Prelude.Int64.{ℤ, pos, negsuc}
use cann_o_call.Scoring.{ScoredNode, rank, rank_lt}
use cann_o_call.Scoring.Select.{Config, bounded, with_defaults, reaches, size, select_candidates}

rank_lt-IsOrder : IsOrder rank_lt
rank_lt-IsOrder = record {
  trans = λ x y z h k. ground (arith, h, k, str_lt-IsOrder.trans x.2 y.2 z.2);
  asym = λ x y h. ground (arith, h, str_lt-IsOrder.asym x.2 y.2);
  total = λ x y h k. total x y h k;
}
  where
    total : (x y : ℕ × ℕ × String) → rank_lt x y ≡ false → rank_lt y x ≡ false → x ≡ y
    total (a, r, n) (b, q, m) h k = ground (arith, h, k, str_lt-IsOrder.total n m)

-- The number of nodes that one request may wake.
abbrev pub wake_limit : Config → ℕ
wake_limit config =
    let c = with_defaults config in least (size c.max_actors_per_request) (size c.max_candidates)

bounded_le :
    (top d : ℕ) (x : ℤ)
    → suc d ≤ top
    → (1 ≤ size (bounded top (pos (suc d)) x)) × (size (bounded top (pos (suc d)) x) ≤ top)
unfolding bounded
bounded_le top d (negsuc n) h = (omega (arith), h)
bounded_le top d (pos zero) h = (omega (arith), h)
bounded_le top d (pos (suc n)) h = ground (arith, h)

wake_limit_le : (config : Config) → (1 ≤ wake_limit config) × (wake_limit config ≤ 16)
unfolding with_defaults
wake_limit_le config =
    let c = bounded_le 100 9 config.max_candidates (omega arith) in
    let a = bounded_le 16 2 config.max_actors_per_request (omega arith) in ground (arith, c, a)

-- What ranks no higher has no greater score.
outscored :
    (chosen out : List ScoredNode)
    → All (λ z. All (λ y. rank_lt (rank z) (rank y) ≡ false) chosen) out
    → All (λ z. All (λ y. z.components.activation_score ≤ y.components.activation_score) chosen) out
outscored chosen out h = All-map _ _ out (λ z. All-map _ _ chosen (λ y e. ground (arith, e))) h

pub select_candidates-top :
    (scored : List ScoredNode) (config : Config)
    → let chosen = select_candidates scored config in
      (out : List ScoredNode) × Permᴰ
        (filter (reaches (with_defaults config).threshold) scored)
        (chosen ++ out)
      × All (λ z. All (λ y. rank_lt (rank z) (rank y) ≡ false) chosen) out
      × (length chosen ≤ wake_limit config)
      × ((out ≡ []) ⊎ (length chosen ≡ wake_limit config))
      × (1 ≤ wake_limit config)
      × (wake_limit config ≤ 16)
      × All
          (λ z. All (λ y. z.components.activation_score ≤ y.components.activation_score) chosen)
          out
unfolding select_candidates
select_candidates-top scored config =
    let c = with_defaults config in
    let fit = filter (reaches c.threshold) scored in
    let sorted = sort rank_lt rank fit in
    let n = wake_limit config in
    let same = cut-cut (size c.max_actors_per_request) (size c.max_candidates) sorted in
    let bound = wake_limit_le config in
    subst
      (λ (chosen : List ScoredNode).
        (out : List ScoredNode) × Permᴰ fit (chosen ++ out)
        × All (λ z. All (λ y. rank_lt (rank z) (rank y) ≡ false) chosen) out
        × (length chosen ≤ n)
        × ((out ≡ []) ⊎ (length chosen ≡ n))
        × (1 ≤ n)
        × (n ≤ 16)
        × All (λ z. All (λ y. z.components.activation_score ≤ y.components.activation_score) chosen)
            out)
      (sym same)
      (
        beyond n sorted,
        subst (Permᴰ fit) (sym (cut-beyond n sorted)) (Perm-sort rank_lt rank fit),
        beyond-below rank_lt-IsOrder rank n sorted (sort-IsRanked rank_lt-IsOrder rank fit),
        length-cut n sorted,
        cut-full n sorted,
        bound.0,
        bound.1,
        outscored (cut n sorted) (beyond n sorted)
            (beyond-below rank_lt-IsOrder rank n sorted (sort-IsRanked rank_lt-IsOrder rank fit)),
      )
