-- ===== src/Scoring/Select.antt =====
-- internal/scoring/selection.go: the candidates that are woken. A threshold is `none` where the source's
-- float is zero, and otherwise the least number of eightieths that reaches it, which is 0 or below
-- for a negative one.
pub mod Top
use cann_o_call.Prelude.{
  ℕ, zero, suc, Bool, true, false, List, [], ◌∷◌, filter, Option, none, some, ltb, leb,
  if◌then◌else◌,
}
use cann_o_call.Prelude.Sort.{sort}
use cann_o_call.Prelude.Sort.Ranked.{cut}
use cann_o_call.Prelude.Int64.{ℤ, pos, negsuc}
use cann_o_call.Scoring.{ScoredNode, rank, rank_lt}

pub record Config : Type 0 where
  pub threshold : Option ℤ
  pub max_candidates : ℤ
  pub max_actors_per_request : ℤ

abbrev pub default_config : Config
default_config = record {
  threshold = some (pos 80);
  max_candidates = pos 10;
  max_actors_per_request = pos 3;
}

-- A bound that is not positive is the default, and no bound is above the top.
unfoldable pub bounded : ℕ → ℤ → ℤ → ℤ
bounded top default (negsuc n) = default
bounded top default (pos zero) = default
bounded top default (pos (suc n)) = if ltb top (suc n) then pos top else pos (suc n)

abbrev pub or_default : Option ℤ → Option ℤ → Option ℤ
or_default default none = default
or_default default (some n) = some n

-- `WithDefaults`; the defaults are below the tops.
unfoldable pub with_defaults : Config → Config
unfolding bounded
with_defaults c = record {
  threshold = or_default default_config.threshold c.threshold;
  max_candidates = bounded 100 default_config.max_candidates c.max_candidates;
  max_actors_per_request =
      bounded 16 default_config.max_actors_per_request c.max_actors_per_request;
}

abbrev pub reaches : Option ℤ → ScoredNode → Bool
reaches none s = true
reaches (some (pos n)) s = leb n s.components.activation_score
reaches (some (negsuc n)) s = true

abbrev pub size : ℤ → ℕ
size (pos n) = n
size (negsuc n) = 0

-- `SelectCandidates`
unfoldable pub select_candidates : List ScoredNode → Config → List ScoredNode
unfolding with_defaults sort cut
select_candidates scored config =
    let c = with_defaults config in
    let sorted = sort rank_lt rank (filter (reaches c.threshold) scored) in
    cut (size c.max_actors_per_request) (cut (size c.max_candidates) sorted)
