-- ===== src/Analysis/Ranking.antt =====
-- services/analysis/ranking.py: hard feasibility, then the thresholded comparators in turn.
pub mod Reference
pub mod Survivors
pub mod Rounds
pub mod Recommendation
pub mod Guarantee
use supply_response.Base.{
  String, Bool, true, false, not, ◌&&◌, ◌||◌, Option, none, some, List, [], ◌∷◌, map, length, keep,
  ◌==◌, is_some, is_none, if◌then◌else◌, contains, dedup,
}
use supply_response.Base.Int.{ℤ, pos, ◌+ℤ◌, min_ℤ, leb_ℤ}
use supply_response.Base.Order.{Order, by, sorted}
use supply_response.Base.Keys.{str_order}
use supply_response.Base.Result.{Result, ok, err, ◌>>=◌}
use supply_response.Domain.Analysis.{
  PredictedOutcome, ResponseOption, ComparatorName, uncovered_part_demand, otif_loss_percentage,
  revenue_at_risk, margin_at_risk, response_cost, approval_burden, execution_risk, option_id, Score,
  number, text, ComparatorValue, RankingStage, RankingResult,
}
use supply_response.Analysis.Error.{AnalysisError, value_error, attribute_error}

abbrev pub ranking_policy_version : String
ranking_policy_version = "thresholded-lexicographic-v1"

pub record Comparator : Type 0 where
  pub name : ComparatorName
  pub threshold : ℤ
  pub lower_is_better : Bool

abbrev lower : ComparatorName → ℤ → Comparator
lower name threshold = record { name = name; threshold = threshold; lower_is_better = true }

-- Money thresholds are in cents.
abbrev pub comparators : List Comparator
comparators =
    lower uncovered_part_demand (pos 500)
    ∷ lower otif_loss_percentage (pos 10)
    ∷ lower revenue_at_risk (pos 5000000)
    ∷ lower margin_at_risk (pos 2500000)
    ∷ lower response_cost (pos 1000000)
    ∷ lower approval_burden (pos 0)
    ∷ lower execution_risk (pos 0)
    ∷ lower option_id (pos 0)
    ∷ []

-- `getattr(option.predicted, name)`
unfoldable pub predicted_value : ComparatorName → PredictedOutcome → Result AnalysisError ℤ
predicted_value uncovered_part_demand p = ok p.uncovered_part_demand
predicted_value otif_loss_percentage p = ok p.otif_loss_percentage
predicted_value revenue_at_risk p = ok p.revenue_at_risk
predicted_value margin_at_risk p = ok p.margin_at_risk
predicted_value response_cost p = ok p.response_cost
predicted_value _ p = err attribute_error

abbrev from_predicted : ComparatorName → Option PredictedOutcome → Result AnalysisError ℤ
from_predicted name none = err value_error
from_predicted name (some p) = predicted_value name p

unfoldable pub numeric_value : ComparatorName → ResponseOption → Result AnalysisError ℤ
unfolding predicted_value
numeric_value approval_burden o = ok o.approval_burden
numeric_value execution_risk o = ok o.execution_risk
numeric_value name o = from_predicted name o.predicted

unfoldable pub numeric_values :
    ComparatorName → List ResponseOption → Result AnalysisError (List (ResponseOption × ℤ))
unfolding numeric_value
numeric_values name [] = ok []
numeric_values name (o ∷ os) = do
  v ← numeric_value name o
  vs ← numeric_values name os
  ok ((o, v) ∷ vs)

-- `min(value for _, value in …)` over a first value and the others.
unfoldable pub minimum : ℤ → List (ResponseOption × ℤ) → ℤ
minimum best [] = best
minimum best ((o, v) ∷ vs) = minimum (min_ℤ best v) vs

abbrev pub by_id : Order ResponseOption
by_id = by (λ o. o.option_id) str_order

-- `min(remaining, key=option_id)`: the first of the least.
unfoldable pub least : ResponseOption → List ResponseOption → ResponseOption
least best [] = best
least best (o ∷ os) = least (if by_id.le best o then best else o) os

abbrev pub ids : List ResponseOption → List String
ids = map (λ o. o.option_id)

-- The trace of one comparator.
unfoldable pub trace_of :
    Comparator → List ResponseOption → List ComparatorValue → List ResponseOption → RankingStage
trace_of c remaining values retained = record {
  comparator = c.name;
  threshold = c.threshold;
  lower_is_better = c.lower_is_better;
  input_option_ids = ids remaining;
  values = values;
  retained_option_ids = ids retained;
  eliminated_option_ids = keep (λ i. not (contains i (ids retained))) (ids remaining);
}

abbrev retain_near :
    Comparator → List (ResponseOption × ℤ) → Result AnalysisError (List ResponseOption)
retain_near c [] = err value_error
retain_near c ((o, v) ∷ vs) =
    let best = minimum v vs in
    ok (map (λ p. p.0) (keep (λ p. leb_ℤ p.1 (best +ℤ c.threshold)) ((o, v) ∷ vs)))

abbrev retain_least : List ResponseOption → Result AnalysisError (List ResponseOption)
retain_least [] = err value_error
retain_least (o ∷ os) = ok (least o os ∷ [])

unfoldable pub numeric_stage :
    Comparator → List ResponseOption → Result AnalysisError (RankingStage × List ResponseOption)
unfolding numeric_values minimum trace_of
numeric_stage c remaining = do
  pairs ← numeric_values c.name remaining
  retained ← retain_near c pairs
  ok (
    trace_of c remaining (map (λ p. record { option_id = p.0.option_id; value = number p.1 }) pairs)
        retained,
    retained,
  )

unfoldable pub identity_stage :
    Comparator → List ResponseOption → Result AnalysisError (RankingStage × List ResponseOption)
unfolding least trace_of
identity_stage c remaining = do
  retained ← retain_least remaining
  ok (
    trace_of c remaining
        (map (λ o. record { option_id = o.option_id; value = text o.option_id }) remaining)
        retained,
    retained,
  )

abbrev is_option_id : ComparatorName → Bool
is_option_id option_id = true
is_option_id _ = false

-- One round of the loop over the comparators.
unfoldable pub stage :
    Comparator → List ResponseOption → Result AnalysisError (RankingStage × List ResponseOption)
unfolding numeric_stage identity_stage
stage c remaining =
    if is_option_id c.name then identity_stage c remaining else numeric_stage c remaining

-- The loop: it breaks when a single option is left.
unfoldable pub run_stages :
    List Comparator
    → List ResponseOption
    → Result AnalysisError (List RankingStage × List ResponseOption)
unfolding stage
run_stages [] remaining = ok ([], remaining)
run_stages (c ∷ cs) remaining = do
  done ← stage c remaining
  let rest = run_stages cs done.1
  if length done.1 == 1
      then ok (done.0 ∷ [], done.1)
      else do more ← rest; ok (done.0 ∷ more.0, more.1)

abbrev pub has_codes : ResponseOption → Bool
has_codes o = elim o.blocking_codes [ [] ↦ false | _ ∷ _ ↦ true ]

-- Hard feasibility.
abbrev pub is_eligible : ResponseOption → Bool
is_eligible o = o.active_mitigation && o.executable && is_some o.predicted && not (has_codes o)

abbrev pub is_infeasible : ResponseOption → Bool
is_infeasible o = o.active_mitigation && (not o.executable || is_none o.predicted || has_codes o)

-- `remaining[0].option_id`
abbrev pub first_id : List ResponseOption → Option String
first_id [] = none
first_id (o ∷ os) = some o.option_id

abbrev pub eligible : List ResponseOption → List ResponseOption
eligible options = sorted by_id (keep is_eligible options)

abbrev pub recommendation :
    List String
    → List String
    → List ResponseOption
    → List RankingStage
    → List ResponseOption
    → RankingResult
recommendation infeasible excluded options stages remaining = record {
  policy_version = ranking_policy_version;
  eligible_option_ids = ids options;
  infeasible_option_ids = infeasible;
  excluded_baseline_ids = excluded;
  stages = stages;
  recommended_option_id = first_id remaining;
  no_feasible_mitigation = false;
}

unfoldable pub rank_eligible :
    List String → List String → List ResponseOption → Result AnalysisError RankingResult
unfolding run_stages
rank_eligible infeasible excluded [] = ok (record {
  policy_version = ranking_policy_version;
  eligible_option_ids = [];
  infeasible_option_ids = infeasible;
  excluded_baseline_ids = excluded;
  stages = [];
  recommended_option_id = none;
  no_feasible_mitigation = true;
})
rank_eligible infeasible excluded (o ∷ os) = do
  ran ← run_stages comparators (o ∷ os)
  ok (recommendation infeasible excluded (o ∷ os) ran.0 ran.1)

unfoldable pub infeasible_ids : List ResponseOption → List String
unfolding sorted
infeasible_ids options = sorted str_order (ids (keep is_infeasible options))

unfoldable pub excluded_ids : List ResponseOption → List String
unfolding sorted
excluded_ids options = sorted str_order (ids (keep (λ o. not o.active_mitigation) options))

-- The ranking of options without duplicates.
unfoldable pub ranked : List ResponseOption → Result AnalysisError RankingResult
unfolding rank_eligible infeasible_ids excluded_ids sorted
ranked options = rank_eligible (infeasible_ids options) (excluded_ids options) (eligible options)

unfoldable pub rank_options : List ResponseOption → Result AnalysisError RankingResult
unfolding dedup contains ranked
rank_options options =
    if length (ids options) == length (dedup (ids options)) then ranked options else err value_error
