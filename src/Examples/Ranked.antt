-- ===== src/Examples/Ranked.antt =====
-- The ranking of two candidates and a baseline.
use supply_response.Base.{
  ◌≡◌, refl, String, Bool, true, false, none, some, is_none, List, [], ◌∷◌, length, ◌+◌, Permᴰ,
  dedup, str_leb,
}
use supply_response.Base.Int.{ℤ, pos, ◌+ℤ◌, min_ℤ}
use supply_response.Base.Result.{Result, ok, err}
use supply_response.Domain.Common.{transfer}
use supply_response.Domain.Analysis.{ResponseOption, RankingResult, PredictedOutcome}
use supply_response.Analysis.Error.{AnalysisError, value_error}
use supply_response.Analysis.Ranking.{rank_options, comparators, first_id, eligible}
use supply_response.Analysis.Ranking.Reference.{reference}
use supply_response.Analysis.Ranking.Rounds.{Trace}
use supply_response.Analysis.Ranking.Recommendation.{
  Distinct, test-Distinct, rank_options-duplicate, rank_options-reference, rank_options-Permᴰ,
}
use supply_response.Analysis.Ranking.Guarantee.{
  Recommendable, rank_options-Recommendable, rank_options-classes, rank_options-Trace,
}

abbrev outcome : ℤ → PredictedOutcome
outcome uncovered = record {
  uncovered_part_demand = uncovered;
  otif_loss_percentage = pos 50;
  revenue_at_risk = pos 1000;
  margin_at_risk = pos 100;
  response_cost = pos 2500;
  protected_customer_order_ids = [];
}

abbrev candidate : String → ℤ → Bool → ResponseOption
candidate i uncovered active = record {
  option_id = i;
  option_kind = transfer;
  name = i;
  executable = true;
  active_mitigation = active;
  predicted = some (outcome uncovered);
  assumptions = [];
  evidence_ids = [];
  evidence_requirements = [];
  blocking_codes = [];
  prerequisite_roles = [];
  source_data_lineage = [];
  approval_burden = pos 1;
  execution_risk = pos 0;
  requested_side_effects = [];
}

abbrev first : ResponseOption
first = candidate "A" (pos 900) true

abbrev second : ResponseOption
second = candidate "B" (pos 300) true

abbrev baseline : ResponseOption
baseline = candidate "BASE" (pos 5000) false

abbrev candidates : List ResponseOption
candidates = second ∷ baseline ∷ first ∷ []

abbrev shuffled : List ResponseOption
shuffled = baseline ∷ second ∷ first ∷ []

candidates-Distinct : Distinct candidates
unfolding dedup
candidates-Distinct = test-Distinct candidates refl

abbrev no_ranking : RankingResult
no_ranking = record {
  policy_version = "";
  eligible_option_ids = [];
  infeasible_option_ids = [];
  excluded_baseline_ids = [];
  stages = [];
  recommended_option_id = none;
  no_feasible_mitigation = true;
}

abbrev or_else : Result AnalysisError RankingResult → RankingResult
or_else (ok r) = r
or_else (err e) = no_ranking

unfoldable ranking : RankingResult
unfolding rank_options ◌+ℤ◌ min_ℤ str_leb
ranking = or_else (rank_options candidates)

ranked_candidates : rank_options candidates ≡ ok ranking
unfolding rank_options ranking ◌+ℤ◌ min_ℤ str_leb
ranked_candidates = refl

recommended : ranking.recommended_option_id ≡ some "B"
unfolding rank_options ranking ◌+ℤ◌ min_ℤ str_leb
recommended = refl

rank_options-reference_example :
    (r : RankingResult) × (rank_options candidates ≡ ok r)
    × (r.recommended_option_id ≡ first_id (reference comparators (eligible candidates)))
    × (r.no_feasible_mitigation ≡ is_none r.recommended_option_id)
rank_options-reference_example = rank_options-reference candidates candidates-Distinct

rank_options-Recommendable_example :
    (w : ResponseOption) × (w.option_id ≡ "B") × Recommendable candidates w
rank_options-Recommendable_example =
    rank_options-Recommendable candidates ranking "B" candidates-Distinct ranked_candidates
      recommended

rank_options-Permᴰ_example : rank_options candidates ≡ rank_options shuffled
rank_options-Permᴰ_example =
    rank_options-Permᴰ candidates shuffled candidates-Distinct (Permᴰ.swap refl refl)

rank_options-classes_example :
    length ranking.eligible_option_ids
      + length ranking.infeasible_option_ids
      + length ranking.excluded_baseline_ids
    ≡ 3
rank_options-classes_example = rank_options-classes candidates ranking ranked_candidates

eligible-candidates : eligible candidates ≡ first ∷ second ∷ []
unfolding rank_options str_leb
eligible-candidates = refl

rank_options-Trace_example :
    Trace comparators
      (first ∷ second ∷ [])
      ranking.stages
      (reference comparators (first ∷ second ∷ []))
rank_options-Trace_example =
    rank_options-Trace candidates ranking first (second ∷ []) candidates-Distinct
      eligible-candidates ranked_candidates

not-Distinct : Distinct (first ∷ first ∷ []) → ⊥
unfolding str_leb
not-Distinct h = h.0.0 refl refl

rank_options-duplicate_example : rank_options (first ∷ first ∷ []) ≡ err value_error
rank_options-duplicate_example = rank_options-duplicate (first ∷ first ∷ []) not-Distinct
