-- ===== src/Examples/Presenter.antt =====
-- Three presenter runs, of which one of the older ones is kept.
use supply_response.Base.{ℕ, ◌≡◌, refl, String, true, some, none, List, [], ◌∷◌, str_leb}
use supply_response.Base.Int.{pos}
use supply_response.Base.Result.{ok}
use supply_response.Domain.Common.{live, showcase}
use supply_response.Persistence.Presenter.{
  CaseRow, PresenterRetentionPlan, eligible, plan_presenter_retention, Bounded,
  plan_presenter_retention-Bounded,
}

abbrev row : String → ℕ → CaseRow
row i at = record {
  case_id = i;
  runtime_mode = live;
  purpose = showcase;
  recorded_at = at;
  decoded =
      some record { case_id = i; runtime_mode = live; purpose = showcase; supplier_bound = true };
}

abbrev rows : List CaseRow
rows = row "RL-CASE-A" 10 ∷ row "RL-CASE-C" 30 ∷ row "RL-CASE-B" 20 ∷ []

abbrev plan : PresenterRetentionPlan
plan = record {
  current_case_id = "RL-CASE-C";
  retained_case_ids = "RL-CASE-C" ∷ "RL-CASE-B" ∷ [];
  pruned_case_ids = "RL-CASE-A" ∷ [];
}

planned : plan_presenter_retention rows none (pos 1) ≡ ok plan
unfolding plan_presenter_retention str_leb
planned = refl

plan_presenter_retention-Bounded_example :
    (ids : List String) × (eligible rows ≡ ok ids) × Bounded 1 ids "RL-CASE-A" plan
plan_presenter_retention-Bounded_example =
    plan_presenter_retention-Bounded rows none 1 "RL-CASE-A" plan planned
