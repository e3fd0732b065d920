-- ===== src/Examples/Scenario.antt =====
-- The analysis of the RL-001 scenario.
use supply_response.Base.{
  ◌≡◌, refl, true, false, none, some, is_some, leb, arith, List, [], ◌∷◌, All, str_eq, ◌++◌,
  str_leb,
}
use supply_response.Base.Int.{pos, ◌+ℤ◌, ◌-ℤ◌, ◌*ℤ◌, max_ℤ, min_ℤ}
use supply_response.Base.Result.{Result, ok, err}
use supply_response.Domain.Common.{fallback}
use supply_response.Domain.Operations.{ProductionOrder, opened}
use supply_response.Domain.Analysis.{TimedQuantity, ResponseOption, RankingResult}
use supply_response.Domain.Snapshot.{
  OperationalSnapshot, rl001, rl001_orders, first_order, second_order, september,
}
use supply_response.Analysis.Error.{AnalysisError, value_error, zero_division_error}
use supply_response.Analysis.Exposure.{
  get, ComponentSupplyAllocation, OrderAllocation, allocate_component_supply,
}
use supply_response.Analysis.Exposure.Allocation.{
  allocate_component_supply-shortfall, allocate_component_supply-missing,
}
use supply_response.Analysis.Exposure.Shortfall.{shortfall}
use supply_response.Analysis.Exposure.Conservation.{
  allocate_component_supply-conserves, Unserved, units, total_demand,
}
use supply_response.Analysis.Exposure.Supply.{supply_on}
use supply_response.Analysis.Exposure.Late.{arriving, allocate_component_supply-late}
use supply_response.Analysis.Ranking.{rank_options}
use supply_response.Analysis.Options.Evaluate.{evaluate_response_options}
use supply_response.Analysis.Options.Total.{evaluate-Returns, evaluate-no_orders, Recorded, Returns}
use supply_response.Analysis.Options.Consistent.{
  Consistent, evaluate-Consistent, rank_options-evaluate, rank_options-beta,
}

abbrev scenario : OperationalSnapshot
scenario = rl001 "RL-CASE-1" fallback

-- The result of a computation that is known to succeed, or a default.
abbrev or_else {ℓ} : {A : Type ℓ} → A → Result AnalysisError A → A
or_else d (ok a) = a
or_else d (err e) = d

abbrev expedite : List TimedQuantity
expedite =
    record { date = september 6; quantity = pos 3000; source_id = "RL-ALPHA-OPTIONAL-3000" } ∷ []

abbrev dallas_transfer : List TimedQuantity
dallas_transfer = record { date = september 5; quantity = pos 1500; source_id = "RL-TRANSFER" } ∷ []

allocate_component_supply-shortfall_example :
    (r : ComponentSupplyAllocation) × (allocate_component_supply
        (pos 4000)
        expedite
        dallas_transfer
        rl001_orders
      ≡ ok r)
    × (r.uncovered_component_units
        ≡ shortfall (pos 4000) (expedite ++ dallas_transfer) none 0 (pos 0) rl001_orders)
allocate_component_supply-shortfall_example =
    allocate_component_supply-shortfall (pos 4000) expedite dallas_transfer rl001_orders refl

unfoldable evaluated : List ResponseOption
unfolding evaluate_response_options
evaluated = or_else [] (evaluate_response_options scenario)

evaluated_options : evaluate_response_options scenario ≡ ok evaluated
unfolding evaluate_response_options evaluated ◌-ℤ◌ min_ℤ ◌+ℤ◌
evaluated_options = refl

abbrev no_ranking : RankingResult
no_ranking = record {
  policy_version = "";
  eligible_option_ids = [];
  infeasible_option_ids = [];
  excluded_baseline_ids = [];
  stages = [];
  recommended_option_id = none;
  no_feasible_mitigation = true;
}

unfoldable ranking : RankingResult
unfolding rank_options evaluated ◌-ℤ◌ min_ℤ ◌+ℤ◌
ranking = or_else no_ranking (rank_options evaluated)

ranked_options : rank_options evaluated ≡ ok ranking
unfolding rank_options evaluated ranking ◌-ℤ◌ min_ℤ ◌+ℤ◌ ◌*ℤ◌ max_ℤ str_leb
ranked_options = refl

recommended : ranking.recommended_option_id ≡ some "RL-OPTION-COMBINED"
unfolding rank_options evaluated ranking ◌-ℤ◌ min_ℤ ◌+ℤ◌ ◌*ℤ◌ max_ℤ str_leb
recommended = refl

abbrev missing_demand : List ProductionOrder
missing_demand =
    record {
      production_order_id = "RL-MO-DEMO-3";
      product_id = "RL-PROD-00000";
      plant_id = "RL-PLANT-CHI";
      quantity = 10;
      due_date = september 8;
      status = opened;
      component_demand = none;
      customer_order_id = none;
      customer_priority = none;
      customer_revenue = none;
      customer_margin = none;
    }
    ∷ []

allocate_component_supply-missing_example :
    allocate_component_supply (pos 4000) expedite [] missing_demand ≡ err value_error
allocate_component_supply-missing_example =
    allocate_component_supply-missing (pos 4000) expedite [] missing_demand refl

unfoldable allocated : ComponentSupplyAllocation
unfolding allocate_component_supply ◌-ℤ◌ min_ℤ ◌+ℤ◌
allocated =
    or_else (record { by_production_order_id = []; uncovered_component_units = pos 0 })
      (allocate_component_supply (pos 4000) expedite dallas_transfer rl001_orders)

allocated_orders :
    allocate_component_supply (pos 4000) expedite dallas_transfer rl001_orders ≡ ok allocated
unfolding allocate_component_supply allocated ◌-ℤ◌ min_ℤ ◌+ℤ◌
allocated_orders = refl

rl001_orders-Unserved : Unserved [] rl001_orders
unfolding get
rl001_orders-Unserved = (refl, (refl, tt), (refl, tt, tt))

allocate_component_supply-conserves_example :
    (units allocated.by_production_order_id +ℤ allocated.uncovered_component_units
      ≡ pos (total_demand rl001_orders))
    × All
        (λ o. is_some (get o.production_order_id allocated.by_production_order_id) ≡ true)
        rl001_orders
allocate_component_supply-conserves_example =
    allocate_component_supply-conserves (pos 4000) expedite dallas_transfer rl001_orders allocated
      rl001_orders-Unserved allocated_orders

rl001_orders-Recorded : All Recorded rl001_orders
rl001_orders-Recorded = ((refl, refl, refl, refl), ((refl, refl, refl, refl), tt))

evaluate-Returns_example : Returns (evaluate_response_options scenario)
evaluate-Returns_example =
    evaluate-Returns scenario first_order (second_order ∷ []) refl rl001_orders-Recorded

abbrev idle : OperationalSnapshot
idle = record scenario { production_orders = [] }

evaluate-no_orders_example : evaluate_response_options idle ≡ err zero_division_error
evaluate-no_orders_example = evaluate-no_orders idle refl

evaluate-Consistent_example : All Consistent evaluated
evaluate-Consistent_example = evaluate-Consistent scenario evaluated evaluated_options

rank_options-evaluate_example : (r : RankingResult) × (rank_options evaluated ≡ ok r)
rank_options-evaluate_example = rank_options-evaluate scenario evaluated evaluated_options

rank_options-beta_example : str_eq "RL-OPTION-COMBINED" "RL-OPTION-BETA" ≡ false
rank_options-beta_example =
    rank_options-beta scenario evaluated ranking "RL-OPTION-COMBINED" refl evaluated_options
      ranked_options recommended

-- One receipt on 6 September for both orders of the scenario, served by priority.
abbrev receipt : List TimedQuantity
receipt = arriving second_order first_order 5800 5000 (september 6) "RL-ALPHA-OPTIONAL-3000"

allocate_component_supply-late_example :
    (r : ComponentSupplyAllocation) × (a : OrderAllocation) × (allocate_component_supply
        (pos 0)
        receipt
        []
        (second_order ∷ first_order ∷ [])
      ≡ ok r)
    × (get "RL-MO-DEMO-1" r.by_production_order_id ≡ some a)
    × (a.full_and_on_time ≡ true)
    × (supply_on (λ d. leb d (september 5)) receipt ≡ pos 0)
allocate_component_supply-late_example =
    allocate_component_supply-late second_order first_order 5800 5000 (september 6)
      "RL-ALPHA-OPTIONAL-3000" refl refl (omega arith) (omega arith)
