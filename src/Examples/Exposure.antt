-- ===== src/Examples/Exposure.antt =====
-- A shortage of a part over four days.
use supply_response.Base.{◌≡◌, refl, ◌↔◌, none, some, List, [], ◌∷◌, map, All, arith}
use supply_response.Base.Int.{pos, negsuc, ◌≤ℤ◌, ◌+ℤ◌, ◌-ℤ◌}
use supply_response.Domain.Operations.{opened}
use supply_response.Domain.Analysis.{TimedQuantity}
use supply_response.Analysis.Exposure.{has_date}
use supply_response.Exposure.{project_inventory, first_stockout}
use supply_response.Exposure.Days.{Ascending}
use supply_response.Exposure.Projection.{Balanced, quantity_days, project_inventory-Balanced}
use supply_response.Exposure.Calculation.{Question, calculate_exposure, demand_of}
use supply_response.Exposure.Shortage.{calculate_exposure-shortage}

abbrev receipts : List TimedQuantity
receipts =
    record { date = 12; quantity = pos 30; source_id = "R-1" }
    ∷ record { date = 10; quantity = pos 20; source_id = "R-2" }
    ∷ []

abbrev transfers : List TimedQuantity
transfers = record { date = 12; quantity = pos 5; source_id = "T-1" } ∷ []

abbrev demand : List TimedQuantity
demand =
    record { date = 11; quantity = pos 80; source_id = "P-1" }
    ∷ record { date = 14; quantity = pos 10; source_id = "P-2" }
    ∷ []

balances :
    map (λ p. p.projected_balance) (project_inventory (pos 50) receipts transfers demand)
    ≡ pos 70 ∷ negsuc 9 ∷ pos 25 ∷ pos 15 ∷ []
unfolding project_inventory ◌+ℤ◌ ◌-ℤ◌
balances = refl

project_inventory-Balanced_example :
    All
      (Balanced receipts transfers demand (pos 50))
      (project_inventory (pos 50) receipts transfers demand)
    × Ascending (map (λ p. p.date) (project_inventory (pos 50) receipts transfers demand))
    × (has_date 11 (map (λ p. p.date) (project_inventory (pos 50) receipts transfers demand))
        ≡ has_date 11 (quantity_days receipts transfers demand))
project_inventory-Balanced_example =
    project_inventory-Balanced receipts transfers demand (pos 50) 11

abbrev question : Question
question = record {
  analysis_id = "A-1";
  part_id = "RM-1";
  plant_id = "PL-1";
  inventory_positions =
      record {
        inventory_id = "I-1";
        part_id = "RM-1";
        plant_id = "PL-1";
        on_hand = 60;
        quality_hold = 10;
        protected_allocation = 0;
      }
      ∷ [];
  receipts = receipts;
  transfers = transfers;
  bom_components =
      record { bom_id = "B-1"; product_id = "FG-1"; component_part_id = "RM-1"; quantity_per = 2 }
      ∷ [];
  production_orders =
      record {
        production_order_id = "P-1";
        product_id = "FG-1";
        plant_id = "PL-1";
        quantity = 40;
        due_date = 11;
        status = opened;
        component_demand = none;
        customer_order_id = none;
        customer_priority = none;
        customer_revenue = none;
        customer_margin = none;
      }
      ∷ [];
  customer_orders = [];
  response_cost = 0;
  assumptions = [];
  remaining_uncertainty = [];
}

found :
    let r = calculate_exposure question 0 in
    (r.first_stockout_date ≡ some 11)
    × (r.maximum_shortage_quantity ≡ pos 10)
    × (r.affected_production_order_ids ≡ "P-1" ∷ [])
unfolding calculate_exposure ◌+ℤ◌ ◌-ℤ◌
found = (refl, refl, refl)

calculate_exposure-shortage_example :
    let r = calculate_exposure question 0 in
    (pos 0 ≤ℤ r.maximum_shortage_quantity)
    × ((r.maximum_shortage_quantity ≤ℤ pos 10) ↔ (
        first_stockout
          (project_inventory (r.usable_inventory +ℤ pos 10) receipts transfers (demand_of question))
        ≡ none))
calculate_exposure-shortage_example = calculate_exposure-shortage question 0 (pos 10) (omega arith)
