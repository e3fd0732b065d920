-- ===== src/Exposure.antt =====
-- services/exposure/calculator.py: the projection of an inventory over time, and the exposure of
-- production and customer orders to its shortages. A `defaultdict` by date is an association list.
-- The timestamp of the result is an argument.
pub mod Calculation
pub mod Days
pub mod ByDate
pub mod Placed
pub mod Projection
pub mod Shortage
use supply_response.Base.{
  ℕ, ◌+◌, ◌*◌, ◌<◌, String, Bool, true, false, not, ◌&&◌, Option, none, some, is_some, List, [],
  ◌∷◌, ◌++◌, map, keep, ltb, ◌==◌, str_eq, if◌then◌else◌, contains, dedup, length,
}
use supply_response.Base.Int.{ℤ, pos, neg_part, ◌+ℤ◌, ◌-ℤ◌, ◌*ℤ◌, max_ℤ, min_ℤ, ltb_ℤ}
use supply_response.Base.Order.{Order, by, sorted}
use supply_response.Base.Keys.{nat_order, str_order}
use supply_response.Domain.Common.{Date, Instant, Money}
use supply_response.Domain.Operations.{
  InventoryPosition, BomComponent, ProductionOrder, CustomerOrder,
}
use supply_response.Domain.Analysis.{
  TimedQuantity, ProjectionPoint, CalculationMetadata, ExposureResult,
}
use supply_response.Analysis.Exposure.{by_date, add_quantity, put, get}

abbrev pub calculation_version : String
calculation_version = "exposure-v1"

unfoldable pub calculate_usable_inventory : InventoryPosition → ℤ
unfolding ◌-ℤ◌ max_ℤ
calculate_usable_inventory p =
    max_ℤ (pos 0) (pos p.on_hand -ℤ pos p.quality_hold -ℤ pos p.protected_allocation)

-- `table[day]` on a `defaultdict(int)`.
unfoldable pub quantity_on : Date → List (Date × ℤ) → ℤ
quantity_on day [] = pos 0
quantity_on day ((d, q) ∷ table) = if d == day then q else quantity_on day table

abbrev pub keys {ℓ} : {V : Type ℓ} → List (Date × V) → List Date
keys table = map (λ p. p.0) table

-- `set(days)`
unfoldable pub distinct : List Date → List Date
distinct [] = []
distinct (d ∷ days) = d ∷ keep (λ e. not (d == e)) (distinct days)

unfoldable pub all_days : List Date → List Date → List Date → List Date
unfolding sorted distinct
all_days a b c = sorted nat_order (distinct (a ++ (b ++ c)))

-- The tables of the quantities by date.
pub record Tables : Type 0 where
  pub receipts_by_date : List (Date × ℤ)
  pub transfers_by_date : List (Date × ℤ)
  pub demand_by_date : List (Date × ℤ)

unfoldable pub change_on : Tables → Date → ℤ
unfolding quantity_on
change_on t day =
    quantity_on day t.receipts_by_date
    +ℤ quantity_on day t.transfers_by_date
    -ℤ quantity_on day t.demand_by_date

abbrev pub point : Tables → Date → ℤ → ProjectionPoint
point t day balance = record {
  date = day;
  receipts = quantity_on day t.receipts_by_date;
  transfers = quantity_on day t.transfers_by_date;
  demand = quantity_on day t.demand_by_date;
  projected_balance = balance;
}

-- The loop over the days, with the balance before them.
unfoldable pub points_from : Tables → ℤ → List Date → List ProjectionPoint
unfolding change_on
points_from t balance [] = []
points_from t balance (day ∷ days) =
    let after = balance +ℤ change_on t day in point t day after ∷ points_from t after days

abbrev pub tables : List TimedQuantity → List TimedQuantity → List TimedQuantity → Tables
tables receipts transfers demand = record {
  receipts_by_date = by_date receipts [];
  transfers_by_date = by_date transfers [];
  demand_by_date = by_date demand [];
}

abbrev pub days_of : Tables → List Date
days_of t = all_days (keys t.receipts_by_date) (keys t.transfers_by_date) (keys t.demand_by_date)

unfoldable pub project_inventory :
    ℤ → List TimedQuantity → List TimedQuantity → List TimedQuantity → List ProjectionPoint
unfolding by_date all_days points_from
project_inventory starting_balance receipts transfers demand =
    let t = tables receipts transfers demand in points_from t starting_balance (days_of t)

-- `qty_per_product[product_id]`
unfoldable pub quantity_per_product : String → String → List BomComponent → ℕ
quantity_per_product part_id product_id [] = 0
quantity_per_product part_id product_id (b ∷ bs) =
    let rest = quantity_per_product part_id product_id bs in
    if str_eq b.component_part_id part_id && str_eq b.product_id product_id
    then b.quantity_per + rest
    else rest

unfoldable pub component_demand_for_part :
    String → String → List BomComponent → List ProductionOrder → List TimedQuantity
unfolding quantity_per_product
component_demand_for_part part_id plant_id bom orders =
    map
      (λ o. record {
        date = o.due_date;
        quantity = pos (o.quantity * quantity_per_product part_id o.product_id bom);
        source_id = o.production_order_id;
      })
      (keep
        (λ o. str_eq o.plant_id plant_id && ltb 0 (quantity_per_product part_id o.product_id bom))
        orders)

abbrev pub is_stockout : ProjectionPoint → Bool
is_stockout p = ltb_ℤ p.projected_balance (pos 0)

unfoldable pub first_stockout : List ProjectionPoint → Option Date
first_stockout [] = none
first_stockout (p ∷ ps) = if is_stockout p then some p.date else first_stockout ps

-- `min(balances)` of a first balance and the others.
unfoldable pub least_balance : ℤ → List ProjectionPoint → ℤ
unfolding min_ℤ
least_balance b [] = b
least_balance b (p ∷ ps) = least_balance (min_ℤ b p.projected_balance) ps

-- `abs(b)` of a balance.
abbrev abs : ℤ → ℤ
abs b = max_ℤ b (pos 0 -ℤ b)

abbrev least_of : List ProjectionPoint → ℤ
least_of [] = pos 0
least_of (p ∷ ps) = least_balance p.projected_balance ps

unfoldable pub max_shortage : List ProjectionPoint → ℤ
unfolding first_stockout least_balance max_ℤ ◌-ℤ◌
max_shortage ps = if is_some (first_stockout ps) then abs (least_of ps) else pos 0
