-- ===== src/Exposure/Calculation.antt =====
-- services/exposure/calculator.py: the orders that a shortage affects, and `calculate_exposure`.
use supply_response.Base.{
  ◌+◌, ◌*◌, String, Bool, false, ◌&&◌, Option, none, some, is_some, List, [], ◌∷◌, ◌++◌, map, keep,
  ◌==◌, str_eq, if◌then◌else◌, contains, dedup, length,
}
use supply_response.Base.Int.{ℤ, pos, ◌+ℤ◌, ◌-ℤ◌, ltb_ℤ}
use supply_response.Base.Order.{Order, by, sorted}
use supply_response.Base.Keys.{str_order}
use supply_response.Domain.Common.{Date, Instant, Money}
use supply_response.Domain.Operations.{
  InventoryPosition, BomComponent, ProductionOrder, CustomerOrder,
}
use supply_response.Domain.Analysis.{TimedQuantity, ProjectionPoint, ExposureResult}
use supply_response.Analysis.Exposure.{by_date, put, get}
use supply_response.Exposure.{
  calculation_version, calculate_usable_inventory, quantity_on, keys, all_days, project_inventory,
  component_demand_for_part, first_stockout, max_shortage,
}

-- `{d.source_id: d.quantity for d in demand}`: the last of each identifier.
unfoldable pub demand_by_order : List TimedQuantity → List (String × ℤ) → List (String × ℤ)
unfolding put
demand_by_order [] table = table
demand_by_order (d ∷ ds) table = demand_by_order ds (put d.source_id d.quantity table)

abbrev pub by_order_id : Order ProductionOrder
by_order_id = by (λ o. o.production_order_id) str_order

-- The orders that are due on a day and have a demand, by identifier.
unfoldable pub orders_on : Date → List (String × ℤ) → List ProductionOrder → List ProductionOrder
unfolding get sorted
orders_on day needs orders =
    sorted by_order_id
      (keep (λ o. o.due_date == day && is_some (get o.production_order_id needs)) orders)

abbrev need_of : Option ℤ → ℤ
need_of none = pos 0
need_of (some q) = q

-- The inner loop: the balance after a day's orders, and those that lack stock.
unfoldable pub serve_orders :
    List (String × ℤ) → List ProductionOrder → ℤ × List String → ℤ × List String
unfolding get ◌-ℤ◌
serve_orders needs [] s = s
serve_orders needs (o ∷ os) (balance, affected) =
    let need = need_of (get o.production_order_id needs) in
    let lacking = if ltb_ℤ balance need then affected ++ o.production_order_id ∷ [] else affected in
    serve_orders needs os (balance -ℤ need, lacking)

-- What the loop over the days reads.
pub record Supply : Type 0 where
  pub receipt_by_date : List (Date × ℤ)
  pub transfer_by_date : List (Date × ℤ)
  pub needs : List (String × ℤ)
  pub orders : List ProductionOrder

unfoldable pub serve_days : Supply → List Date → ℤ × List String → ℤ × List String
unfolding quantity_on orders_on serve_orders ◌+ℤ◌
serve_days u [] s = s
serve_days u (day ∷ days) (balance, affected) = serve_days u days (
    serve_orders u.needs (orders_on day u.needs u.orders) (
      balance +ℤ (quantity_on day u.receipt_by_date +ℤ quantity_on day u.transfer_by_date),
      affected,
    ))

-- The due dates of the orders with a demand.
abbrev due_days : List (String × ℤ) → List ProductionOrder → List Date
due_days needs orders =
    map (λ o. o.due_date) (keep (λ o. is_some (get o.production_order_id needs)) orders)

unfoldable pub affected_orders :
    ℤ
    → List TimedQuantity
    → List TimedQuantity
    → List TimedQuantity
    → List ProductionOrder
    → List String
unfolding by_date all_days demand_by_order get serve_days
affected_orders usable receipts transfers demand orders =
    let u : Supply = record {
      receipt_by_date = by_date receipts [];
      transfer_by_date = by_date transfers [];
      needs = demand_by_order demand [];
      orders = orders;
    } in
    (serve_days u
      (all_days (due_days u.needs orders) (keys u.receipt_by_date) (keys u.transfer_by_date))
      (usable, [])).1

abbrev in_orders : Option String → List String → Bool
in_orders none ids = false
in_orders (some i) ids = contains i ids

unfoldable pub affected_customers : List String → List CustomerOrder → List CustomerOrder
unfolding contains
affected_customers ids orders = keep (λ o. in_orders o.production_order_id ids) orders

abbrev total : (CustomerOrder → Money) → List CustomerOrder → Money
total unit [] = 0
total unit (o ∷ os) = unit o * o.quantity + total unit os

unfoldable pub usable_total : List InventoryPosition → ℤ
unfolding calculate_usable_inventory ◌+ℤ◌
usable_total [] = pos 0
usable_total (p ∷ ps) = calculate_usable_inventory p +ℤ usable_total ps

-- The arguments of `calculate_exposure`.
pub record Question : Type 0 where
  pub analysis_id : String
  pub part_id : String
  pub plant_id : String
  pub inventory_positions : List InventoryPosition
  pub receipts : List TimedQuantity
  pub transfers : List TimedQuantity
  pub bom_components : List BomComponent
  pub production_orders : List ProductionOrder
  pub customer_orders : List CustomerOrder
  pub response_cost : Money
  pub assumptions : List String
  pub remaining_uncertainty : List String

abbrev pub relevant_positions : Question → List InventoryPosition
relevant_positions q =
    keep (λ p. str_eq p.part_id q.part_id && str_eq p.plant_id q.plant_id) q.inventory_positions

abbrev source_ids : Question → List TimedQuantity → List String
source_ids q demand = sorted str_order (
    dedup (
      map (λ p. p.inventory_id) (relevant_positions q)
      ++ map (λ x. x.source_id) (q.receipts ++ (q.transfers ++ demand))))

abbrev pub demand_of : Question → List TimedQuantity
demand_of q = component_demand_for_part q.part_id q.plant_id q.bom_components q.production_orders

abbrev pub projection_of : Question → List ProjectionPoint
projection_of q =
    project_inventory (usable_total (relevant_positions q)) q.receipts q.transfers (demand_of q)

unfoldable pub calculate_exposure : Question → Instant → ExposureResult
unfolding usable_total component_demand_for_part project_inventory first_stockout max_shortage
    affected_orders affected_customers sorted dedup
calculate_exposure q now =
    let usable = usable_total (relevant_positions q) in
    let demand = demand_of q in
    let projection = projection_of q in
    let affected = affected_orders usable q.receipts q.transfers demand q.production_orders in
    let customers = affected_customers affected q.customer_orders in
    record {
      metadata = record {
        analysis_id = q.analysis_id;
        calculation_version = calculation_version;
        timestamp = now;
        assumptions = q.assumptions;
        source_data_lineage = source_ids q demand;
      };
      usable_inventory = usable;
      projected_inventory = projection;
      first_stockout_date = first_stockout projection;
      maximum_shortage_quantity = max_shortage projection;
      affected_production_order_ids = affected;
      affected_customer_order_line_ids = map (λ o. o.customer_order_line_id) customers;
      revenue_at_risk = total (λ o. o.unit_revenue) customers;
      margin_at_risk = total (λ o. o.unit_margin) customers;
      otif_lines_at_risk = length customers;
      response_cost = q.response_cost;
      revenue_protected = 0;
      remaining_uncertainty = q.remaining_uncertainty;
    }
