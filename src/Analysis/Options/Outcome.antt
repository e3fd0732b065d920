-- ===== src/Analysis/Options/Outcome.antt =====
-- services/analysis/options.py: what an intervention is predicted to achieve.
use supply_response.Base.{
  ℕ, ◌+◌, ◌-◌, ◌*◌, ◌/◌, String, Bool, true, false, not, ◌&&◌, Option, none, some, is_some, is_none,
  List, [], ◌∷◌, length, keep, any, ◌==◌, str_eq, if◌then◌else◌,
}
use supply_response.Base.Int.{pos}
use supply_response.Base.Order.{Order, by, sorted}
use supply_response.Base.Keys.{nat_order, str_order, pair}
use supply_response.Base.Result.{Result, ok, err, ◌>>=◌}
use supply_response.Domain.Common.{Money}
use supply_response.Domain.Operations.{ProductionOrder, ProductionOrderStatus, opened, released}
use supply_response.Domain.Analysis.{TimedQuantity, PredictedOutcome}
use supply_response.Domain.Snapshot.{OperationalSnapshot, usable_inventory, usable_of}
use supply_response.Analysis.Error.{AnalysisError, type_error, key_error, zero_division_error}
use supply_response.Analysis.Exposure.{OrderAllocation, allocate_component_supply, get}

-- `(due_date, production_order_id)`
abbrev pub by_due : Order ProductionOrder
by_due = by (λ o. (o.due_date, o.production_order_id)) (pair nat_order str_order)

abbrev or_zero : Option ℕ → ℕ
or_zero none = 0
or_zero (some n) = n

-- `(customer_priority, production_order_id)`, where no priority or every priority is missing.
abbrev pub by_priority : Order ProductionOrder
by_priority =
    by (λ o. (or_zero o.customer_priority, o.production_order_id)) (pair nat_order str_order)

-- To sort a missing priority among numbers compares `None` with an `int`.
unfoldable pub priority_order : List ProductionOrder → Result AnalysisError (List ProductionOrder)
unfolding sorted
priority_order orders =
    if any (λ o. is_none o.customer_priority) orders
      && any (λ o. is_some o.customer_priority) orders
    then err type_error
    else ok (sorted by_priority orders)

unfoldable pub ordered : Bool → List ProductionOrder → Result AnalysisError (List ProductionOrder)
unfolding priority_order sorted
ordered resequence_by_priority orders =
    if resequence_by_priority then priority_order orders else ok (sorted by_due orders)

-- The orders whose entry is full and on time; `KeyError` for an order without an entry.
unfoldable pub protected_orders :
    List (String × OrderAllocation)
    → List ProductionOrder
    → Result AnalysisError (List ProductionOrder)
unfolding get
protected_orders entries [] = ok []
protected_orders entries (o ∷ os) = elim (get o.production_order_id entries) [
  | none ↦ err key_error
  | some a ↦ do
    rest ← protected_orders entries os
    ok (if a.full_and_on_time then o ∷ rest else rest)
]

abbrev opt_eq {ℓ} : {A : Type ℓ} → (A → A → Bool) → Option A → Option A → Bool
opt_eq eq none none = true
opt_eq eq (some a) (some b) = eq a b
opt_eq eq _ _ = false

abbrev status_eq : ProductionOrderStatus → ProductionOrderStatus → Bool
status_eq opened opened = true
status_eq released released = true
status_eq _ _ = false

-- `==` of two models: all their fields.
unfoldable pub order_eq : ProductionOrder → ProductionOrder → Bool
order_eq o p =
    str_eq o.production_order_id p.production_order_id
    && str_eq o.product_id p.product_id
    && str_eq o.plant_id p.plant_id
    && o.quantity == p.quantity
    && o.due_date == p.due_date
    && status_eq o.status p.status
    && opt_eq ◌==◌ o.component_demand p.component_demand
    && opt_eq str_eq o.customer_order_id p.customer_order_id
    && opt_eq ◌==◌ o.customer_priority p.customer_priority
    && opt_eq ◌==◌ o.customer_revenue p.customer_revenue
    && opt_eq ◌==◌ o.customer_margin p.customer_margin

unfoldable pub unprotected : List ProductionOrder → List ProductionOrder → List ProductionOrder
unfolding order_eq
unprotected protected orders = keep (λ o. not (any (order_eq o) protected)) orders

-- `sum(amounts, Decimal("0"))`: adding `None` raises `TypeError`.
unfoldable pub total_of :
    List ProductionOrder → (ProductionOrder → Option Money) → Result AnalysisError ℕ
total_of [] amount = ok 0
total_of (o ∷ os) amount = elim (amount o) [
  | none ↦ err type_error
  | some m ↦ do rest ← total_of os amount; ok (m + rest)
]

-- `100 * late // orders`
unfoldable pub loss_percentage : ℕ → ℕ → Result AnalysisError ℕ
loss_percentage late orders =
    if orders == 0 then err zero_division_error else ok (100 * late / orders)

unfoldable pub customer_ids : List ProductionOrder → List String
customer_ids [] = []
customer_ids (o ∷ os) = elim o.customer_order_id [
  | none ↦ customer_ids os
  | some i ↦ i ∷ customer_ids os
]

-- What the interventions of a plan are: receipts, transfers, the resequencing and the cost.
pub record Plan : Type 0 where
  pub receipts : List TimedQuantity
  pub transfers : List TimedQuantity
  pub resequence_by_priority : Bool
  pub response_cost : ℕ

unfoldable pub calculate_intervention_outcome :
    OperationalSnapshot → Plan → Result AnalysisError PredictedOutcome
unfolding ordered allocate_component_supply protected_orders total_of loss_percentage customer_ids
    usable_of unprotected
calculate_intervention_outcome snapshot plan = do
  orders ← ordered plan.resequence_by_priority snapshot.production_orders
  allocation ←
      allocate_component_supply
        (usable_inventory snapshot snapshot.disruption.part_id snapshot.disruption.plant_id)
        plan.receipts plan.transfers orders
  protected ← protected_orders allocation.by_production_order_id orders
  percentage ← loss_percentage (length orders - length protected) (length orders)
  revenue ← total_of (unprotected protected orders) (λ o. o.customer_revenue)
  margin ← total_of (unprotected protected orders) (λ o. o.customer_margin)
  ok (record {
    uncovered_part_demand = allocation.uncovered_component_units;
    otif_loss_percentage = pos percentage;
    revenue_at_risk = pos revenue;
    margin_at_risk = pos margin;
    response_cost = pos plan.response_cost;
    protected_customer_order_ids = customer_ids protected;
  })
