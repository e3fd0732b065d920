-- ===== src/Analysis/Exposure/Late.antt =====
-- Supply that is released for an order due later, and then counts for one due earlier.
use supply_response.Base.{
  ℕ, ◌+◌, ◌≤◌, ◌<◌, ◌≡◌, ◌∙◌, ap, String, true, some, List, [], ◌∷◌, leb, if◌then◌else◌, arith,
  str_eq_refl,
}
use supply_response.Base.Int.{ℤ, pos, ◌+ℤ◌, ◌-ℤ◌, min_ℤ}
use supply_response.Base.Order.{sorted, insert}
use supply_response.Base.Result.{ok, ◌>>=◌}
use supply_response.Domain.Common.{Date}
use supply_response.Domain.Operations.{ProductionOrder}
use supply_response.Domain.Analysis.{TimedQuantity}
use supply_response.Analysis.Exposure.{
  Progress, allocation, receive, receive_date, serve, get, allocate_order, allocate_orders,
  nothing_allocated, has_date, by_date, add_quantity, allocate_component_supply,
  ComponentSupplyAllocation, OrderAllocation,
}
use supply_response.Analysis.Exposure.Supply.{supply_on, picked}
use supply_response.Analysis.Exposure.Conservation.{get-put}

-- Two orders that are served in this sequence, with the second due before the only supply comes.
module _ (first second : ProductionOrder) (m n : ℕ) (supply_date : Date) (source : String) where
  abbrev pub arriving : List TimedQuantity
  arriving = record { date = supply_date; quantity = pos (m + n); source_id = source } ∷ []

  two_orders :
      first.component_demand ≡ some m
      → second.component_demand ≡ some n
      → supply_date ≤ first.due_date
      → second.due_date < supply_date
      → allocate_orders
          ((supply_date, pos (m + n)) ∷ [])
          (first ∷ second ∷ [])
          (nothing_allocated (pos 0))
        ≡ ok (
            serve second.production_order_id n (
              serve first.production_order_id m (record {
                available = pos 0 +ℤ pos (m + n);
                received_dates = supply_date ∷ [];
                allocations = [];
                uncovered = pos 0;
              })))
  unfolding allocate_orders allocate_order receive receive_date sorted insert has_date
  two_orders h k l r = ground arith

left_over : (m n : ℕ) → pos 0 +ℤ pos (m + n) -ℤ min_ℤ (pos 0 +ℤ pos (m + n)) (pos m) ≡ pos n
unfolding ◌+ℤ◌ ◌-ℤ◌ min_ℤ
left_over m n = ground arith

exactly_enough : (n : ℕ) → (allocation (pos n) n).full_and_on_time ≡ true
unfolding ◌-ℤ◌ min_ℤ
exactly_enough n = ground arith

too_late :
    (s d : Date) (q : ℤ) (source : String)
    → d < s
    → supply_on (λ e. leb e d) (record { date = s; quantity = q; source_id = source } ∷ []) ≡ pos 0
unfolding supply_on picked ◌+ℤ◌
too_late s d q source h = ground arith

abbrev closed : Progress → ComponentSupplyAllocation
closed p = record {
  by_production_order_id = p.allocations;
  uncovered_component_units = p.uncovered;
}

-- Of two orders with known demands that are served in this sequence, without starting inventory and
-- with one receipt of exactly their demand, due in time for the first and after the second is due,
-- the second is marked full and on time, although no supply comes by its due date.
pub allocate_component_supply-late :
    (first second : ProductionOrder) (m n : ℕ) (supply_date : Date) (source : String)
    → first.component_demand ≡ some m
    → second.component_demand ≡ some n
    → supply_date ≤ first.due_date
    → second.due_date < supply_date
    → (r : ComponentSupplyAllocation) × (a : OrderAllocation) × (allocate_component_supply
          (pos 0)
          (arriving first second m n supply_date source)
          []
          (first ∷ second ∷ [])
        ≡ ok r)
      × (get second.production_order_id r.by_production_order_id ≡ some a)
      × (a.full_and_on_time ≡ true)
      × (supply_on (λ d. leb d second.due_date) (arriving first second m n supply_date source)
          ≡ pos 0)
unfolding allocate_component_supply by_date add_quantity serve
allocate_component_supply-late first second m n supply_date source h k l r =
    let received : Progress = record {
      available = pos 0 +ℤ pos (m + n);
      received_dates = supply_date ∷ [];
      allocations = [];
      uncovered = pos 0;
    } in
    let after : Progress = serve first.production_order_id m received in
    let a : OrderAllocation = allocation after.available n in
    (
      closed (serve second.production_order_id n after),
      a,
      ap (λ x. x >>= (λ p. ok (closed p))) (two_orders first second m n supply_date source h k l r),
      get-put second.production_order_id second.production_order_id a after.allocations
          ∙ ap (λ b. if b then some a else get second.production_order_id after.allocations)
              (str_eq_refl second.production_order_id),
      ap (λ x. (allocation x n).full_and_on_time) (left_over m n) ∙ exactly_enough n,
      too_late supply_date second.due_date (pos (m + n)) source r,
    )
