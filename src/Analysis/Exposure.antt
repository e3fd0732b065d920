-- ===== src/Analysis/Exposure.antt =====
-- services/analysis/exposure.py: the allocation of component supply to production orders, in the
-- caller's order. A dictionary by date or by order is an association list.
pub mod Supply
pub mod Receive
pub mod Shortfall
pub mod Allocation
pub mod Conservation
pub mod Late
use supply_response.Base.{
  ℕ, String, Bool, true, false, not, ◌&&◌, ◌||◌, Option, none, some, List, [], ◌∷◌, ◌++◌, leb, ◌==◌,
  str_eq, if◌then◌else◌,
}
use supply_response.Base.Int.{ℤ, pos, ◌+ℤ◌, ◌-ℤ◌, min_ℤ, leb_ℤ}
use supply_response.Base.Order.{by, sorted, Order}
use supply_response.Base.Keys.{nat_order}
use supply_response.Base.Result.{Result, ok, err, ◌>>=◌}
use supply_response.Domain.Common.{Date}
use supply_response.Domain.Operations.{ProductionOrder}
use supply_response.Domain.Analysis.{TimedQuantity}
use supply_response.Analysis.Error.{AnalysisError, value_error}

pub record OrderAllocation : Type 0 where
  pub allocated_component_units : ℤ
  pub uncovered_component_units : ℤ
  pub full_and_on_time : Bool

pub record ComponentSupplyAllocation : Type 0 where
  pub by_production_order_id : List (String × OrderAllocation)
  pub uncovered_component_units : ℤ

-- `supply_by_date[date] += quantity` on a `defaultdict(int)`.
unfoldable pub add_quantity : Date → ℤ → List (Date × ℤ) → List (Date × ℤ)
add_quantity d q [] = (d, q) ∷ []
add_quantity d q ((e, r) ∷ table) =
    if d == e then (e, r +ℤ q) ∷ table else (e, r) ∷ add_quantity d q table

-- The totals by date of a list of quantities.
unfoldable pub by_date : List TimedQuantity → List (Date × ℤ) → List (Date × ℤ)
unfolding add_quantity
by_date [] table = table
by_date (x ∷ xs) table = by_date xs (add_quantity x.date x.quantity table)

unfoldable pub has_date : Date → List Date → Bool
has_date d [] = false
has_date d (e ∷ es) = d == e || has_date d es

-- `allocations[order_id] = …`
unfoldable pub put : {V : Type 0} → String → V → List (String × V) → List (String × V)
put k v [] = (k, v) ∷ []
put k v ((j, w) ∷ table) = if str_eq k j then (j, v) ∷ table else (j, w) ∷ put k v table

unfoldable pub get : {V : Type 0} → String → List (String × V) → Option V
get k [] = none
get k ((j, w) ∷ table) = if str_eq k j then some w else get k table

-- The loop's variables.
pub record Progress : Type 0 where
  pub available : ℤ
  pub received_dates : List Date
  pub allocations : List (String × OrderAllocation)
  pub uncovered : ℤ

-- One round of the inner loop: a date's supply is received once.
unfoldable pub receive_date : Date → Date × ℤ → Progress → Progress
unfolding has_date
receive_date due (d, q) p =
    if leb d due && not (has_date d p.received_dates)
    then record p { available = p.available +ℤ q; received_dates = d ∷ p.received_dates }
    else p

unfoldable pub receive : Date → List (Date × ℤ) → Progress → Progress
unfolding receive_date
receive due [] p = p
receive due (x ∷ xs) p = receive due xs (receive_date due x p)

abbrev pub by_day : Order (Date × ℤ)
by_day = by (λ x. x.0) nat_order

-- What an order is allocated out of the stock.
abbrev pub allocation : ℤ → ℕ → OrderAllocation
allocation available demand =
    let allocated = min_ℤ available (pos demand) in
    let order_uncovered = pos demand -ℤ allocated in
    record {
      allocated_component_units = allocated;
      uncovered_component_units = order_uncovered;
      full_and_on_time = leb_ℤ order_uncovered (pos 0) && leb_ℤ (pos 0) order_uncovered;
    }

-- The rest of a round of the outer loop, for an order whose demand is known.
unfoldable pub serve : String → ℕ → Progress → Progress
unfolding put
serve order_id demand p =
    let a = allocation p.available demand in
    record p {
      available = p.available -ℤ a.allocated_component_units;
      uncovered = p.uncovered +ℤ a.uncovered_component_units;
      allocations = put order_id a p.allocations;
    }

-- One round of the outer loop.
unfoldable pub allocate_order :
    List (Date × ℤ) → ProductionOrder → Progress → Result AnalysisError Progress
unfolding receive serve
allocate_order supply_by_date order p =
    let q = receive order.due_date (sorted by_day supply_by_date) p in
    elim order.component_demand [
      | none ↦ err value_error
      | some demand ↦ ok (serve order.production_order_id demand q)
    ]

unfoldable pub allocate_orders :
    List (Date × ℤ) → List ProductionOrder → Progress → Result AnalysisError Progress
unfolding allocate_order
allocate_orders supply_by_date [] p = ok p
allocate_orders supply_by_date (order ∷ orders) p = do
  q ← allocate_order supply_by_date order p
  allocate_orders supply_by_date orders q

abbrev pub nothing_allocated : ℤ → Progress
nothing_allocated starting_inventory = record {
  available = starting_inventory;
  received_dates = [];
  allocations = [];
  uncovered = pos 0;
}

unfoldable pub allocate_component_supply :
    ℤ
    → List TimedQuantity
    → List TimedQuantity
    → List ProductionOrder
    → Result AnalysisError ComponentSupplyAllocation
unfolding by_date allocate_orders
allocate_component_supply starting_inventory receipts transfers production_orders = do
  p ←
      allocate_orders (by_date (receipts ++ transfers) []) production_orders
        (nothing_allocated starting_inventory)
  ok (record { by_production_order_id = p.allocations; uncovered_component_units = p.uncovered })
