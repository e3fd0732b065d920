-- ===== src/Analysis/Exposure/Conservation.antt =====
-- Where the units go: every order has its entry, and what is allocated and what stays uncovered
-- make up the demand.
use supply_response.Base.{
  ℕ, ◌+◌, ◌≡◌, refl, ◌∙◌, ap, sym, subst, true, false, List, [], ◌∷◌, ◌++◌, if◌then◌else◌,
  Bool-cases, inl, inr, arith, All, none, some, is_some, String, str_eq, eq_iff, str_eq_refl,
}
use supply_response.Base.Int.{ℤ, pos, ◌+ℤ◌, parts, int_laws}
use supply_response.Base.Order.{sorted}
use supply_response.Base.Result.{ok, >>=-eq-ok, ok-injective}
use supply_response.Domain.Common.{Date}
use supply_response.Domain.Operations.{ProductionOrder}
use supply_response.Domain.Analysis.{TimedQuantity}
use supply_response.Analysis.Exposure.{
  by_date, receive, serve, Progress, allocate_orders, nothing_allocated, allocate_component_supply,
  ComponentSupplyAllocation, OrderAllocation, put, get, allocation, by_day,
}
use supply_response.Analysis.Exposure.Receive.{uncovered-receive}
use supply_response.Analysis.Exposure.Allocation.{allocate_orders-step}
use supply_response.Analysis.Exposure.Shortfall.{or_zero, demand_of}

-- The units that a dictionary of allocations hands out.
pub units : List (String × OrderAllocation) → ℤ
units [] = pos 0
units ((k, a) ∷ t) = a.allocated_component_units +ℤ units t

pub total_demand : List ProductionOrder → ℕ
total_demand [] = 0
total_demand (o ∷ os) = demand_of o + total_demand os

pub get-put :
    {V : Type 0} (k j : String) (v : V) (t : List (String × V))
    → get j (put k v t) ≡ (if str_eq j k then some v else get j t)
unfolding get put
get-put k j v [] = refl
get-put k j v ((i, w) ∷ t) =
    ground (arith, eq_iff k j, eq_iff j k, eq_iff k i, eq_iff j i, get-put k j v t)

units-put :
    (k : String) (a : OrderAllocation) (t : List (String × OrderAllocation))
    → get k t ≡ none
    → units (put k a t) ≡ units t +ℤ a.allocated_component_units
unfolding units get put
units-put k a [] h = omega int_laws
units-put k a ((j, b) ∷ t) h = elim (Bool-cases (str_eq k j)) [
  | inl e ↦ absurd (ground arith)
  | inr e ↦ rw e (omega (int_laws, parts (units-put k a t (ground arith))))
]

-- No order's key is in the dictionary yet, and no two orders share one.
abbrev pub Unserved : List (String × OrderAllocation) → List ProductionOrder → Type 0
Unserved t [] = Unit
Unserved t (o ∷ os) =
    (get o.production_order_id t ≡ none)
    × All (λ p. str_eq p.production_order_id o.production_order_id ≡ false) os
    × Unserved t os

Unserved-put :
    (k : String) (a : OrderAllocation) (t : List (String × OrderAllocation))
    (os : List ProductionOrder)
    → All (λ p. str_eq p.production_order_id k ≡ false) os
    → Unserved t os
    → Unserved (put k a t) os
Unserved-put k a t [] h u = tt
Unserved-put k a t (o ∷ os) h u = (
  get-put k o.production_order_id a t ∙ ground (arith, h.0, u.0),
  u.1,
  Unserved-put k a t os h.1 u.2,
)

serve-conserves :
    (id : String) (d : ℕ) (p : Progress)
    → get id p.allocations ≡ none
    → units (serve id d p).allocations +ℤ (serve id d p).uncovered
      ≡ units p.allocations +ℤ p.uncovered +ℤ pos d
unfolding serve
serve-conserves id d p h =
    omega (int_laws, parts (units-put id (allocation p.available d) p.allocations h))

served : (id : String) (d : ℕ) (p : Progress) → is_some (get id (serve id d p).allocations) ≡ true
unfolding serve
served id d p = rw (get-put, str_eq_refl)

serve_keeps :
    (k id : String) (d : ℕ) (p : Progress)
    → is_some (get k p.allocations) ≡ true
    → is_some (get k (serve id d p).allocations) ≡ true
unfolding serve
serve_keeps k id d p h =
    ap is_some (get-put id k (allocation p.available d) p.allocations) ∙ ground arith

allocate_orders-conserves :
    (t : List (Date × ℤ)) (os : List ProductionOrder) (p q : Progress)
    → Unserved p.allocations os
    → allocate_orders t os p ≡ ok q
    → units q.allocations +ℤ q.uncovered
      ≡ units p.allocations +ℤ p.uncovered +ℤ pos (total_demand os)
unfolding allocate_orders total_demand
allocate_orders-conserves t [] p q u e =
    ok-injective e (λ r. units r.allocations +ℤ r.uncovered) ∙ omega int_laws
allocate_orders-conserves t (o ∷ os) p q u e =
    let (d, found, rest) = allocate_orders-step t o os p q e in
    let r = receive o.due_date (sorted by_day t) p in
    let (same_uncovered, same_allocations) = uncovered-receive o.due_date (sorted by_day t) p in
    let unserved = subst (λ a. Unserved a os) (sym same_allocations) u.2 in
    let now =
      allocate_orders-conserves t os (serve o.production_order_id d r) q
        (unfold serve in
          Unserved-put o.production_order_id (allocation r.available d) r.allocations os u.1
            unserved)
        rest in
    let one =
      serve-conserves o.production_order_id d r
        (ap (get o.production_order_id) same_allocations ∙ u.0) in
    omega (
      int_laws,
      parts now,
      parts one,
      parts same_uncovered,
      parts (ap units same_allocations),
      ap or_zero found,
    )

allocate_orders-keeps :
    (k : String) (t : List (Date × ℤ)) (os : List ProductionOrder) (p q : Progress)
    → allocate_orders t os p ≡ ok q
    → is_some (get k p.allocations) ≡ true
    → is_some (get k q.allocations) ≡ true
unfolding allocate_orders
allocate_orders-keeps k t [] p q e h = ok-injective e (λ r. is_some (get k r.allocations)) ∙ h
allocate_orders-keeps k t (o ∷ os) p q e h =
    let (d, found, rest) = allocate_orders-step t o os p q e in
    let r = receive o.due_date (sorted by_day t) p in
    let (same_uncovered, same) = uncovered-receive o.due_date (sorted by_day t) p in
    allocate_orders-keeps k t os (serve o.production_order_id d r) q rest
      (serve_keeps k o.production_order_id d r (ap (λ a. is_some (get k a)) same ∙ h))

allocate_orders-serves :
    (t : List (Date × ℤ)) (os : List ProductionOrder) (p q : Progress)
    → allocate_orders t os p ≡ ok q
    → All (λ o. is_some (get o.production_order_id q.allocations) ≡ true) os
allocate_orders-serves t [] p q e = tt
allocate_orders-serves t (o ∷ os) p q e =
    let (d, found, rest) = allocate_orders-step t o os p q e in
    let r = serve o.production_order_id d (receive o.due_date (sorted by_day t) p) in
    (
      allocate_orders-keeps o.production_order_id t os r q rest (served o.production_order_id d _),
      allocate_orders-serves t os r q rest,
    )

pub allocate_component_supply-serves :
    (start : ℤ) (receipts transfers : List TimedQuantity) (orders : List ProductionOrder)
    (r : ComponentSupplyAllocation)
    → allocate_component_supply start receipts transfers orders ≡ ok r
    → All (λ o. is_some (get o.production_order_id r.by_production_order_id) ≡ true) orders
unfolding allocate_component_supply
allocate_component_supply-serves start receipts transfers orders r e =
    let t = by_date (receipts ++ transfers) [] in
    let (q, done, same) = >>=-eq-ok (allocate_orders t orders (nothing_allocated start)) _ e in
    subst
      (λ (a : ComponentSupplyAllocation).
        All (λ o. is_some (get o.production_order_id a.by_production_order_id) ≡ true) orders)
      (sym (ok-injective same (λ a. a)))
      (allocate_orders-serves t orders (nothing_allocated start) q done)

-- An allocation that succeeds over orders with distinct identifiers has an entry for every order,
-- and the units that its entries allocate, with the uncovered units, make up the total demand.
pub allocate_component_supply-conserves :
    (start : ℤ) (receipts transfers : List TimedQuantity) (orders : List ProductionOrder)
    (r : ComponentSupplyAllocation)
    → Unserved [] orders
    → allocate_component_supply start receipts transfers orders ≡ ok r
    → (units r.by_production_order_id +ℤ r.uncovered_component_units ≡ pos (total_demand orders))
      × All (λ o. is_some (get o.production_order_id r.by_production_order_id) ≡ true) orders
unfolding allocate_component_supply
allocate_component_supply-conserves start receipts transfers orders r u e =
    let t = by_date (receipts ++ transfers) [] in
    let (q, done, same) = >>=-eq-ok (allocate_orders t orders (nothing_allocated start)) _ e in
    let result = ok-injective same (λ a. a) in
    (
      ap
            (λ (a : ComponentSupplyAllocation).
              units a.by_production_order_id +ℤ a.uncovered_component_units)
            result
          ∙ allocate_orders-conserves t orders (nothing_allocated start) q u done
          ∙ (unfold units in omega int_laws),
      allocate_component_supply-serves start receipts transfers orders r e,
    )
