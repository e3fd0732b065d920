-- ===== src/Analysis/Exposure/Allocation.antt =====
-- What the whole allocation does: when it fails, how much stays uncovered, where the units go.
use supply_response.Base.{
  ℕ, ◌+◌, ◌≡◌, refl, ◌∙◌, ap, sym, true, false, List, [], ◌∷◌, ◌++◌, Option-cases, &&-true, inl,
  inr, arith, All-every, Option, none, some, all, is_some, String,
}
use supply_response.Base.Int.{ℤ, pos, ◌+ℤ◌, ◌-ℤ◌, parts, int_laws, min_ℤ, max_ℤ}
use supply_response.Base.Order.{sorted}
use supply_response.Base.Result.{ok, err, ◌>>=◌}
use supply_response.Domain.Common.{Date}
use supply_response.Domain.Operations.{ProductionOrder}
use supply_response.Domain.Analysis.{TimedQuantity}
use supply_response.Analysis.Error.{value_error}
use supply_response.Analysis.Exposure.{
  by_date, receive, serve, Progress, allocate_order, allocate_orders, nothing_allocated,
  allocate_component_supply, ComponentSupplyAllocation, by_day, has_date,
}
use supply_response.Analysis.Exposure.Supply.{supply_on, picked}
use supply_response.Analysis.Exposure.Receive.{uncovered-receive}
use supply_response.Analysis.Exposure.Shortfall.{
  later, reached, or_zero, shortfall, round_sum, table, Tracks, dates-receive, stock-receive,
  in_table_self,
}

supply_on-nothing : (xs : List TimedQuantity) → supply_on (λ d. false) xs ≡ pos 0
unfolding supply_on picked
supply_on-nothing [] = refl
supply_on-nothing (x ∷ xs) = omega (int_laws, parts (supply_on-nothing xs))

allocate_order_known :
    (t : List (Date × ℤ)) (o : ProductionOrder) (d : ℕ) (p : Progress)
    → o.component_demand ≡ some d
    → allocate_order t o p
      ≡ ok (serve o.production_order_id d (receive o.due_date (sorted by_day t) p))
unfolding allocate_order
allocate_order_known t o d p found = ground arith

-- A round of a loop that ends: the order's demand was known.
pub allocate_orders-step :
    (t : List (Date × ℤ)) (o : ProductionOrder) (os : List ProductionOrder) (p q : Progress)
    → allocate_orders t (o ∷ os) p ≡ ok q
    → (d : ℕ) × (o.component_demand ≡ some d)
      × (allocate_orders t os
            (serve o.production_order_id d (receive o.due_date (sorted by_day t) p))
          ≡ ok q)
unfolding allocate_orders allocate_order
allocate_orders-step t o os p q e = elim (Option-cases o.component_demand) [
  | inl missing ↦ absurd (ground arith)
  | inr (d, found) ↦ (
    d,
    found,
    ap (λ r. r >>= allocate_orders t os) (sym (allocate_order_known t o d p found)) ∙ e,
  )
]

module _ (start : ℤ) (supplies : List TimedQuantity) where
  Tracks-nothing : Tracks start supplies none 0 (pos 0) (nothing_allocated start)
  Tracks-nothing = record {
    total = refl;
    stock = omega (int_laws, parts (supply_on-nothing supplies));
    dates = All-every _ (table start supplies) (λ e. unfold has_date in refl);
  }

  Tracks-serve :
      (latest : Option Date) (due : Date) (demand d : ℕ) (unmet : ℤ) (id : String) (p : Progress)
      → Tracks start supplies latest demand unmet p
      → Tracks start supplies
          (later latest due)
          (demand + d)
          (max_ℤ unmet
            (pos (demand + d) -ℤ (start +ℤ supply_on (reached (later latest due)) supplies)))
          (serve id d (receive due (table start supplies) p))
  unfolding serve
  Tracks-serve latest due demand d unmet id p h =
      let q = receive due (table start supplies) p in
      let stock = stock-receive start supplies latest due demand unmet p h in
      let (up, left) = round_sum q.available d start _ unmet demand stock in
      record {
        total =
            ap (λ u. u +ℤ (pos d -ℤ min_ℤ q.available (pos d)))
              ((uncovered-receive due _ p).0 ∙ h.total)
            ∙ up;
        stock = left;
        dates = dates-receive start supplies latest due p _ _ (in_table_self _) h.dates;
      }

  -- With every demand known the loop ends, and leaves the largest gap uncovered.
  allocate_orders-shortfall :
      (os : List ProductionOrder) (latest : Option Date) (demand : ℕ) (unmet : ℤ) (p : Progress)
      → Tracks start supplies latest demand unmet p
      → all (λ o. is_some o.component_demand) os ≡ true
      → (q : Progress) × (allocate_orders (by_date supplies []) os p ≡ ok q)
        × (q.uncovered ≡ shortfall start supplies latest demand unmet os)
  unfolding allocate_orders shortfall
  allocate_orders-shortfall [] latest demand unmet p h known = (p, refl, h.total)
  allocate_orders-shortfall (o ∷ os) latest demand unmet p h known =
      elim (Option-cases o.component_demand) [
        | inl missing ↦ absurd (ground arith)
        | inr (d, found) ↦
            let t = Tracks-serve latest o.due_date demand d unmet o.production_order_id p h in
            let rest_known = (&&-true (is_some o.component_demand) _ known).1 in
            let latest' = later latest o.due_date in
            let arrived = start +ℤ supply_on (reached latest') supplies in
            let (q, done, gap) =
              allocate_orders-shortfall os latest' (demand + d)
                (max_ℤ unmet (pos (demand + d) -ℤ arrived))
                (serve o.production_order_id d (receive o.due_date (table start supplies) p)) t
                rest_known in
            (
              q,
              ap (λ r. r >>= allocate_orders (by_date supplies []) os)
                    (allocate_order_known (by_date supplies []) o d p found)
                  ∙ done,
              gap
                  ∙ ap
                      (λ n.
                        shortfall start supplies latest' (demand + n)
                          (max_ℤ unmet (pos (demand + n) -ℤ arrived)) os)
                      (sym (ap or_zero found)),
            )
      ]

-- With the demand of every production order known, the allocation returns a result, and its
-- uncovered units are the largest of 0 and the gaps, one for each order in the caller's sequence,
-- between the demand up to that order and the starting inventory with all receipts and transfers
-- that arrive by the latest due date up to that order.
pub allocate_component_supply-shortfall :
    (start : ℤ) (receipts transfers : List TimedQuantity) (orders : List ProductionOrder)
    → all (λ o. is_some o.component_demand) orders ≡ true
    → (r : ComponentSupplyAllocation) × (allocate_component_supply start receipts transfers orders
        ≡ ok r)
      × (r.uncovered_component_units
          ≡ shortfall start (receipts ++ transfers) none 0 (pos 0) orders)
unfolding allocate_component_supply
allocate_component_supply-shortfall start receipts transfers orders known =
    let supplies = receipts ++ transfers in
    let begin = Tracks-nothing start supplies in
    let (q, done, gap) =
      allocate_orders-shortfall start supplies orders none 0 (pos 0) (nothing_allocated start) begin
        known in
    (
      record { by_production_order_id = q.allocations; uncovered_component_units = q.uncovered },
      rw done,
      gap,
    )

-- The first order whose demand is missing makes the allocation raise `ValueError`.
allocate_orders-missing :
    (t : List (Date × ℤ)) (orders : List ProductionOrder) (p : Progress)
    → all (λ o. is_some o.component_demand) orders ≡ false
    → allocate_orders t orders p ≡ err value_error
unfolding allocate_orders allocate_order
allocate_orders-missing t [] p h = cc
allocate_orders-missing t (o ∷ os) p h = elim (Option-cases o.component_demand) [
  | inl missing ↦ ground arith
  | inr (d, found) ↦
      ap (λ r. r >>= allocate_orders t os) (allocate_order_known t o d p found)
      ∙ allocate_orders-missing t os _ (ground arith)
]

-- The allocation raises `ValueError` for a list of orders in which some demand is missing.
pub allocate_component_supply-missing :
    (start : ℤ) (receipts transfers : List TimedQuantity) (orders : List ProductionOrder)
    → all (λ o. is_some o.component_demand) orders ≡ false
    → allocate_component_supply start receipts transfers orders ≡ err value_error
unfolding allocate_component_supply
allocate_component_supply-missing start receipts transfers orders h = rw (
    allocate_orders-missing (by_date (receipts ++ transfers) []) orders (nothing_allocated start) h)
