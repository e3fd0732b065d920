-- ===== src/Analysis/Options/Total.antt =====
-- When the evaluation of the response options returns.
use supply_response.Base.{
  ℕ, suc, ◌+◌, ◌-◌, ◌*◌, ◌/◌, ◌≡◌, refl, ◌∙◌, ap, subst, String, Bool, true, false, Option, is_some,
  is_none, List, [], ◌∷◌, All, All-map, All-keep, all-All, Option-cases, inl, inr, arith, length,
  any, if◌then◌else◌,
}
use supply_response.Base.Order.{sorted, All-sorted, length-sorted}
use supply_response.Base.Result.{Result, ok, err, ◌>>=◌}
use supply_response.Domain.Common.{Money}
use supply_response.Domain.Operations.{ProductionOrder}
use supply_response.Domain.Snapshot.{OperationalSnapshot, usable_inventory}
use supply_response.Analysis.Error.{AnalysisError, zero_division_error}
use supply_response.Analysis.Exposure.{
  OrderAllocation, get, allocate_component_supply, allocate_orders,
}
use supply_response.Analysis.Exposure.Allocation.{allocate_component_supply-shortfall}
use supply_response.Analysis.Exposure.Conservation.{allocate_component_supply-serves}
use supply_response.Analysis.Options.Outcome.{
  Plan, calculate_intervention_outcome, ordered, protected_orders, loss_percentage, total_of,
  unprotected, priority_order, by_due, by_priority,
}
use supply_response.Analysis.Options.Parts.{resequence_available}
use supply_response.Analysis.Options.Evaluate.{
  evaluate_response_options, option_outcomes, no_plan, expedite_plan, transfer_plan,
  resequence_plan, combined_plan,
}

-- An order whose demand, priority, revenue and margin are all recorded.
abbrev pub Recorded : ProductionOrder → Type 0
Recorded o =
    (is_some o.component_demand ≡ true)
    × (is_some o.customer_priority ≡ true)
    × (is_some o.customer_revenue ≡ true)
    × (is_some o.customer_margin ≡ true)

-- A computation that returns.
abbrev pub Returns {ℓ} : {A : Type ℓ} → Result AnalysisError A → Type ℓ
Returns {A = A} m = (a : A) × (m ≡ ok a)

Returns-bind {ℓ κ} :
    {A : Type ℓ} {B : Type κ} (m : Result AnalysisError A) (f : A → Result AnalysisError B) {a : A}
    → m ≡ ok a
    → Returns (f a)
    → Returns (m >>= f)
Returns-bind m f e (b, k) = (b, ap (λ r. r >>= f) e ∙ k)

none_missing :
    (os : List ProductionOrder)
    → All Recorded os
    → any (λ o. is_none o.customer_priority) os ≡ false
none_missing [] h = refl
none_missing (o ∷ os) h = ground (arith, h.0.1, none_missing os h.1)

priority_order-sorted :
    (os : List ProductionOrder) → All Recorded os → priority_order os ≡ ok (sorted by_priority os)
unfolding priority_order
priority_order-sorted os h = rw (none_missing os h) refl

protected_orders-Returns :
    (entries : List (String × OrderAllocation)) (os : List ProductionOrder)
    → All (λ o. is_some (get o.production_order_id entries) ≡ true) os
    → Returns (protected_orders entries os)
unfolding protected_orders
protected_orders-Returns entries [] h = ([], refl)
protected_orders-Returns entries (o ∷ os) h =
    let (rest, done) = protected_orders-Returns entries os h.1 in
    elim (Option-cases (get o.production_order_id entries)) [
      | inl missing ↦ absurd (ground (arith, h.0))
      | inr (a, found) ↦ (if a.full_and_on_time then o ∷ rest else rest, ground arith)
    ]

total_of-Returns :
    (os : List ProductionOrder) (amount : ProductionOrder → Option Money)
    → All (λ o. is_some (amount o) ≡ true) os
    → Returns (total_of os amount)
unfolding total_of
total_of-Returns [] amount h = (0, refl)
total_of-Returns (o ∷ os) amount h =
    let (rest, done) = total_of-Returns os amount h.1 in
    elim (Option-cases (amount o)) [
      | inl missing ↦ absurd (ground (arith, h.0))
      | inr (m, found) ↦ (m + rest, ground arith)
    ]

loss_percentage-Returns : (late n : ℕ) → Returns (loss_percentage late (suc n))
unfolding loss_percentage
loss_percentage-Returns late n = (100 * late / suc n, ground arith)

Recorded-total :
    (p os : List ProductionOrder)
    → All Recorded os
    → Returns (total_of (unprotected p os) (λ o. o.customer_revenue))
      × Returns (total_of (unprotected p os) (λ o. o.customer_margin))
Recorded-total p os h =
    let rest : All Recorded (unprotected p os) = unfold unprotected in All-keep Recorded _ os h in
    (
      total_of-Returns (unprotected p os) _ (All-map _ _ (unprotected p os) (λ o r. r.2) rest),
      total_of-Returns (unprotected p os) _ (All-map _ _ (unprotected p os) (λ o r. r.3) rest),
    )

-- A result of sorting: as many, and all recorded.
first_of :
    (os sorted_orders : List ProductionOrder)
    → length sorted_orders ≡ suc (length os)
    → (p : ProductionOrder) × (ps : List ProductionOrder) × (sorted_orders ≡ p ∷ ps)
first_of os [] h = absurd (ground arith)
first_of os (p ∷ ps) h = (p, ps, refl)

ordered-Returns :
    (b : Bool) (o : ProductionOrder) (os : List ProductionOrder)
    → All Recorded (o ∷ os)
    → (p : ProductionOrder) × (ps : List ProductionOrder) × (ordered b (o ∷ os) ≡ ok (p ∷ ps))
      × All Recorded (p ∷ ps)
unfolding ordered
ordered-Returns true o os h =
    let (p, ps, same) =
      first_of os (sorted by_priority (o ∷ os)) (length-sorted by_priority (o ∷ os)) in
    (
      p,
      ps,
      priority_order-sorted (o ∷ os) h ∙ ap ok same,
      subst (All Recorded) same (All-sorted by_priority Recorded (o ∷ os) h),
    )
ordered-Returns false o os h =
    let (p, ps, same) = first_of os (sorted by_due (o ∷ os)) (length-sorted by_due (o ∷ os)) in
    (p, ps, ap ok same, subst (All Recorded) same (All-sorted by_due Recorded (o ∷ os) h))

option_outcomes-Returns :
    (s : OperationalSnapshot)
    → ((plan : Plan) → Returns (calculate_intervention_outcome s plan))
    → Returns (option_outcomes s)
unfolding option_outcomes
option_outcomes-Returns s h =
    let (a, ea) = h no_plan in
    let (b, eb) = h (expedite_plan s) in
    let (c, ec) = h (transfer_plan s) in
    let (d, ed) = h resequence_plan in
    let (f, ef) = h (combined_plan s) in
    Returns-bind (calculate_intervention_outcome s no_plan) _ ea (
      Returns-bind (calculate_intervention_outcome s (expedite_plan s)) _ eb (
        Returns-bind (calculate_intervention_outcome s (transfer_plan s)) _ ec (
          Returns-bind (calculate_intervention_outcome s resequence_plan) _ ed
            (Returns-bind (calculate_intervention_outcome s (combined_plan s)) _ ef (_, refl)))))

module _ (s : OperationalSnapshot) (o : ProductionOrder) (os : List ProductionOrder) where
  calculate_intervention_outcome-Returns :
      (plan : Plan)
      → s.production_orders ≡ o ∷ os
      → All Recorded (o ∷ os)
      → Returns (calculate_intervention_outcome s plan)
  unfolding calculate_intervention_outcome
  calculate_intervention_outcome-Returns plan e h =
      let (p, ps, sorted_orders, recorded) = ordered-Returns plan.resequence_by_priority o os h in
      let known = all-All _ (p ∷ ps) (All-map _ _ (p ∷ ps) (λ q r. r.0) recorded) in
      let start = usable_inventory s s.disruption.part_id s.disruption.plant_id in
      let (allocation, allocated, _) =
        allocate_component_supply-shortfall start plan.receipts plan.transfers (p ∷ ps) known in
      let (protected, entries) =
        protected_orders-Returns allocation.by_production_order_id (p ∷ ps) (
          allocate_component_supply-serves start plan.receipts plan.transfers (p ∷ ps) allocation
            allocated) in
      let (percentage, lost) =
        loss_percentage-Returns (length (p ∷ ps) - length protected) (length ps) in
      let ((revenue, earned), (margin, kept)) = Recorded-total protected (p ∷ ps) recorded in
      let at_risk = unprotected protected (p ∷ ps) in
      Returns-bind (ordered plan.resequence_by_priority s.production_orders) _
        (ap (ordered plan.resequence_by_priority) e ∙ sorted_orders)
        (Returns-bind (allocate_component_supply start plan.receipts plan.transfers (p ∷ ps)) _
          allocated
          (Returns-bind (protected_orders allocation.by_production_order_id (p ∷ ps)) _ entries (
            Returns-bind (loss_percentage _ _) _ lost (
              Returns-bind (total_of at_risk (λ q. q.customer_revenue)) _ earned
                (Returns-bind (total_of at_risk (λ q. q.customer_margin)) _ kept (_, refl))))))

  resequence_available-Returns :
      s.production_orders ≡ o ∷ os → All Recorded (o ∷ os) → Returns (resequence_available s)
  unfolding resequence_available
  resequence_available-Returns e h =
      Returns-bind (priority_order s.production_orders) _
        (ap priority_order e ∙ priority_order-sorted (o ∷ os) h) (_, refl)

  -- With at least one production order, and the demand, priority, revenue and margin of every
  -- order recorded, the evaluation of the response options returns.
  pub evaluate-Returns :
      s.production_orders ≡ o ∷ os → All Recorded (o ∷ os) → Returns (evaluate_response_options s)
  unfolding evaluate_response_options
  evaluate-Returns e h =
      let outcome = λ (plan : Plan). calculate_intervention_outcome-Returns plan e h in
      let (outcomes, found) = option_outcomes-Returns s outcome in
      let (available, resequenced) = resequence_available-Returns e h in
      Returns-bind (option_outcomes s) _ found
        (Returns-bind (resequence_available s) _ resequenced (_, refl))

no_orders_outcome :
    (s : OperationalSnapshot)
    → s.production_orders ≡ []
    → calculate_intervention_outcome s no_plan ≡ err zero_division_error
unfolding calculate_intervention_outcome no_plan ordered loss_percentage sorted
    allocate_component_supply protected_orders allocate_orders
no_orders_outcome s e = rw e refl

-- Without production orders, the evaluation of the response options raises `ZeroDivisionError`.
pub evaluate-no_orders :
    (s : OperationalSnapshot)
    → s.production_orders ≡ []
    → evaluate_response_options s ≡ err zero_division_error
unfolding evaluate_response_options option_outcomes
evaluate-no_orders s e = rw (no_orders_outcome s e) refl
