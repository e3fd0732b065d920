-- ===== src/Exposure/Projection.antt =====
-- The projected balances are the cumulative ones.
use supply_response.Base.{
  ◌<◌, ◌≡◌, refl, ◌∙◌, ap, sym, subst, Bool, true, false, not, ◌||◌, List, [], ◌∷◌, ◌++◌, map, All,
  All-map, leb, ◌==◌, arith, inl, inr,
}
use supply_response.Base.Int.{ℤ, pos, ◌+ℤ◌, ◌-ℤ◌, parts, int_laws}
use supply_response.Domain.Common.{Date}
use supply_response.Domain.Analysis.{TimedQuantity, ProjectionPoint}
use supply_response.Analysis.Exposure.{has_date}
use supply_response.Analysis.Exposure.Supply.{supply_on}
use supply_response.Exposure.{
  keys, Tables, change_on, points_from, tables, days_of, project_inventory,
}
use supply_response.Exposure.Days.{Ascending, all_days-Ascending, has_date-all_days}
use supply_response.Exposure.ByDate.{quantity_on-by_date, All-has_date}
use supply_response.Exposure.Placed.{
  supply_on-split, supply_on-cong, supply_on-none, not_has_date, Placed-next, passed, or_in,
  has_date-append3, has_date-table, Placed,
}

-- The days of all the quantities.
abbrev pub quantity_days : List TimedQuantity → List TimedQuantity → List TimedQuantity → List Date
quantity_days receipts transfers demand =
    map (λ x. x.date) receipts ++ (map (λ x. x.date) transfers ++ map (λ x. x.date) demand)

module _ (receipts transfers demand : List TimedQuantity) (starting_balance : ℤ) where
  -- The receipts and transfers of the days that pass a test, less the demand of these days.
  abbrev pub net : (Date → Bool) → ℤ
  net test = supply_on test receipts +ℤ supply_on test transfers -ℤ supply_on test demand

  -- What a projected point is to be.
  abbrev pub Balanced : ProjectionPoint → Type 0
  Balanced p =
      (p.projected_balance ≡ starting_balance +ℤ net (λ e. leb e p.date))
      × (p.receipts ≡ supply_on (λ e. e == p.date) receipts)
      × (p.transfers ≡ supply_on (λ e. e == p.date) transfers)
      × (p.demand ≡ supply_on (λ e. e == p.date) demand)

  abbrev t : Tables
  t = tables receipts transfers demand

  change_on-net : (d : Date) → change_on t d ≡ net (λ e. e == d)
  unfolding change_on
  change_on-net d = rw (
    quantity_on-by_date d receipts,
    quantity_on-by_date d transfers,
    quantity_on-by_date d demand,
  )

  AllPlaced : List Date → Type 0
  AllPlaced days =
      All (Placed days) receipts × All (Placed days) transfers × All (Placed days) demand

  to_come :
      (d : Date) (days : List Date)
      → All (λ e. d < e) days
      → (xs : List TimedQuantity)
      → supply_on (λ e. not (has_date e days)) xs
        ≡ supply_on (λ e. not (has_date e (d ∷ days))) xs +ℤ supply_on (λ e. e == d) xs
  unfolding has_date
  to_come d days h xs =
      supply_on-split (λ e. not (has_date e days)) (λ e. not (has_date e (d ∷ days))) (λ e. e == d)
        xs (λ e. ground (arith, not_has_date d e days h)) (λ e. ground arith)

  by_then :
      (d : Date) (days : List Date)
      → All (λ e. d < e) days
      → (xs : List TimedQuantity) → All (Placed (d ∷ days)) xs
      → supply_on (λ e. not (has_date e days)) xs ≡ supply_on (λ e. leb e d) xs
  by_then d days h xs k =
      supply_on-cong (λ e. not (has_date e days)) (λ e. leb e d) xs
        (All-map (Placed (d ∷ days)) (λ x. not (has_date x.date days) ≡ leb x.date d) xs
          (λ x. passed d days x h) k)

  points_from-Balanced :
      (days : List Date) (balance : ℤ)
      → Ascending days
      → AllPlaced days
      → balance ≡ starting_balance +ℤ net (λ e. not (has_date e days))
      → All Balanced (points_from t balance days)
  unfolding points_from AllPlaced
  points_from-Balanced [] balance a k e = tt
  points_from-Balanced (d ∷ days) balance a k e =
      let now : balance +ℤ change_on t d ≡ starting_balance +ℤ net (λ f. not (has_date f days)) =
        omega (
          int_laws,
          parts e,
          parts (change_on-net d),
          parts (to_come d days a.0 receipts),
          parts (to_come d days a.0 transfers),
          parts (to_come d days a.0 demand),
        ) in
      let cumulative : balance +ℤ change_on t d ≡ starting_balance +ℤ net (λ f. leb f d) = omega (
        int_laws,
        parts now,
        parts (by_then d days a.0 receipts k.0),
        parts (by_then d days a.0 transfers k.1),
        parts (by_then d days a.0 demand k.2),
      ) in
      (
        (
          cumulative,
          quantity_on-by_date d receipts,
          quantity_on-by_date d transfers,
          quantity_on-by_date d demand,
        ),
        points_from-Balanced days (balance +ℤ change_on t d) a.1
            (
              All-map (Placed (d ∷ days)) (Placed days) receipts (λ x. Placed-next d days x a.0)
                  k.0,
              All-map (Placed (d ∷ days)) (Placed days) transfers (λ x. Placed-next d days x a.0)
                  k.1,
              All-map (Placed (d ∷ days)) (Placed days) demand (λ x. Placed-next d days x a.0) k.2,
            )
            now,
      )

  has_date-days_of :
      (e : Date) → has_date e (days_of t) ≡ has_date e (quantity_days receipts transfers demand)
  unfolding has_date
  has_date-days_of e =
      has_date-all_days e (keys t.receipts_by_date) (keys t.transfers_by_date)
        (keys t.demand_by_date)
      ∙ has_date-append3 e (keys t.receipts_by_date) (keys t.transfers_by_date)
          (keys t.demand_by_date)
      ∙ (λ i.
          has_date-table e receipts i
          || (has_date-table e transfers i || has_date-table e demand i))
      ∙ sym (
          has_date-append3 e (map (λ x. x.date) receipts) (map (λ x. x.date) transfers)
            (map (λ x. x.date) demand))

  -- All the quantities are those of the days.
  covered :
      (xs : List TimedQuantity)
      → ((e : Date)
          → has_date e (map (λ x. x.date) xs) ≡ true
          → has_date e (quantity_days receipts transfers demand) ≡ true)
      → All (λ x. has_date x.date (days_of t) ≡ true) xs
  covered xs h =
      All-map (λ x. has_date x.date (map (λ y. y.date) xs) ≡ true)
        (λ x. has_date x.date (days_of t) ≡ true) xs (λ x k. has_date-days_of x.date ∙ h x.date k)
        (All-has_date xs)

  every_day_covered :
      All (λ x. has_date x.date (days_of t) ≡ true) receipts
      × All (λ x. has_date x.date (days_of t) ≡ true) transfers
      × All (λ x. has_date x.date (days_of t) ≡ true) demand
  every_day_covered =
      let a = map (λ (x : TimedQuantity). x.date) receipts in
      let b = map (λ (x : TimedQuantity). x.date) transfers in
      let c = map (λ (x : TimedQuantity). x.date) demand in
      (
        covered receipts (λ e k.
            has_date-append3 e a b c ∙ or_in (has_date e a) (has_date e b) (has_date e c) (inl k)),
        covered transfers (λ e k.
            has_date-append3 e a b c
            ∙ or_in (has_date e a) (has_date e b) (has_date e c) (inr (inl k))),
        covered demand (λ e k.
            has_date-append3 e a b c
            ∙ or_in (has_date e a) (has_date e b) (has_date e c) (inr (inr k))),
      )

  none_before :
      (xs : List TimedQuantity)
      → All (λ x. has_date x.date (days_of t) ≡ true) xs
      → supply_on (λ e. not (has_date e (days_of t))) xs ≡ pos 0
  none_before xs h =
      supply_on-none xs (λ e. not (has_date e (days_of t)))
        (All-map (λ x. has_date x.date (days_of t) ≡ true)
          (λ x. not (has_date x.date (days_of t)) ≡ false) xs (λ x k. ap not k) h)

  placed :
      (xs : List TimedQuantity)
      → All (λ x. has_date x.date (days_of t) ≡ true) xs
      → All (Placed (days_of t)) xs
  placed xs h =
      All-map (λ x. has_date x.date (days_of t) ≡ true) (Placed (days_of t)) xs (λ x k. inl k) h

  projected-Balanced : All Balanced (points_from t starting_balance (days_of t))
  unfolding AllPlaced
  projected-Balanced =
      points_from-Balanced (days_of t) starting_balance
        (all_days-Ascending (keys t.receipts_by_date) (keys t.transfers_by_date)
          (keys t.demand_by_date))
        (
          placed receipts every_day_covered.0,
          placed transfers every_day_covered.1,
          placed demand every_day_covered.2,
        )
        (omega (
          int_laws,
          parts (none_before receipts every_day_covered.0),
          parts (none_before transfers every_day_covered.1),
          parts (none_before demand every_day_covered.2),
        ))

date_of_points :
    (t' : Tables) (balance : ℤ) (days : List Date)
    → map (λ p. p.date) (points_from t' balance days) ≡ days
unfolding points_from
date_of_points t' balance [] = refl
date_of_points t' balance (d ∷ days) =
    ap (λ ds. d ∷ ds) (date_of_points t' (balance +ℤ change_on t' d) days)

-- A projection has one point for each day of a receipt, a transfer or a demand, in ascending order,
-- with the quantities of the day; its balance is the starting balance with all that is received
-- and transferred up to and on that day, less all that is demanded up to and on that day.
pub project_inventory-Balanced :
    (receipts transfers demand : List TimedQuantity) (starting_balance : ℤ) (d : Date)
    → All
        (Balanced receipts transfers demand starting_balance)
        (project_inventory starting_balance receipts transfers demand)
      × Ascending (map (λ p. p.date) (project_inventory starting_balance receipts transfers demand))
      × (has_date d
            (map (λ p. p.date) (project_inventory starting_balance receipts transfers demand))
          ≡ has_date d (quantity_days receipts transfers demand))
unfolding project_inventory
project_inventory-Balanced receipts transfers demand starting_balance d =
    let t' = tables receipts transfers demand in
    let same = date_of_points t' starting_balance (days_of t') in
    (
      projected-Balanced receipts transfers demand starting_balance,
      subst Ascending (sym same) (
          all_days-Ascending (keys t'.receipts_by_date) (keys t'.transfers_by_date)
            (keys t'.demand_by_date)),
      ap (has_date d) same ∙ has_date-days_of receipts transfers demand starting_balance d,
    )
