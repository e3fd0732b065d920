-- ===== src/Analysis/Exposure/Shortfall.antt =====
-- The allocation against a description that knows no dates received and no dictionary: the
-- uncovered demand is the largest gap between cumulative demand and cumulative supply.
use supply_response.Base.{
  ℕ, ◌+◌, max, ◌≡◌, ◌∙◌, ap, sym, fun_ext, Bool, true, false, not, ◌&&◌, ◌||◌, List, [], ◌∷◌, leb,
  arith, All, Option, none, some,
}
use supply_response.Base.Int.{
  ℤ, pos, ◌+ℤ◌, ◌-ℤ◌, min_ℤ, max_ℤ, min_ℤ-cases, max_ℤ-cases, parts, int_laws,
}
use supply_response.Base.Order.{sorted, AllApart-sorted}
use supply_response.Domain.Common.{Date}
use supply_response.Domain.Operations.{ProductionOrder}
use supply_response.Domain.Analysis.{TimedQuantity}
use supply_response.Analysis.Exposure.{by_day, by_date, receive, has_date, Progress}
use supply_response.Analysis.Exposure.Supply.{
  supply_on, table_on, table_on-by_date, table_on-sorted, OneEach, OneEach-by_date,
}
use supply_response.Analysis.Exposure.Receive.{
  fresh, in_table, table_on-congr, table_on-or, available-receive, received-receive,
}

-- The latest due date so far, and the dates whose supply has arrived by then.
abbrev pub later : Option Date → Date → Option Date
later none due = some due
later (some t) due = some (max t due)

abbrev pub reached : Option Date → Date → Bool
reached none d = false
reached (some t) d = leb d t

-- `None` has no demand to add: the code raises there.
abbrev pub or_zero : Option ℕ → ℕ
or_zero none = 0
or_zero (some d) = d

abbrev pub demand_of : ProductionOrder → ℕ
demand_of o = or_zero o.component_demand

-- The largest gap so far, `unmet`, over the orders that are left.
unfoldable pub shortfall : ℤ → List TimedQuantity → Option Date → ℕ → ℤ → List ProductionOrder → ℤ
shortfall start supplies latest demand unmet [] = unmet
shortfall start supplies latest demand unmet (o ∷ os) =
    let latest' = later latest o.due_date in
    let demand' = demand + demand_of o in
    shortfall start supplies latest' demand'
      (max_ℤ unmet (pos demand' -ℤ (start +ℤ supply_on (reached latest') supplies))) os

reached-later :
    (t : Option Date) (due d : Date) → reached (later t due) d ≡ (reached t d || leb d due)
reached-later t due d = ground arith

-- The numbers of one round.
pub round_sum :
    (a : ℤ) (d : ℕ) (start supply unmet : ℤ) (demand : ℕ)
    → a ≡ start +ℤ supply +ℤ unmet -ℤ pos demand
    → (unmet +ℤ (pos d -ℤ min_ℤ a (pos d)) ≡ max_ℤ unmet (pos (demand + d) -ℤ (start +ℤ supply)))
      × (a -ℤ min_ℤ a (pos d)
          ≡ start
            +ℤ supply
            +ℤ max_ℤ unmet (pos (demand + d) -ℤ (start +ℤ supply))
            -ℤ pos (demand + d))
round_sum a d start supply unmet demand h =
    let gap = pos (demand + d) -ℤ (start +ℤ supply) in
    (
      omega (int_laws, parts h, min_ℤ-cases a (pos d), max_ℤ-cases unmet gap),
      omega (int_laws, parts h, min_ℤ-cases a (pos d), max_ℤ-cases unmet gap),
    )

in_table-weaken :
    (x : Date × ℤ) (t s : List (Date × ℤ))
    → All (λ e. in_table e.0 t ≡ true) s
    → All (λ e. in_table e.0 (x ∷ t) ≡ true) s
in_table-weaken x t [] h = tt
in_table-weaken x t (e ∷ s) h = (ground (arith, h.0), in_table-weaken x t s h.1)

pub in_table_self : (t : List (Date × ℤ)) → All (λ e. in_table e.0 t ≡ true) t
in_table_self [] = tt
in_table_self (x ∷ t) = (ground arith, in_table-weaken x t t (in_table_self t))

module _ (start : ℤ) (supplies : List TimedQuantity) where
  abbrev pub table : List (Date × ℤ)
  table = sorted by_day (by_date supplies [])

  -- The loop's variables after the orders so far.
  pub record Tracks (latest : Option Date) (demand : ℕ) (unmet : ℤ) (p : Progress) : Type 0 where
    pub total : p.uncovered ≡ unmet
    pub stock : p.available ≡ start +ℤ supply_on (reached latest) supplies +ℤ unmet -ℤ pos demand
    pub dates : All (λ e. has_date e.0 p.received_dates ≡ reached latest e.0) table

  table-OneEach : OneEach table
  table-OneEach = AllApart-sorted by_day _ (OneEach-by_date supplies [] tt)

  table-total : (test : Date → Bool) → table_on test table ≡ supply_on test supplies
  unfolding table_on
  table-total test =
      table_on-sorted test (by_date supplies [])
      ∙ table_on-by_date test supplies []
      ∙ omega int_laws

  pub dates-receive :
      (latest : Option Date) (due : Date) (p : Progress) (t s : List (Date × ℤ))
      → All (λ e. in_table e.0 t ≡ true) s
      → All (λ e. has_date e.0 p.received_dates ≡ reached latest e.0) s
      → All (λ e. has_date e.0 (receive due t p).received_dates ≡ reached (later latest due) e.0) s
  dates-receive latest due p t [] h k = tt
  dates-receive latest due p t (e ∷ s) h k = (
    ground (arith, h.0, k.0, received-receive due e.0 t p, reached-later latest due e.0),
    dates-receive latest due p t s h.1 k.1,
  )

  fresh-reached :
      (latest : Option Date) (due : Date) (p : Progress) (s : List (Date × ℤ))
      → All (λ e. has_date e.0 p.received_dates ≡ reached latest e.0) s
      → All (λ e. fresh due p e.0 ≡ (leb e.0 due && not (reached latest e.0))) s
  fresh-reached latest due p [] k = tt
  fresh-reached latest due p (e ∷ s) k = (rw k.0, fresh-reached latest due p s k.1)

  -- What is in stock once the order's supply is received.
  pub stock-receive :
      (latest : Option Date) (due : Date) (demand : ℕ) (unmet : ℤ) (p : Progress)
      → Tracks latest demand unmet p
      → (receive due table p).available
        ≡ start +ℤ supply_on (reached (later latest due)) supplies +ℤ unmet -ℤ pos demand
  stock-receive latest due demand unmet p h =
      let more = available-receive due table p table-OneEach in
      let same =
        table_on-congr (fresh due p) (λ d. leb d due && not (reached latest d)) table
          (fresh-reached latest due p table h.dates) in
      let both = table_on-or (reached latest) (λ d. leb d due) table in
      let now : supply_on (reached (later latest due)) supplies
          ≡ table_on (λ d. reached latest d || leb d due) table =
        ap (λ f. supply_on f supplies) (fun_ext (reached-later latest due)) ∙ sym (table-total _) in
      omega (
        int_laws,
        parts more,
        parts same,
        parts both,
        parts now,
        parts h.stock,
        parts (table-total (reached latest)),
      )
