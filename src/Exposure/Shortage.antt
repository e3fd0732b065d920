-- ===== src/Exposure/Shortage.antt =====
-- The largest shortage of a projection, and its stockouts.
use supply_response.Base.{
  ◌≡◌, refl, true, ◌||◌, none, List, [], ◌∷◌, All, arith, Bool-cases, inl, inr, ◌↔◌, is_some,
}
use supply_response.Base.Int.{
  ℤ, pos, ◌+ℤ◌, ◌-ℤ◌, ◌≤ℤ◌, ltb_ℤ, min_ℤ, max_ℤ, min_ℤ-cases, max_ℤ-cases, int_laws, +ℤ_parts,
  -ℤ_parts,
}
use supply_response.Domain.Common.{Date, Instant}
use supply_response.Domain.Analysis.{ProjectionPoint}
use supply_response.Exposure.{
  Tables, change_on, points_from, tables, days_of, project_inventory, first_stockout, least_balance,
  max_shortage,
}
use supply_response.Exposure.Calculation.{
  Question, calculate_exposure, usable_total, relevant_positions, demand_of,
}

-- With `k` more units no balance is negative.
abbrev pub Covers : ℤ → List ProjectionPoint → Type 0
Covers k ps = All (λ p. pos 0 ≤ℤ p.projected_balance +ℤ k) ps

later : (b k c : ℤ) → (b +ℤ k) +ℤ c ≡ (b +ℤ c) +ℤ k
later b k c = omega int_laws

-- The balances with `k` more units at the start.
first_stockout-shift :
    (t : Tables) (balance k : ℤ) (days : List Date)
    → (first_stockout (points_from t (balance +ℤ k) days) ≡ none)
      ↔ Covers k (points_from t balance days)
unfolding first_stockout points_from
first_stockout-shift t balance k [] = (λ _. tt, λ _. refl)
first_stockout-shift t balance k (d ∷ days) =
    let a = balance +ℤ change_on t d in
    let ih = first_stockout-shift t a k days in
    rw (later balance k (change_on t d)) (elim (Bool-cases (ltb_ℤ (a +ℤ k) (pos 0))) [
      | inl s ↦ rw s (λ h. absurd (cc h), λ h. absurd (ground (arith, s, h.0)))
      | inr s ↦ rw s (λ h. (ground (arith, s), ih.0 h), λ h. ih.1 h.1)
    ])

least_balance-Covers :
    (b k : ℤ) (ps : List ProjectionPoint)
    → (pos 0 ≤ℤ least_balance b ps +ℤ k) ↔ ((pos 0 ≤ℤ b +ℤ k) × Covers k ps)
unfolding least_balance
least_balance-Covers b k [] = (λ h. (h, tt), λ h. h.0)
least_balance-Covers b k (p ∷ ps) =
    let ih = least_balance-Covers (min_ℤ b p.projected_balance) k ps in
    let both : (pos 0 ≤ℤ min_ℤ b p.projected_balance +ℤ k)
        ↔ ((pos 0 ≤ℤ b +ℤ k) × (pos 0 ≤ℤ p.projected_balance +ℤ k)) =
      (
        λ h. (
          omega (int_laws, min_ℤ-cases b p.projected_balance),
          omega (int_laws, min_ℤ-cases b p.projected_balance),
        ),
        λ h. omega (int_laws, min_ℤ-cases b p.projected_balance),
      ) in
    (
      λ h. let r = ih.0 h in ((both.0 r.0).0, ((both.0 r.0).1, r.1)),
      λ h. ih.1 (both.1 (h.0, h.1.0), h.1.1),
    )

is_some-first_stockout :
    (b : ℤ) (ps : List ProjectionPoint)
    → (is_some (first_stockout ps) || ltb_ℤ b (pos 0)) ≡ ltb_ℤ (least_balance b ps) (pos 0)
unfolding first_stockout least_balance
is_some-first_stockout b [] = refl
is_some-first_stockout b (p ∷ ps) = ground (
  arith,
  is_some-first_stockout (min_ℤ b p.projected_balance) ps,
  min_ℤ-cases b p.projected_balance,
)

first_negative :
    (p : ProjectionPoint) (ps : List ProjectionPoint)
    → is_some (first_stockout (p ∷ ps)) ≡ ltb_ℤ (least_balance p.projected_balance ps) (pos 0)
unfolding first_stockout
first_negative p ps = ground (arith, is_some-first_stockout p.projected_balance ps)

-- A negative integer and its absolute value.
negative :
    (l k : ℤ)
    → ltb_ℤ l (pos 0) ≡ true
    → ((max_ℤ l (pos 0 -ℤ l) ≤ℤ k) ↔ (pos 0 ≤ℤ l +ℤ k)) × (pos 0 ≤ℤ max_ℤ l (pos 0 -ℤ l))
negative l k s =
    let cases = max_ℤ-cases l (pos 0 -ℤ l) in
    (
      (
        λ m. ground (arith, s, m, cases, -ℤ_parts (pos 0) l, +ℤ_parts l k),
        λ m. ground (arith, s, m, cases, -ℤ_parts (pos 0) l, +ℤ_parts l k),
      ),
      ground (arith, s, cases, -ℤ_parts (pos 0) l),
    )

max_shortage-Covers :
    (k : ℤ) (ps : List ProjectionPoint)
    → pos 0 ≤ℤ k
    → ((max_shortage ps ≤ℤ k) ↔ Covers k ps) × (pos 0 ≤ℤ max_shortage ps)
unfolding max_shortage
max_shortage-Covers k [] h = (((λ _. tt), λ _. omega arith), omega arith)
max_shortage-Covers k (p ∷ ps) h =
    let least = least_balance p.projected_balance ps in
    let all : (pos 0 ≤ℤ least +ℤ k) ↔ Covers k (p ∷ ps) =
      least_balance-Covers p.projected_balance k ps in
    rw (first_negative p ps) (elim (Bool-cases (ltb_ℤ least (pos 0))) [
      | inl s ↦ rw s (
        (λ m. all.0 ((negative least k s).0.0 m), λ c. (negative least k s).0.1 (all.1 c)),
        (negative least k s).1,
      )
      | inr s ↦
          rw s
            ((λ _. all.0 (ground (arith, s, h, +ℤ_parts least k)), λ _. omega arith), omega arith)
    ])

-- The maximum shortage of an exposure is not negative, and it is the least addition to the usable
-- inventory that avoids every stockout: with `k` more units, `k` not negative, the same projection
-- has no stockout exactly if `k` is at least that shortage.
pub calculate_exposure-shortage :
    (q : Question) (now : Instant) (k : ℤ)
    → pos 0 ≤ℤ k
    → let r = calculate_exposure q now in
      (pos 0 ≤ℤ r.maximum_shortage_quantity)
      × ((r.maximum_shortage_quantity ≤ℤ k) ↔ (
          first_stockout
            (project_inventory (r.usable_inventory +ℤ k) q.receipts q.transfers (demand_of q))
          ≡ none))
unfolding calculate_exposure project_inventory
calculate_exposure-shortage q now k h =
    let usable = usable_total (relevant_positions q) in
    let t = tables q.receipts q.transfers (demand_of q) in
    let m = max_shortage-Covers k (points_from t usable (days_of t)) h in
    let s = first_stockout-shift t usable k (days_of t) in
    (m.1, ((λ c. s.1 (m.0.0 c)), λ n. m.0.1 (s.0 n)))
