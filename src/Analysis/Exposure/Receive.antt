-- ===== src/Analysis/Exposure/Receive.antt =====
-- The inner loop of the allocation: what it adds to the stock, and which dates it has received.
use supply_response.Base.{
  ◌≡◌, refl, ◌∙◌, Bool, true, false, not, ◌&&◌, ◌||◌, List, [], ◌∷◌, leb, ◌==◌, Bool-cases, inl,
  inr, arith, All,
}
use supply_response.Base.Int.{ℤ, ◌+ℤ◌, parts, int_laws}
use supply_response.Base.Order.{Apart}
use supply_response.Domain.Common.{Date}
use supply_response.Analysis.Exposure.{by_day, receive, receive_date, has_date, Progress}
use supply_response.Analysis.Exposure.Supply.{picked, table_on, OneEach}

pub table_on-congr :
    (f g : Date → Bool) (t : List (Date × ℤ))
    → All (λ e. f e.0 ≡ g e.0) t
    → table_on f t ≡ table_on g t
unfolding table_on
table_on-congr f g [] h = refl
table_on-congr f g (e ∷ t) h = rw (h.0, table_on-congr f g t h.1)

picked-or : (x y : Bool) (q : ℤ) → picked (x || y) q ≡ picked x q +ℤ picked (y && not x) q
unfolding picked
picked-or true true q = omega int_laws
picked-or true false q = omega int_laws
picked-or false true q = omega int_laws
picked-or false false q = omega int_laws

-- Two tests together count what the first counts, and what the second adds.
pub table_on-or :
    (f g : Date → Bool) (t : List (Date × ℤ))
    → table_on (λ d. f d || g d) t ≡ table_on f t +ℤ table_on (λ d. g d && not (f d)) t
unfolding table_on
table_on-or f g [] = omega int_laws
table_on-or f g ((d, q) ∷ t) =
    omega (int_laws, parts (picked-or (f d) (g d) q), parts (table_on-or f g t))

-- The dates that the loop takes at a due date.
abbrev pub fresh : Date → Progress → Date → Bool
fresh due p d = leb d due && not (has_date d p.received_dates)

-- The dates of a table.
abbrev pub in_table : Date → List (Date × ℤ) → Bool
in_table d [] = false
in_table d (x ∷ t) = d == x.0 || in_table d t

module _ (due : Date) where
  fresh_after :
      (x : Date × ℤ) (p : Progress) (t : List (Date × ℤ))
      → All (Apart by_day x) t
      → All (λ e. fresh due (receive_date due x p) e.0 ≡ fresh due p e.0) t
  unfolding receive_date has_date
  fresh_after x p [] h = tt
  fresh_after x p (e ∷ t) h = (ground (arith, h.0), fresh_after x p t h.1)

  available-receive_date :
      (x : Date × ℤ) (p : Progress)
      → (receive_date due x p).available ≡ p.available +ℤ picked (fresh due p x.0) x.1
  unfolding receive_date picked
  available-receive_date (d, q) p = elim (Bool-cases (fresh due p d)) [
    | inl e ↦ rw e
    | inr e ↦ rw e (omega int_laws)
  ]

  -- The inner loop adds each date's supply that is due and was not received before.
  pub available-receive :
      (t : List (Date × ℤ)) (p : Progress)
      → OneEach t
      → (receive due t p).available ≡ p.available +ℤ table_on (fresh due p) t
  unfolding receive table_on
  available-receive [] p h = omega int_laws
  available-receive (x ∷ t) p h =
      available-receive t (receive_date due x p) h.1
      ∙ omega (
        int_laws,
        parts (available-receive_date x p),
        parts (table_on-congr _ _ t (fresh_after x p t h.0)),
      )

  received-receive_date :
      (d : Date) (x : Date × ℤ) (p : Progress)
      → has_date d (receive_date due x p).received_dates
        ≡ (has_date d p.received_dates || (leb d due && d == x.0))
  unfolding receive_date has_date
  received-receive_date d x p = ground arith

  -- After the inner loop the dates of the table up to the due date are received.
  pub received-receive :
      (d : Date) (t : List (Date × ℤ)) (p : Progress)
      → has_date d (receive due t p).received_dates
        ≡ (has_date d p.received_dates || (leb d due && in_table d t))
  unfolding receive
  received-receive d [] p = ground arith
  received-receive d (x ∷ t) p =
      ground (arith, received-receive d t (receive_date due x p), received-receive_date d x p)

  pub uncovered-receive :
      (t : List (Date × ℤ)) (p : Progress)
      → ((receive due t p).uncovered ≡ p.uncovered)
        × ((receive due t p).allocations ≡ p.allocations)
  unfolding receive receive_date
  uncovered-receive [] p = (refl, refl)
  uncovered-receive (x ∷ t) p = ground (arith, uncovered-receive t (receive_date due x p))
