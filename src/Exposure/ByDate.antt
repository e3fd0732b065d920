-- ===== src/Exposure/ByDate.antt =====
-- What the tables by date of a projection hold.
use supply_response.Base.{
  ◌≡◌, refl, ◌∙◌, true, false, ◌||◌, List, [], ◌∷◌, map, All, All-map, ◌==◌, arith, Bool-cases, inl,
  inr,
}
use supply_response.Base.Int.{ℤ, pos, parts, int_laws}
use supply_response.Base.Order.{Apart}
use supply_response.Domain.Common.{Date}
use supply_response.Domain.Analysis.{TimedQuantity}
use supply_response.Analysis.Exposure.{add_quantity, by_date, by_day, has_date}
use supply_response.Analysis.Exposure.Supply.{
  picked, supply_on, table_on, table_on-by_date, OneEach, OneEach-by_date,
}
use supply_response.Exposure.{quantity_on, keys}

other_day :
    (d e : Date)
    → ((e == d) ≡ true)
    → (t : List (Date × ℤ)) (q : ℤ) → All (Apart by_day (e, q)) t
    → All (λ x. (x.0 == d) ≡ false) t
other_day d e h [] q k = tt
other_day d e h (x ∷ t) q k = (ground (arith, k.0), other_day d e h t q k.1)

table_on-other :
    (d : Date) (t : List (Date × ℤ))
    → All (λ x. (x.0 == d) ≡ false) t
    → table_on (λ e. e == d) t ≡ pos 0
unfolding table_on picked
table_on-other d [] h = refl
table_on-other d (x ∷ t) h = rw h.0 (omega (int_laws, parts (table_on-other d t h.1)))

quantity_on-table_on :
    (d : Date) (t : List (Date × ℤ)) → OneEach t → quantity_on d t ≡ table_on (λ e. e == d) t
unfolding quantity_on table_on picked
quantity_on-table_on d [] h = refl
quantity_on-table_on d ((e, q) ∷ t) h = elim (Bool-cases (e == d)) [
  | inl s ↦ rw s (omega (int_laws, parts (table_on-other d t (other_day d e s t q h.0))))
  | inr s ↦ rw s (omega (int_laws, parts (quantity_on-table_on d t h.1)))
]

-- A table by date has at each day what the quantities of that day add up to.
pub quantity_on-by_date :
    (d : Date) (xs : List TimedQuantity)
    → quantity_on d (by_date xs []) ≡ supply_on (λ e. e == d) xs
unfolding table_on
quantity_on-by_date d xs =
    quantity_on-table_on d (by_date xs []) (OneEach-by_date xs [] tt)
    ∙ table_on-by_date (λ e. e == d) xs []
    ∙ omega int_laws

has_date-add_quantity :
    (e d : Date) (q : ℤ) (t : List (Date × ℤ))
    → has_date e (keys (add_quantity d q t)) ≡ ((e == d) || has_date e (keys t))
unfolding has_date add_quantity
has_date-add_quantity e d q [] = refl
has_date-add_quantity e d q ((f, r) ∷ t) = elim (Bool-cases (d == f)) [
  | inl s ↦ rw s (ground arith)
  | inr s ↦ rw s (ground (arith, has_date-add_quantity e d q t))
]

-- It has the days of the quantities, and no other.
pub has_date-by_date :
    (e : Date) (xs : List TimedQuantity) (t : List (Date × ℤ))
    → has_date e (keys (by_date xs t)) ≡ (has_date e (map (λ x. x.date) xs) || has_date e (keys t))
unfolding by_date has_date
has_date-by_date e [] t = refl
has_date-by_date e (x ∷ xs) t = ground (
  arith,
  has_date-by_date e xs (add_quantity x.date x.quantity t),
  has_date-add_quantity e x.date x.quantity t,
)

-- A day of a quantity is one of the list's days.
pub All-has_date :
    (xs : List TimedQuantity) → All (λ x. has_date x.date (map (λ y. y.date) xs) ≡ true) xs
unfolding has_date
All-has_date [] = tt
All-has_date (x ∷ xs) = (
  ground arith,
  All-map (λ y. has_date y.date (map (λ z. z.date) xs) ≡ true)
      (λ y. has_date y.date (map (λ z. z.date) (x ∷ xs)) ≡ true) xs (λ y h. ground (arith, h))
      (All-has_date xs),
)
