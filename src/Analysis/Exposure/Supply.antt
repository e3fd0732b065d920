-- ===== src/Analysis/Exposure/Supply.antt =====
-- What the tables by date hold, and what the inner loop of the allocation receives.
use supply_response.Base.{
  ◌≡◌, refl, ◌∙◌, ap, Bool, true, false, List, [], ◌∷◌, leb, ◌==◌, if◌then◌else◌, Bool-cases,
  ==_iff, inl, inr, arith, All,
}
use supply_response.Base.Int.{ℤ, pos, ◌+ℤ◌, parts, int_laws}
use supply_response.Base.Order.{insert, sorted, AllApart, Apart}
use supply_response.Domain.Common.{Date}
use supply_response.Domain.Analysis.{TimedQuantity}
use supply_response.Analysis.Exposure.{add_quantity, by_date, by_day}

-- A quantity, if its date passes a test.
unfoldable pub picked : Bool → ℤ → ℤ
picked b q = if b then q else pos 0

picked-add : (b : Bool) (q r : ℤ) → picked b (r +ℤ q) ≡ picked b q +ℤ picked b r
unfolding picked
picked-add true q r = omega int_laws
picked-add false q r = omega int_laws

-- The total of the quantities whose date passes a test.
unfoldable pub supply_on : (Date → Bool) → List TimedQuantity → ℤ
supply_on test [] = pos 0
supply_on test (x ∷ xs) = picked (test x.date) x.quantity +ℤ supply_on test xs

unfoldable pub table_on : (Date → Bool) → List (Date × ℤ) → ℤ
table_on test [] = pos 0
table_on test ((d, q) ∷ xs) = picked (test d) q +ℤ table_on test xs

module _ (test : Date → Bool) where
  table_on-add_quantity :
      (d : Date) (q : ℤ) (t : List (Date × ℤ))
      → table_on test (add_quantity d q t) ≡ picked (test d) q +ℤ table_on test t
  unfolding table_on add_quantity
  table_on-add_quantity d q [] = refl
  table_on-add_quantity d q ((e, r) ∷ t) = elim (Bool-cases (d == e)) [
    | inl same ↦
        let ed : d ≡ e = (==_iff d e).0 same in
        rw (same, ed) (omega (int_laws, parts (picked-add (test e) q r)))
    | inr other ↦ rw other (omega (int_laws, parts (table_on-add_quantity d q t)))
  ]

  -- The table by date holds what the quantities add up to.
  pub table_on-by_date :
      (xs : List TimedQuantity) (t : List (Date × ℤ))
      → table_on test (by_date xs t) ≡ supply_on test xs +ℤ table_on test t
  unfolding by_date supply_on
  table_on-by_date [] t = omega int_laws
  table_on-by_date (x ∷ xs) t = omega (
    int_laws,
    parts (table_on-by_date xs (add_quantity x.date x.quantity t)),
    parts (table_on-add_quantity x.date x.quantity t),
  )

  table_on-insert :
      (x : Date × ℤ) (t : List (Date × ℤ))
      → table_on test (insert by_day x t) ≡ picked (test x.0) x.1 +ℤ table_on test t
  unfolding table_on insert
  table_on-insert x [] = refl
  table_on-insert x (y ∷ t) = elim (Bool-cases (leb x.0 y.0)) [
    | inl e ↦ rw e
    | inr e ↦ rw e (omega (int_laws, parts (table_on-insert x t)))
  ]

  pub table_on-sorted : (t : List (Date × ℤ)) → table_on test (sorted by_day t) ≡ table_on test t
  unfolding table_on sorted
  table_on-sorted [] = refl
  table_on-sorted (x ∷ t) =
      table_on-insert x (sorted by_day t) ∙ ap (λ s. picked (test x.0) x.1 +ℤ s) (table_on-sorted t)

-- A table has each date once.
abbrev pub OneEach : List (Date × ℤ) → Type 0
OneEach = AllApart by_day

apart_of_ne : (a b : Date) → (a == b) ≡ false → leb a b ≡ true → leb b a ≡ true → ⊥
apart_of_ne a b h p q = ground arith

All-add_quantity :
    (e : Date × ℤ) (d : Date) (q : ℤ) (t : List (Date × ℤ))
    → (d == e.0) ≡ false
    → All (Apart by_day e) t
    → All (Apart by_day e) (add_quantity d q t)
unfolding add_quantity
All-add_quantity e d q [] h k = (λ p r. ground arith, tt)
All-add_quantity e d q ((f, r) ∷ t) h k = elim (Bool-cases (d == f)) [
  | inl s ↦ rw s k
  | inr s ↦ rw s (k.0, All-add_quantity e d q t h k.1)
]

OneEach-add_quantity :
    (d : Date) (q : ℤ) (t : List (Date × ℤ)) → OneEach t → OneEach (add_quantity d q t)
unfolding add_quantity
OneEach-add_quantity d q [] h = (tt, tt)
OneEach-add_quantity d q ((e, r) ∷ t) h = elim (Bool-cases (d == e)) [
  | inl s ↦ rw s h
  | inr s ↦ rw s (All-add_quantity (e, r) d q t s h.0, OneEach-add_quantity d q t h.1)
]

pub OneEach-by_date :
    (xs : List TimedQuantity) (t : List (Date × ℤ)) → OneEach t → OneEach (by_date xs t)
unfolding by_date
OneEach-by_date [] t h = h
OneEach-by_date (x ∷ xs) t h =
    OneEach-by_date xs (add_quantity x.date x.quantity t)
      (OneEach-add_quantity x.date x.quantity t h)
