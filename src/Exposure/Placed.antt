-- ===== src/Exposure/Placed.antt =====
-- The quantities of the days that have passed in a projection, and of those to come.
use supply_response.Base.{
  ◌<◌, ◌≡◌, refl, ◌∙◌, ap, sym, subst, Bool, true, false, not, ◌||◌, ◌&&◌, List, [], ◌∷◌, ◌++◌, map,
  All, leb, ◌==◌, arith, Bool-cases, inl, inr, ◌⊎◌, ==_iff,
}
use supply_response.Base.Int.{ℤ, pos, ◌+ℤ◌, parts, int_laws}
use supply_response.Domain.Common.{Date}
use supply_response.Domain.Analysis.{TimedQuantity}
use supply_response.Analysis.Exposure.{by_date, has_date}
use supply_response.Analysis.Exposure.Supply.{picked, supply_on}
use supply_response.Exposure.{keys}
use supply_response.Exposure.Days.{has_date-append}
use supply_response.Exposure.ByDate.{has_date-by_date}

or_false : (b : Bool) → (b || false) ≡ b
or_false true = refl
or_false false = refl

picked-or :
    (f g h : Bool) (q : ℤ) → f ≡ (g || h) → (g && h) ≡ false → picked f q ≡ picked g q +ℤ picked h q
unfolding picked
picked-or f true true q p n = absurd (ground arith)
picked-or f true false q p n = rw p (omega int_laws)
picked-or f false true q p n = rw p (omega int_laws)
picked-or f false false q p n = rw p (omega int_laws)

-- Quantities that pass one of two tests, of which no date passes both.
pub supply_on-split :
    (f g h : Date → Bool) (xs : List TimedQuantity)
    → ((e : Date) → f e ≡ (g e || h e))
    → ((e : Date) → (g e && h e) ≡ false)
    → supply_on f xs ≡ supply_on g xs +ℤ supply_on h xs
unfolding supply_on
supply_on-split f g h [] p q = omega int_laws
supply_on-split f g h (x ∷ xs) p q = omega (
  int_laws,
  parts (supply_on-split f g h xs p q),
  parts (picked-or (f x.date) (g x.date) (h x.date) x.quantity (p x.date) (q x.date)),
)

pub supply_on-cong :
    (f g : Date → Bool) (xs : List TimedQuantity)
    → All (λ x. f x.date ≡ g x.date) xs
    → supply_on f xs ≡ supply_on g xs
unfolding supply_on
supply_on-cong f g [] h = refl
supply_on-cong f g (x ∷ xs) h = rw (h.0, supply_on-cong f g xs h.1)

pub supply_on-none :
    (xs : List TimedQuantity) (f : Date → Bool)
    → All (λ x. f x.date ≡ false) xs
    → supply_on f xs ≡ pos 0
unfolding supply_on picked
supply_on-none [] f h = refl
supply_on-none (x ∷ xs) f h = rw h.0 (omega (int_laws, parts (supply_on-none xs f h.1)))

-- A quantity's day is one of those left, or comes before all of them.
abbrev pub Placed : List Date → TimedQuantity → Type 0
Placed days x = (has_date x.date days ≡ true) ⊎ All (λ e. x.date < e) days

pub not_has_date :
    (d e : Date) (days : List Date)
    → All (λ f. d < f) days
    → (e == d) ≡ true
    → has_date e days ≡ false
unfolding has_date
not_has_date d e [] h s = refl
not_has_date d e (f ∷ days) h s = ground (arith, not_has_date d e days h.1)

not_has_date-lt : (e : Date) (days : List Date) → All (λ f. e < f) days → has_date e days ≡ false
unfolding has_date
not_has_date-lt e [] h = refl
not_has_date-lt e (f ∷ days) h = ground (arith, not_has_date-lt e days h.1)

has_date-lt :
    (d e : Date) (days : List Date) → All (λ f. d < f) days → has_date e days ≡ true → d < e
unfolding has_date
has_date-lt d e [] h k = cc
has_date-lt d e (f ∷ days) h k = ground (arith, has_date-lt d e days h.1)

pub Placed-next :
    (d : Date) (days : List Date) (x : TimedQuantity)
    → All (λ e. d < e) days
    → Placed (d ∷ days) x
    → Placed days x
unfolding has_date
Placed-next d days x h (inr below) = inr below.1
Placed-next d days x h (inl has) = elim (Bool-cases (x.date == d)) [
  | inl s ↦
      let e : x.date ≡ d = (==_iff x.date d).0 s in
      inr (subst (λ y. All (λ f. y < f) days) (sym e) h)
  | inr s ↦ inl (ground (arith, has))
]

-- Once a day has passed, what is not to come has come by that day.
pub passed :
    (d : Date) (days : List Date) (x : TimedQuantity)
    → All (λ e. d < e) days
    → Placed (d ∷ days) x
    → not (has_date x.date days) ≡ leb x.date d
unfolding has_date
passed d days x h (inr below) = ground (arith, not_has_date-lt x.date days below.1, below.0)
passed d days x h (inl has) =
    ground (arith, has, not_has_date d x.date days h, has_date-lt d x.date days h)

pub or_in : (a b c : Bool) → (a ≡ true) ⊎ ((b ≡ true) ⊎ (c ≡ true)) → (a || (b || c)) ≡ true
or_in a b c h = ground arith

pub has_date-append3 :
    (e : Date) (a b c : List Date)
    → has_date e (a ++ (b ++ c)) ≡ (has_date e a || (has_date e b || has_date e c))
has_date-append3 e a b c =
    has_date-append e a (b ++ c) ∙ ap (λ x. has_date e a || x) (has_date-append e b c)

pub has_date-table :
    (e : Date) (xs : List TimedQuantity)
    → has_date e (keys (by_date xs [])) ≡ has_date e (map (λ x. x.date) xs)
unfolding has_date
has_date-table e xs = has_date-by_date e xs [] ∙ or_false (has_date e (map (λ x. x.date) xs))
