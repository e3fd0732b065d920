-- ===== src/Exposure/Days.antt =====
-- The days of a projection: each once, in order, and all that the tables have.
use supply_response.Base.{
  ◌<◌, ◌≡◌, refl, ◌∙◌, ap, Bool, true, false, not, ◌||◌, List, [], ◌∷◌, ◌++◌, keep, All, All-map,
  All-keep, leb, ◌==◌, arith, Bool-cases, inl, inr, All-zip,
}
use supply_response.Base.Order.{
  insert, sorted, IsSorted, sorted-IsSorted, AllApart, Apart, AllApart-sorted,
}
use supply_response.Base.Keys.{nat_order}
use supply_response.Domain.Common.{Date}
use supply_response.Analysis.Exposure.{has_date}
use supply_response.Exposure.{distinct, all_days}

-- Ascending, each once.
abbrev pub Ascending : List Date → Type 0
Ascending [] = Unit
Ascending (d ∷ days) = All (λ e. d < e) days × Ascending days

Ascending-sorted_apart :
    (days : List Date) → IsSorted nat_order days → AllApart nat_order days → Ascending days
Ascending-sorted_apart [] h k = tt
Ascending-sorted_apart (d ∷ days) h k = (
  All-map (λ e. (leb d e ≡ true) × Apart nat_order d e) (λ e. d < e) days
      (λ e p. ground (arith, p.1)) (All-zip (λ e. leb d e ≡ true) (Apart nat_order d) days h.0 k.0),
  Ascending-sorted_apart days h.1 k.1,
)

has_date-keep :
    (e d : Date) (days : List Date)
    → (d == e) ≡ false
    → has_date e (keep (λ f. not (d == f)) days) ≡ has_date e days
unfolding has_date
has_date-keep e d [] h = refl
has_date-keep e d (f ∷ days) h = elim (Bool-cases (d == f)) [
  | inl s ↦ rw s (ground (arith, has_date-keep e d days h))
  | inr s ↦ rw s (ap (λ b. (e == f) || b) (has_date-keep e d days h))
]

has_date-distinct : (e : Date) (days : List Date) → has_date e (distinct days) ≡ has_date e days
unfolding has_date distinct
has_date-distinct e [] = refl
has_date-distinct e (d ∷ days) = elim (Bool-cases (d == e)) [
  | inl s ↦ ground arith
  | inr s ↦ ap (λ b. (e == d) || b) (has_date-keep e d (distinct days) s ∙ has_date-distinct e days)
]

different_days : (a b : Date) → not (a == b) ≡ true → Apart nat_order a b
different_days a b h p q = ground arith

keep-Apart : (d : Date) (days : List Date) → All (Apart nat_order d) (keep (λ e. not (d == e)) days)
keep-Apart d [] = tt
keep-Apart d (e ∷ days) = elim (Bool-cases (d == e)) [
  | inl s ↦ rw s (keep-Apart d days)
  | inr s ↦ rw s (different_days d e (rw s refl), keep-Apart d days)
]

AllApart-keep :
    (p : Date → Bool) (days : List Date)
    → AllApart nat_order days
    → AllApart nat_order (keep p days)
AllApart-keep p [] h = tt
AllApart-keep p (d ∷ days) h = elim (Bool-cases (p d)) [
  | inl s ↦ rw s (All-keep (Apart nat_order d) p days h.0, AllApart-keep p days h.1)
  | inr s ↦ rw s (AllApart-keep p days h.1)
]

AllApart-distinct : (days : List Date) → AllApart nat_order (distinct days)
unfolding distinct
AllApart-distinct [] = tt
AllApart-distinct (d ∷ days) = (
  keep-Apart d (distinct days),
  AllApart-keep (λ e. not (d == e)) (distinct days) (AllApart-distinct days),
)

has_date-insert :
    (e d : Date) (days : List Date)
    → has_date e (insert nat_order d days) ≡ ((e == d) || has_date e days)
unfolding has_date insert
has_date-insert e d [] = refl
has_date-insert e d (f ∷ days) = elim (Bool-cases (leb d f)) [
  | inl s ↦ rw s refl
  | inr s ↦ rw s (ground (arith, has_date-insert e d days))
]

has_date-sorted :
    (e : Date) (days : List Date) → has_date e (sorted nat_order days) ≡ has_date e days
unfolding has_date sorted
has_date-sorted e [] = refl
has_date-sorted e (d ∷ days) =
    has_date-insert e d (sorted nat_order days) ∙ ap (λ b. (e == d) || b) (has_date-sorted e days)

pub all_days-Ascending : (a b c : List Date) → Ascending (all_days a b c)
unfolding all_days
all_days-Ascending a b c =
    let days = distinct (a ++ (b ++ c)) in
    Ascending-sorted_apart (sorted nat_order days) (sorted-IsSorted nat_order days)
      (AllApart-sorted nat_order days (AllApart-distinct (a ++ (b ++ c))))

pub has_date-all_days :
    (e : Date) (a b c : List Date) → has_date e (all_days a b c) ≡ has_date e (a ++ (b ++ c))
unfolding all_days
has_date-all_days e a b c =
    has_date-sorted e (distinct (a ++ (b ++ c))) ∙ has_date-distinct e (a ++ (b ++ c))

pub has_date-append :
    (e : Date) (a b : List Date) → has_date e (a ++ b) ≡ (has_date e a || has_date e b)
unfolding has_date
has_date-append e [] b = refl
has_date-append e (d ∷ a) b = ground (arith, has_date-append e a b)
