-- ===== src/Base/Members.antt =====
-- Which texts the lists that the program builds have.
use mathlib.Core.Path.{◌≡◌, refl, ap, ◌∙◌}
use mathlib.Core.Bool.{Bool, not, ◌&&◌, ◌||◌}
use mathlib.Core.Logic.{inl, inr}
use mathlib.Core.List.{List, [], ◌∷◌, ◌++◌}
use native.Mathlib.Omega.{arith}
use supply_response.Base.Tests.{Bool-cases}
use supply_response.Base.Lists.{keep}
use supply_response.Base.Text.{String, str_eq, eq_iff, differ, str_leb, contains, dedup}
use supply_response.Base.Order.{insert, sorted}
use supply_response.Base.Keys.{str_order}

contains-insert :
    (s x : String) (xs : List String)
    → contains s (insert str_order x xs) ≡ (str_eq s x || contains s xs)
unfolding contains insert
contains-insert s x [] = refl
contains-insert s x (y ∷ ys) = elim (Bool-cases (str_leb x y)) [
  | inl e ↦ rw e refl
  | inr e ↦ rw e (ground (arith, contains-insert s x ys))
]

pub contains-sorted :
    (s : String) (xs : List String) → contains s (sorted str_order xs) ≡ contains s xs
unfolding contains sorted
contains-sorted s [] = refl
contains-sorted s (x ∷ xs) =
    contains-insert s x (sorted str_order xs) ∙ ap (λ b. str_eq s x || b) (contains-sorted s xs)

-- The texts that are kept by a test.
pub contains-keep :
    (p : String → Bool) (s : String) (xs : List String)
    → contains s (keep p xs) ≡ (p s && contains s xs)
unfolding contains
contains-keep p s [] = ground arith
contains-keep p s (x ∷ xs) = elim (Bool-cases (str_eq s x)) [
  | inl e ↦
      let same = ap p ((eq_iff s x).0 e) in
      elim (Bool-cases (p x)) [
        | inl k ↦ rw (k, e, same ∙ k) refl
        | inr k ↦ rw (k, e) (contains-keep p s xs ∙ rw (same ∙ k) refl)
      ]
  | inr e ↦ elim (Bool-cases (p x)) [
    | inl k ↦ rw (k, e) (contains-keep p s xs)
    | inr k ↦ rw (k, e) (contains-keep p s xs)
  ]
]

pub contains-dedup : (s : String) (xs : List String) → contains s (dedup xs) ≡ contains s xs
unfolding contains dedup
contains-dedup s [] = refl
contains-dedup s (x ∷ xs) = elim (Bool-cases (str_eq s x)) [
  | inl e ↦ rw e refl
  | inr e ↦
      rw e (
        contains-keep (λ y. not (str_eq x y)) s (dedup xs)
        ∙ rw (differ s x e) (contains-dedup s xs))
]

pub contains-append :
    (s : String) (xs ys : List String) → contains s (xs ++ ys) ≡ (contains s xs || contains s ys)
unfolding contains
contains-append s [] ys = refl
contains-append s (x ∷ xs) ys = ground (arith, contains-append s xs ys)
