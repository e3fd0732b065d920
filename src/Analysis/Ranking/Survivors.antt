-- ===== src/Analysis/Ranking/Survivors.antt =====
-- One round of the ranking retains the survivors: at least one option, still sorted and distinct.
use supply_response.Base.{
  ◌≡◌, Bool, true, not, List, [], ◌∷◌, all, All, if◌then◌else◌, Bool-cases, inl, inr, arith,
  All-map, all-All, IsNonEmpty, keep-IsNonEmpty,
}
use supply_response.Base.Int.{pos, ◌≤ℤ◌, +ℤ_parts}
use supply_response.Base.Order.{Order, by}
use supply_response.Base.Keys.{int_order}
use supply_response.Domain.Analysis.{ResponseOption}
use supply_response.Analysis.Ranking.{Comparator, by_id, is_option_id}
use supply_response.Analysis.Ranking.Reference.{score, stands, survivors}

module _ {ℓ} {A : Type ℓ} (o : Order A) where
  pub le_refl : (x : A) → o.le x x ≡ true
  le_refl x = elim (Bool-cases (o.le x x)) [ inl e ↦ e | inr e ↦ o.total x x e ]

  -- A least element: below all, and any test that all pass it passes.
  lowest :
      (x : A) (xs : List A)
      → (m : A) × All (λ y. o.le m y ≡ true) (x ∷ xs)
        × ((p : A → Bool) → all p (x ∷ xs) ≡ true → p m ≡ true)
  lowest x [] = (x, (le_refl x, tt), λ p h. ground arith)
  lowest x (y ∷ ys) =
      let (m, low, pick) = lowest x ys in
      elim (Bool-cases (o.le m y)) [
        | inl e ↦ (m, (low.0, (e, low.1)), λ p h. ground (arith, pick p))
        | inr e ↦
            let below = λ (z : A) (k : o.le m z ≡ true). o.trans y m z (o.total m y e) k in
            (y, (below x low.0, (le_refl y, All-map _ _ ys below low.1)), λ p h. ground arith)
      ]

-- The order that a comparator's rule is about.
abbrev rule_order : Comparator → Order ResponseOption
rule_order c = if is_option_id c.name then by_id else by (score c.name) int_order

stands-lowest :
    (c : Comparator) (m o : ResponseOption)
    → pos 0 ≤ℤ c.threshold
    → (rule_order c).le m o ≡ true
    → stands c m o ≡ true
unfolding stands
stands-lowest c m o h k = elim (Bool-cases (is_option_id c.name)) [
  | inl e ↦ ground arith
  | inr e ↦ ground (arith, +ℤ_parts (score c.name o) c.threshold)
]

-- A round never eliminates every option.
pub survivors-IsNonEmpty :
    (c : Comparator) (o : ResponseOption) (os : List ResponseOption)
    → pos 0 ≤ℤ c.threshold
    → IsNonEmpty (survivors c (o ∷ os))
unfolding survivors
survivors-IsNonEmpty c o os h =
    let (m, low, pick) = lowest (rule_order c) o os in
    let holds =
      all-All (stands c m) (o ∷ os) (All-map _ _ (o ∷ os) (λ p k. stands-lowest c m p h k) low) in
    elim (keep-IsNonEmpty (λ p. all (stands c p) (o ∷ os)) (o ∷ os)) [
      | inl gone ↦ absurd (ground (arith, holds, pick (λ p. not (all (stands c p) (o ∷ os))) gone))
      | inr kept ↦ kept
    ]
