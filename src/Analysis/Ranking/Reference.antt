-- ===== src/Analysis/Ranking/Reference.antt =====
-- An independent description of the ranking: each comparator keeps the options that no other
-- remaining option beats by more than its threshold, and the loop never stops early.
use supply_response.Base.{
  ◌≡◌, refl, ◌∙◌, ap, Bool, true, false, ◌&&◌, List, [], ◌∷◌, map, keep, all, All, if◌then◌else◌,
  Bool-cases, inl, inr, arith, some, none, Option, is_some,
}
use supply_response.Base.Int.{ℤ, pos, ◌+ℤ◌, leb_ℤ, min_ℤ, min_ℤ-cases, +ℤ_parts}
use supply_response.Base.Result.{ok}
use supply_response.Domain.Analysis.{
  ResponseOption, PredictedOutcome, ComparatorName, uncovered_part_demand, otif_loss_percentage,
  revenue_at_risk, margin_at_risk, response_cost, approval_burden, execution_risk, option_id,
}
use supply_response.Analysis.Ranking.{
  Comparator, numeric_value, numeric_values, predicted_value, minimum, by_id, is_option_id,
}

abbrev of_outcome : ComparatorName → PredictedOutcome → ℤ
of_outcome uncovered_part_demand p = p.uncovered_part_demand
of_outcome otif_loss_percentage p = p.otif_loss_percentage
of_outcome revenue_at_risk p = p.revenue_at_risk
of_outcome margin_at_risk p = p.margin_at_risk
of_outcome response_cost p = p.response_cost
of_outcome _ p = pos 0

abbrev of_predicted : ComparatorName → Option PredictedOutcome → ℤ
of_predicted name none = pos 0
of_predicted name (some p) = of_outcome name p

-- What a comparator looks at.
unfoldable pub score : ComparatorName → ResponseOption → ℤ
score approval_burden o = o.approval_burden
score execution_risk o = o.execution_risk
score name o = of_predicted name o.predicted

-- `p` does not beat `o` by more than the threshold; for the identifier, `o` comes no later.
unfoldable pub stands : Comparator → ResponseOption → ResponseOption → Bool
unfolding score
stands c o p =
    if is_option_id c.name
    then by_id.le o p
    else leb_ℤ (score c.name o) (score c.name p +ℤ c.threshold)

unfoldable pub survivors : Comparator → List ResponseOption → List ResponseOption
unfolding stands
survivors c rem = keep (λ o. all (stands c o) rem) rem

unfoldable pub reference : List Comparator → List ResponseOption → List ResponseOption
unfolding survivors
reference [] rem = rem
reference (c ∷ cs) rem = reference cs (survivors c rem)

-- Every option has a predicted outcome.
abbrev pub Predicted : ResponseOption → Type 0
Predicted o = is_some o.predicted ≡ true

numeric_value-score :
    (name : ComparatorName) (o : ResponseOption)
    → is_option_id name ≡ false
    → Predicted o
    → numeric_value name o ≡ ok (score name o)
unfolding numeric_value score predicted_value
numeric_value-score uncovered_part_demand o h k = ground arith
numeric_value-score otif_loss_percentage o h k = ground arith
numeric_value-score revenue_at_risk o h k = ground arith
numeric_value-score margin_at_risk o h k = ground arith
numeric_value-score response_cost o h k = ground arith
numeric_value-score approval_burden o h k = refl
numeric_value-score execution_risk o h k = refl
numeric_value-score option_id o h k = absurd (ground arith)

abbrev pub scored : ComparatorName → List ResponseOption → List (ResponseOption × ℤ)
scored name = map (λ o. (o, score name o))

pub numeric_values-score :
    (name : ComparatorName) (os : List ResponseOption)
    → is_option_id name ≡ false
    → All Predicted os
    → numeric_values name os ≡ ok (scored name os)
unfolding numeric_values
numeric_values-score name [] h k = refl
numeric_values-score name (o ∷ os) h k =
    rw (numeric_value-score name o h k.0, numeric_values-score name os h k.1)

leb-min : (v t a b : ℤ) → leb_ℤ v (min_ℤ a b +ℤ t) ≡ (leb_ℤ v (a +ℤ t) && leb_ℤ v (b +ℤ t))
leb-min v t a b =
    ground (arith, +ℤ_parts (min_ℤ a b) t, +ℤ_parts a t, +ℤ_parts b t, min_ℤ-cases a b)

and_assoc : (a b c : Bool) → ((a && b) && c) ≡ (a && (b && c))
and_assoc a b c = ground arith

-- Being within the threshold of the least value is being within it of every value.
pub leb-minimum :
    (name : ComparatorName) (v t b : ℤ) (os : List ResponseOption)
    → leb_ℤ v (minimum b (scored name os) +ℤ t)
      ≡ (leb_ℤ v (b +ℤ t) && all (λ o. leb_ℤ v (score name o +ℤ t)) os)
unfolding minimum
leb-minimum name v t b [] = ground arith
leb-minimum name v t b (o ∷ os) =
    leb-minimum name v t (min_ℤ b (score name o)) os
    ∙ ap (λ c. c && all (λ p. leb_ℤ v (score name p +ℤ t)) os) (leb-min v t b (score name o))
    ∙ and_assoc (leb_ℤ v (b +ℤ t)) (leb_ℤ v (score name o +ℤ t))
        (all (λ p. leb_ℤ v (score name p +ℤ t)) os)

pub map-keep-scored :
    (name : ComparatorName) (q : ℤ → Bool) (os : List ResponseOption)
    → map (λ p. p.0) (keep (λ p. q p.1) (scored name os)) ≡ keep (λ o. q (score name o)) os
map-keep-scored name q [] = refl
map-keep-scored name q (o ∷ os) = elim (Bool-cases (q (score name o))) [
  | inl e ↦ rw (e, map-keep-scored name q os)
  | inr e ↦ rw (e, map-keep-scored name q os)
]
