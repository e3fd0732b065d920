-- ===== src/Analysis/Options/Consistent.antt =====
-- What holds of the options of every snapshot, and of their ranking.
use supply_response.Base.{
  ℕ, ◌+◌, ◌≡◌, refl, ◌∙◌, ap, sym, subst, String, Bool, true, false, not, ◌&&◌, some, is_none, List,
  [], ◌∷◌, All, dedup, arith, contains, str_eq, if◌then◌else◌, Memᴰ,
}
use supply_response.Base.Int.{pos}
use supply_response.Base.Result.{ok, >>=-eq-ok, ok-injective}
use supply_response.Domain.Analysis.{ResponseOption, RankingResult}
use supply_response.Domain.Snapshot.{OperationalSnapshot}
use supply_response.Policy.Thresholds.{requires_finance_approval}
use supply_response.Analysis.Ranking.{rank_options, has_codes, is_eligible}
use supply_response.Analysis.Ranking.Recommendation.{
  Distinct, test-Distinct, rank_options-reference,
}
use supply_response.Analysis.Ranking.Guarantee.{rank_options-Recommendable}
use supply_response.Analysis.Options.Parts.{response_option, resequence_available, finance_approver}
use supply_response.Analysis.Options.Evaluate.{
  Outcomes, evaluate_response_options, option_outcomes, no_mitigation_option, expedite_option,
  transfer_option, resequence_option, beta_option, combined_option, is_approved, expedite_cost,
  transfer_cost,
}

-- The options that an evaluation returns.
abbrev pub six_options : OperationalSnapshot → Bool → Outcomes → List ResponseOption
six_options s available outcomes =
    no_mitigation_option s outcomes
    ∷ expedite_option s outcomes
    ∷ transfer_option s outcomes
    ∷ resequence_option s available outcomes
    ∷ beta_option s outcomes
    ∷ combined_option s available outcomes
    ∷ []

pub evaluate-six :
    (s : OperationalSnapshot) (os : List ResponseOption)
    → evaluate_response_options s ≡ ok os
    → (outcomes : Outcomes) × (available : Bool) × (option_outcomes s ≡ ok outcomes)
      × (os ≡ six_options s available outcomes)
unfolding evaluate_response_options
evaluate-six s os e =
    let (outcomes, found, rest) = >>=-eq-ok (option_outcomes s) _ e in
    let (available, _, same) = >>=-eq-ok (resequence_available s) _ rest in
    (outcomes, available, found, ok-injective same (λ r. r))

-- An option is executable exactly when it is an active mitigation without a blocking code, and has
-- an outcome if it is executable.
abbrev pub Consistent : ResponseOption → Type 0
Consistent o =
    (o.executable ≡ (o.active_mitigation && not (has_codes o)))
    × ((o.executable && is_none o.predicted) ≡ false)

six_options-Consistent :
    (s : OperationalSnapshot) (available : Bool) (outcomes : Outcomes)
    → All Consistent (six_options s available outcomes)
unfolding no_mitigation_option expedite_option transfer_option resequence_option beta_option
    combined_option response_option
six_options-Consistent s available outcomes = (
  (refl, refl),
  (
    (ground arith, ground arith),
    (
      (ground arith, ground arith),
      (
        (ground arith, ground arith),
        ((ground arith, ground arith), ((ground arith, ground arith), tt)),
      ),
    ),
  ),
)

-- In an evaluation that succeeds, every option is executable exactly when it is an active
-- mitigation without a blocking code, and no executable option lacks a predicted outcome.
pub evaluate-Consistent :
    (s : OperationalSnapshot) (os : List ResponseOption)
    → evaluate_response_options s ≡ ok os
    → All Consistent os
evaluate-Consistent s os e =
    let (outcomes, available, _, same) = evaluate-six s os e in
    subst (All Consistent) (sym same) (six_options-Consistent s available outcomes)

six_options-Distinct :
    (s : OperationalSnapshot) (available : Bool) (outcomes : Outcomes)
    → Distinct (six_options s available outcomes)
unfolding no_mitigation_option expedite_option transfer_option resequence_option beta_option
    combined_option response_option dedup
six_options-Distinct s available outcomes = test-Distinct (six_options s available outcomes) refl

-- The options of every evaluation that succeeds can be ranked.
pub rank_options-evaluate :
    (s : OperationalSnapshot) (os : List ResponseOption)
    → evaluate_response_options s ≡ ok os
    → (r : RankingResult) × (rank_options os ≡ ok r)
rank_options-evaluate s os e =
    let (outcomes, available, _, same) = evaluate-six s os e in
    let (r, done, _, _) =
      rank_options-reference os
        (subst Distinct (sym same) (six_options-Distinct s available outcomes)) in
    (r, done)

-- An option that is named or blocked by its qualification.
abbrev OpenOrOther : ResponseOption → Type 0
OpenOrOther o = is_eligible o ≡ true → str_eq o.option_id "RL-OPTION-BETA" ≡ false

six_options-beta :
    (s : OperationalSnapshot) (available : Bool) (outcomes : Outcomes)
    → is_approved s.beta_qualification.status ≡ false
    → All OpenOrOther (six_options s available outcomes)
unfolding no_mitigation_option expedite_option transfer_option resequence_option beta_option
    combined_option response_option
six_options-beta s available outcomes h = (
  (λ _. refl),
  ((λ _. refl), ((λ _. refl), ((λ _. refl), ((λ k. absurd (ground arith)), ((λ _. refl), tt))))),
)

All-member {ℓ} : {A : Type ℓ} (P : A → Type 0) (x : A) (xs : List A) → All P xs → Memᴰ x xs → P x
All-member P x [] h m = elim m [ ]
All-member P x (y ∷ ys) h (Memᴰ.head e) = subst P (sym e) h.0
All-member P x (y ∷ ys) h (Memᴰ.tail m) = All-member P x ys h.1 m

-- While the qualification of Supplier Beta is not approved, the ranking of the evaluated options
-- recommends no sourcing from Supplier Beta.
pub rank_options-beta :
    (s : OperationalSnapshot) (os : List ResponseOption) (r : RankingResult) (i : String)
    → is_approved s.beta_qualification.status ≡ false
    → evaluate_response_options s ≡ ok os
    → rank_options os ≡ ok r
    → r.recommended_option_id ≡ some i
    → str_eq i "RL-OPTION-BETA" ≡ false
rank_options-beta s os r i h e k f =
    let (outcomes, available, _, same) = evaluate-six s os e in
    let distinct = subst Distinct (sym same) (six_options-Distinct s available outcomes) in
    let (w, named, (member, eligible, _)) = rank_options-Recommendable os r i distinct k f in
    let open_or_other =
      subst (All OpenOrOther) (sym same) (six_options-beta s available outcomes h) in
    ap (λ j. str_eq j "RL-OPTION-BETA") (sym named)
    ∙ All-member OpenOrOther w os open_or_other member eligible

-- What the finance threshold is compared with, by option.
abbrev priced : OperationalSnapshot → String → ℕ
priced s i =
    if str_eq i "RL-OPTION-EXPEDITE"
    then expedite_cost s
    else if str_eq i "RL-OPTION-COMBINED"
    then expedite_cost s + transfer_cost s
    else 0

abbrev pub FinanceChecked : OperationalSnapshot → ResponseOption → Type 0
FinanceChecked s o =
    contains finance_approver o.prerequisite_roles
    ≡ requires_finance_approval (pos (priced s o.option_id))
