-- ===== src/Analysis/Ranking/Guarantee.antt =====
-- What the recommended option guarantees against the others, and how the result accounts for
-- every option.
use supply_response.Base.{
  ◌≡◌, refl, ◌∙◌, ap, sym, subst, Bool, true, not, List, [], ◌∷◌, keep, all, All, if◌then◌else◌,
  Bool-cases, inl, inr, arith, All-map, All-kept, All-keep, All-all, All-zip, String, length,
  length-map, ◌==◌, dedup, some, Memᴰ, ◌+◌, drop,
}
use supply_response.Base.Int.{pos, ◌+ℤ◌, ◌≤ℤ◌}
use supply_response.Base.Order.{sorted, All-sorted, length-sorted}
use supply_response.Base.Keys.{str_order}
use supply_response.Base.Result.{ok, err, ◌>>=◌, >>=-eq-ok, ok-injective}
use supply_response.Domain.Analysis.{ResponseOption, RankingResult, uncovered_part_demand}
use supply_response.Analysis.Ranking.{
  Comparator, comparators, ranked, infeasible_ids, excluded_ids, by_id, ids, run_stages,
  rank_options, rank_eligible, eligible, is_eligible, is_infeasible, first_id, recommendation,
}
use supply_response.Analysis.Ranking.Reference.{reference, survivors, score, stands}
use supply_response.Analysis.Ranking.Rounds.{Rankable, Trace, run_stages-reference}
use supply_response.Analysis.Error.{value_error}
use supply_response.Analysis.Ranking.Recommendation.{
  Distinct, eligible-Rankable, comparators-Thresholds, rank_options-reference,
}

abbrev first_comparator : Comparator
first_comparator = record {
  name = uncovered_part_demand;
  threshold = pos 500;
  lower_is_better = true;
}

All-reference {ℓ} :
    (P : ResponseOption → Type ℓ) (cs : List Comparator) (rem : List ResponseOption)
    → All P rem
    → All P (reference cs rem)
unfolding reference survivors
All-reference P [] rem h = h
All-reference P (c ∷ cs) rem h =
    All-reference P cs (survivors c rem) (All-keep P (λ o. all (stands c o) rem) rem h)

All-Memᴰ {ℓ} : {A : Type ℓ} (xs : List A) → All (λ x. Memᴰ x xs) xs
All-Memᴰ [] = tt
All-Memᴰ (x ∷ xs) = (Memᴰ.head refl, All-map _ _ xs (λ y m. Memᴰ.tail m) (All-Memᴰ xs))

All-first {ℓ} :
    (P : ResponseOption → Type ℓ) (os : List ResponseOption) (i : String)
    → All P os
    → first_id os ≡ some i
    → (w : ResponseOption) × (w.option_id ≡ i) × P w
All-first P [] i h e = absurd (ground arith)
All-first P (o ∷ os) i h e = (o, ground arith, h.0)

-- An option of the list that passes the hard feasibility test, and whose uncovered demand is at
-- most 500 above that of each other option that passes it.
abbrev pub Recommendable : List ResponseOption → ResponseOption → Type 0
Recommendable options w =
    Memᴰ w options
    × (is_eligible w ≡ true)
    × All (λ o. score uncovered_part_demand w ≤ℤ (score uncovered_part_demand o +ℤ pos 500))
        (eligible options)

stands-first :
    (w o : ResponseOption)
    → stands first_comparator w o ≡ true
    → score uncovered_part_demand w ≤ℤ (score uncovered_part_demand o +ℤ pos 500)
unfolding stands
stands-first w o h = ground arith

survivors-Recommendable :
    (options : List ResponseOption)
    → All (Recommendable options) (survivors first_comparator (eligible options))
unfolding survivors
survivors-Recommendable options =
    let stand = λ (w : ResponseOption). all (stands first_comparator w) (eligible options) in
    let origin = λ (w : ResponseOption). Memᴰ w options × (is_eligible w ≡ true) in
    let known = All-sorted by_id origin (keep is_eligible options) (
      All-zip (λ w. Memᴰ w options) (λ w. is_eligible w ≡ true) (keep is_eligible options)
        (All-keep _ is_eligible options (All-Memᴰ options)) (All-kept is_eligible options)) in
    All-map _ (Recommendable options) (keep stand (eligible options))
      (λ w h. (
        h.0.0,
        h.0.1,
        All-map _ _ (eligible options) (stands-first w)
            (All-all (stands first_comparator w) (eligible options) h.1),
      ))
      (All-zip origin (λ w. stand w ≡ true) (keep stand (eligible options))
        (All-keep origin stand (eligible options) known) (All-kept stand (eligible options)))

reference-Recommendable :
    (options : List ResponseOption)
    → All (Recommendable options) (reference comparators (eligible options))
unfolding reference
reference-Recommendable options =
    All-reference (Recommendable options) (drop 1 comparators)
      (survivors first_comparator (eligible options)) (survivors-Recommendable options)

-- When the ranking of options of which no two share an identifier recommends an identifier, it is
-- that of one of the options, which is an executable active mitigation with a predicted outcome
-- and no blocking code, and whose predicted uncovered demand is at most 500 above that of each
-- other option that is so.
pub rank_options-Recommendable :
    (options : List ResponseOption) (r : RankingResult) (i : String)
    → Distinct options
    → rank_options options ≡ ok r
    → r.recommended_option_id ≡ some i
    → (w : ResponseOption) × (w.option_id ≡ i) × Recommendable options w
rank_options-Recommendable options r i h e f =
    let (s, done, recommended, _) = rank_options-reference options h in
    let same = ok-injective (sym done ∙ e) (λ t. t.recommended_option_id) in
    All-first (Recommendable options) (reference comparators (eligible options)) i
      (reference-Recommendable options) (sym recommended ∙ sym same ∙ f)

length-classes :
    (os : List ResponseOption)
    → length (keep is_eligible os)
        + length (keep is_infeasible os)
        + length (keep (λ o. not o.active_mitigation) os)
      ≡ length os
length-classes [] = refl
length-classes (o ∷ os) = ground (arith, length-classes os)

-- The three lists of identifiers that a result carries.
rank_eligible-ids :
    (infeasible excluded : List String) (rem : List ResponseOption) (r : RankingResult)
    → rank_eligible infeasible excluded rem ≡ ok r
    → (r.eligible_option_ids ≡ ids rem)
      × (r.infeasible_option_ids ≡ infeasible)
      × (r.excluded_baseline_ids ≡ excluded)
unfolding rank_eligible
rank_eligible-ids infeasible excluded [] r e = (
  ok-injective e (λ s. s.eligible_option_ids),
  ok-injective e (λ s. s.infeasible_option_ids),
  ok-injective e (λ s. s.excluded_baseline_ids),
)
rank_eligible-ids infeasible excluded (o ∷ os) r e =
    let (ran, _, same) = >>=-eq-ok (run_stages comparators (o ∷ os)) _ e in
    (
      ok-injective same (λ s. s.eligible_option_ids),
      ok-injective same (λ s. s.infeasible_option_ids),
      ok-injective same (λ s. s.excluded_baseline_ids),
    )

-- The check for duplicates: a ranking that succeeds has passed it.
rank_options-passed :
    (options : List ResponseOption) (r : RankingResult)
    → rank_options options ≡ ok r
    → ranked options ≡ ok r
unfolding rank_options
rank_options-passed options r e =
    elim (Bool-cases (length (ids options) == length (dedup (ids options)))) [
      | inl t ↦ subst (λ b. (if b then ranked options else err value_error) ≡ ok r) t e
      | inr f ↦ absurd (ground arith)
    ]

length-sorted-ids :
    (p : ResponseOption → Bool) (os : List ResponseOption)
    → length (sorted str_order (ids (keep p os))) ≡ length (keep p os)
length-sorted-ids p os =
    length-sorted str_order (ids (keep p os)) ∙ length-map (λ o. o.option_id) (keep p os)

-- In the result of a ranking that succeeds, the eligible, the infeasible and the excluded baseline
-- identifiers are together as many as the options.
pub rank_options-classes :
    (options : List ResponseOption) (r : RankingResult)
    → rank_options options ≡ ok r
    → length r.eligible_option_ids + length r.infeasible_option_ids + length r.excluded_baseline_ids
      ≡ length options
unfolding ranked infeasible_ids excluded_ids
rank_options-classes options r e =
    let (a, b, c) = rank_eligible-ids _ _ (eligible options) r (rank_options-passed options r e) in
    omega (
      arith,
      length-classes options,
      ap length a,
      ap length b,
      ap length c,
      length-map (λ o. o.option_id) (eligible options),
      length-sorted by_id (keep is_eligible options),
      length-sorted-ids is_infeasible options,
      length-sorted-ids (λ o. not o.active_mitigation) options,
    )

-- When options of which no two share an identifier rank, and some are eligible, the stages of the
-- result form a trace from the eligible options: each stage names the comparator, its input
-- identifiers and the identifiers it retains and eliminates, takes what the one before it
-- retained, and the stages stop where the comparators end or a single option is left.
pub rank_options-Trace :
    (options : List ResponseOption) (r : RankingResult) (o : ResponseOption)
    (os : List ResponseOption)
    → Distinct options
    → eligible options ≡ o ∷ os
    → rank_options options ≡ ok r
    → Trace comparators (o ∷ os) r.stages (reference comparators (o ∷ os))
unfolding rank_eligible ranked
rank_options-Trace options r o os h k e =
    let rankable = subst Rankable k (eligible-Rankable options h) in
    let (ts, done, trace, _) =
      run_stages-reference comparators o os comparators-Thresholds rankable in
    let passed =
      ap (rank_eligible (infeasible_ids options) (excluded_ids options)) (sym k)
      ∙ rank_options-passed options r e in
    let stages_same =
      ok-injective
        (ap
            (λ m. m >>= (λ ran. ok (
              recommendation (infeasible_ids options) (excluded_ids options) (o ∷ os) ran.0 ran.1)))
            (sym done)
          ∙ passed)
        (λ s. s.stages) in
    subst (λ s. Trace comparators (o ∷ os) s (reference comparators (o ∷ os))) (sym stages_same)
      trace
