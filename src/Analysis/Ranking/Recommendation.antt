-- ===== src/Analysis/Ranking/Recommendation.antt =====
-- What `rank_options` returns: when it fails, which option it recommends, and that the order in
-- which the options are given does not matter.
use supply_response.Base.{
  ◌≡◌, refl, ap, sym, subst, Bool, true, not, List, [], ◌∷◌, keep, All, Bool-cases, inl, inr, arith,
  All-map, All-kept, length, ◌==◌, is_none, dedup, String, ==_iff, Permᴰ,
}
use mathlib.Core.List.Permᴰ
use supply_response.Base.Order.{
  AllApart, Apart, sorted, sorted-IsSorted, AllApart-sorted, All-sorted, sorted-permᴰ,
  AllApart-perm,
}
use supply_response.Base.Keys.{str_order}
use supply_response.Base.Distinct.{dedup-AllApart, length-dedup-AllApart}
use supply_response.Base.Result.{ok, err}
use supply_response.Domain.Analysis.{ResponseOption, RankingResult}
use supply_response.Analysis.Error.{value_error}
use supply_response.Analysis.Ranking.{
  comparators, by_id, ids, rank_options, rank_eligible, eligible, is_eligible, is_infeasible,
  first_id, recommendation, ranked, infeasible_ids, excluded_ids,
}
use supply_response.Analysis.Ranking.Reference.{Predicted, reference, survivors}
use supply_response.Analysis.Ranking.Rounds.{
  Rankable, keep-AllApart, run_stages-reference, Thresholds,
}

-- No two options share an identifier.
abbrev pub Distinct : List ResponseOption → Type 0
Distinct = AllApart by_id

ids-All :
    (o : ResponseOption) (os : List ResponseOption)
    → All (Apart by_id o) os
    → All (Apart str_order o.option_id) (ids os)
ids-All o [] h = tt
ids-All o (p ∷ os) h = (h.0, ids-All o os h.1)

ids-AllApart : (os : List ResponseOption) → Distinct os → AllApart str_order (ids os)
ids-AllApart [] h = tt
ids-AllApart (o ∷ os) h = (ids-All o os h.0, ids-AllApart os h.1)

All-ids :
    (o : ResponseOption) (os : List ResponseOption)
    → All (Apart str_order o.option_id) (ids os)
    → All (Apart by_id o) os
All-ids o [] h = tt
All-ids o (p ∷ os) h = (h.0, All-ids o os h.1)

AllApart-ids : (os : List ResponseOption) → AllApart str_order (ids os) → Distinct os
AllApart-ids [] h = tt
AllApart-ids (o ∷ os) h = (All-ids o os h.0, AllApart-ids os h.1)

Distinct-test :
    (os : List ResponseOption) → Distinct os → (length (ids os) == length (dedup (ids os))) ≡ true
Distinct-test os h = ground (
  arith,
  ==_iff (length (ids os)) (length (dedup (ids os))),
  ap length (dedup-AllApart (ids os) (ids-AllApart os h)),
)

pub test-Distinct :
    (os : List ResponseOption) → (length (ids os) == length (dedup (ids os))) ≡ true → Distinct os
test-Distinct os e = AllApart-ids os (length-dedup-AllApart (ids os) ((==_iff _ _).0 e))

-- Options of which two share an identifier make the ranking raise `ValueError`.
pub rank_options-duplicate :
    (options : List ResponseOption)
    → (Distinct options → ⊥)
    → rank_options options ≡ err value_error
unfolding rank_options
rank_options-duplicate options h =
    elim (Bool-cases (length (ids options) == length (dedup (ids options)))) [
      | inl e ↦ absurd (h (test-Distinct options e))
      | inr e ↦ rw e refl
    ]

is_eligible-Predicted : (o : ResponseOption) → is_eligible o ≡ true → Predicted o
is_eligible-Predicted o h = ground arith

pub eligible-Rankable :
    (options : List ResponseOption) → Distinct options → Rankable (eligible options)
eligible-Rankable options h = (
  sorted-IsSorted by_id (keep is_eligible options),
  AllApart-sorted by_id _ (keep-AllApart by_id is_eligible options h),
  All-sorted by_id Predicted _ (All-map _ _ _ is_eligible-Predicted (All-kept is_eligible options)),
)

pub comparators-Thresholds : Thresholds comparators
comparators-Thresholds = ground arith

rank_eligible-reference :
    (infeasible excluded : List String) (rem : List ResponseOption)
    → Rankable rem
    → (r : RankingResult) × (rank_eligible infeasible excluded rem ≡ ok r)
      × (r.recommended_option_id ≡ first_id (reference comparators rem))
      × (r.no_feasible_mitigation ≡ is_none r.recommended_option_id)
unfolding rank_eligible reference survivors
rank_eligible-reference infeasible excluded [] h = (_, refl, refl, refl)
rank_eligible-reference infeasible excluded (o ∷ os) h =
    let (ts, done, trace, (l, ls, left)) =
      run_stages-reference comparators o os comparators-Thresholds h in
    (
      recommendation infeasible excluded (o ∷ os) ts (reference comparators (o ∷ os)),
      rw done refl,
      refl,
      sym (ap (λ r. is_none (first_id r)) left),
    )

-- With options of which no two share an identifier, the ranking returns a result. It recommends
-- the first option that is left of the eligible ones when every comparator in turn keeps those
-- that no other beats by more than its threshold, and it reports that there is no feasible
-- mitigation exactly when it recommends none.
pub rank_options-reference :
    (options : List ResponseOption)
    → Distinct options
    → (r : RankingResult) × (rank_options options ≡ ok r)
      × (r.recommended_option_id ≡ first_id (reference comparators (eligible options)))
      × (r.no_feasible_mitigation ≡ is_none r.recommended_option_id)
unfolding rank_options ranked
rank_options-reference options h = rw (Distinct-test options h) (
    rank_eligible-reference (infeasible_ids options) (excluded_ids options) (eligible options)
      (eligible-Rankable options h))

module _ {ℓ} {A : Type ℓ} (p : A → Bool) where
  keep-same_head :
      (x : A) (xs ys : List A)
      → Permᴰ (keep p xs) (keep p ys)
      → Permᴰ (keep p (x ∷ xs)) (keep p (x ∷ ys))
  keep-same_head x xs ys q = elim (Bool-cases (p x)) [
    | inl e ↦ rw e (Permᴰ.cons refl q)
    | inr e ↦ rw e q
  ]

  keep-swapped : (x y : A) (xs : List A) → Permᴰ (keep p (x ∷ y ∷ xs)) (keep p (y ∷ x ∷ xs))
  keep-swapped x y xs = elim (Bool-cases (p x)) [
    | inl e ↦ elim (Bool-cases (p y)) [
      | inl f ↦ rw (e, f) (Permᴰ.swap refl refl)
      | inr f ↦ rw (e, f) (Permᴰ.refl (x ∷ keep p xs))
    ]
    | inr e ↦ elim (Bool-cases (p y)) [
      | inl f ↦ rw (e, f) (Permᴰ.refl (y ∷ keep p xs))
      | inr f ↦ rw (e, f) (Permᴰ.refl (keep p xs))
    ]
  ]

keep-Permᴰ {ℓ} :
    {A : Type ℓ} (p : A → Bool) {xs ys : List A} → Permᴰ xs ys → Permᴰ (keep p xs) (keep p ys)
keep-Permᴰ p Permᴰ.nil = Permᴰ.nil
keep-Permᴰ p (Permᴰ.cons {b = b} {l₁ = l} {l₂ = k} e q) =
    subst (λ a. Permᴰ (keep p (a ∷ l)) (keep p (b ∷ k))) (sym e)
      (keep-same_head p b l k (keep-Permᴰ p q))
keep-Permᴰ p (Permᴰ.swap {b = b} {a' = a'} {b' = b'} {l = l} e f) =
    subst (λ a. Permᴰ (keep p (a ∷ b ∷ l)) (keep p (a' ∷ b' ∷ l))) (sym e)
      (subst (λ c. Permᴰ (keep p (b' ∷ c ∷ l)) (keep p (a' ∷ b' ∷ l))) (sym f)
        (keep-swapped p b' a' l))
keep-Permᴰ p (Permᴰ.trans q r) = Permᴰ.trans (keep-Permᴰ p q) (keep-Permᴰ p r)

ids-Permᴰ : {xs ys : List ResponseOption} → Permᴰ xs ys → Permᴰ (ids xs) (ids ys)
ids-Permᴰ Permᴰ.nil = Permᴰ.nil
ids-Permᴰ (Permᴰ.cons e q) = Permᴰ.cons (ap (λ o. o.option_id) e) (ids-Permᴰ q)
ids-Permᴰ (Permᴰ.swap e f) = Permᴰ.swap (ap (λ o. o.option_id) e) (ap (λ o. o.option_id) f)
ids-Permᴰ (Permᴰ.trans q r) = Permᴰ.trans (ids-Permᴰ q) (ids-Permᴰ r)

sorted-ids-Permᴰ :
    (p : ResponseOption → Bool) {xs ys : List ResponseOption}
    → Permᴰ xs ys
    → Distinct xs
    → sorted str_order (ids (keep p xs)) ≡ sorted str_order (ids (keep p ys))
sorted-ids-Permᴰ p {xs = xs} q h =
    sorted-permᴰ str_order (ids-Permᴰ (keep-Permᴰ p q))
      (ids-AllApart (keep p xs) (keep-AllApart by_id p xs h))

-- The ranking of options of which no two share an identifier does not depend on the order in
-- which they are given.
pub rank_options-Permᴰ :
    (xs ys : List ResponseOption) → Distinct xs → Permᴰ xs ys → rank_options xs ≡ rank_options ys
unfolding rank_options ranked infeasible_ids excluded_ids
rank_options-Permᴰ xs ys h q =
    rw
      (
        Distinct-test xs h,
        Distinct-test ys (AllApart-perm by_id q h),
        sorted-ids-Permᴰ is_infeasible q h,
        sorted-ids-Permᴰ (λ o. not o.active_mitigation) q h,
      )
      (ap (rank_eligible _ _)
        (sorted-permᴰ by_id (keep-Permᴰ is_eligible q) (keep-AllApart by_id is_eligible xs h)))
