-- ===== src/Analysis/Ranking/Rounds.antt =====
-- The rounds of the ranking compute the survivors, and the loop computes the reference.
use supply_response.Base.{
  ◌≡◌, refl, ◌∙◌, ap, sym, subst, Bool, true, false, not, List, [], ◌∷◌, map, keep, all, All,
  if◌then◌else◌, Bool-cases, inl, inr, arith, All-keep, all-All, IsNonEmpty, keep_cong, keep-none,
  length, ◌==◌, contains, fun_ext,
}
use supply_response.Base.Int.{pos, ◌+ℤ◌, leb_ℤ, ◌≤ℤ◌, +ℤ_parts}
use supply_response.Base.Order.{Order, AllApart, Apart, IsSorted}
use supply_response.Base.Result.{ok}
use supply_response.Domain.Analysis.{ResponseOption, RankingStage, number, text, ComparatorValue}
use supply_response.Analysis.Ranking.{
  Comparator, minimum, by_id, is_option_id, stage, numeric_stage, identity_stage, least, ids,
  run_stages, trace_of,
}
use supply_response.Analysis.Ranking.Reference.{
  score, scored, stands, survivors, Predicted, numeric_values-score, leb-minimum, map-keep-scored,
  reference,
}
use supply_response.Analysis.Ranking.Survivors.{survivors-IsNonEmpty, le_refl}

-- Options as the loop sees them: ascending by identifier, no identifier twice, outcomes known.
abbrev pub Rankable : List ResponseOption → Type 0
Rankable os = IsSorted by_id os × AllApart by_id os × All Predicted os

module _ {ℓ} {A : Type ℓ} (o : Order A) where
  keep-IsSorted : (p : A → Bool) (xs : List A) → IsSorted o xs → IsSorted o (keep p xs)
  keep-IsSorted p [] h = tt
  keep-IsSorted p (x ∷ xs) h = elim (Bool-cases (p x)) [
    | inl e ↦ rw e (All-keep _ p xs h.0, keep-IsSorted p xs h.1)
    | inr e ↦ rw e (keep-IsSorted p xs h.1)
  ]

  pub keep-AllApart : (p : A → Bool) (xs : List A) → AllApart o xs → AllApart o (keep p xs)
  keep-AllApart p [] h = tt
  keep-AllApart p (x ∷ xs) h = elim (Bool-cases (p x)) [
    | inl e ↦ rw e (All-keep _ p xs h.0, keep-AllApart p xs h.1)
    | inr e ↦ rw e (keep-AllApart p xs h.1)
  ]

module _ {ℓ} {A : Type ℓ} (o : Order A) where
  others_above :
      (x : A) (xs ys : List A)
      → All (λ y. o.le x y ≡ true) ys
      → All (Apart o x) ys
      → All (λ y. all (o.le y) (x ∷ xs) ≡ false) ys
  others_above x xs [] h k = tt
  others_above x xs (y ∷ ys) h k = (ground (arith, k.0, h.0), others_above x xs ys h.1 k.1)

  -- Below every item of a sorted list stands its first; and no other, since the keys differ.
  least_only :
      (x : A) (xs : List A)
      → IsSorted o (x ∷ xs)
      → AllApart o (x ∷ xs)
      → keep (λ y. all (o.le y) (x ∷ xs)) (x ∷ xs) ≡ x ∷ []
  least_only x xs h k =
      rw (le_refl o x, all-All (o.le x) xs h.0)
        (ap (λ r. x ∷ r) (keep-none (λ y. all (o.le y) (x ∷ xs)) xs (others_above x xs xs h.0 k.0)))

pub Rankable-keep :
    (p : ResponseOption → Bool) (os : List ResponseOption) → Rankable os → Rankable (keep p os)
Rankable-keep p os h =
    (keep-IsSorted by_id p os h.0, keep-AllApart by_id p os h.1, All-keep Predicted p os h.2)

-- What the trace of a round records.
pub record Records (c : Comparator) (rem retained : List ResponseOption) (t : RankingStage)
    : Type 0 where
  pub comparator_is : t.comparator ≡ c.name
  pub input_is : t.input_option_ids ≡ ids rem
  pub retained_is : t.retained_option_ids ≡ ids retained
  pub eliminated_is :
      t.eliminated_option_ids ≡ keep (λ i. not (contains i (ids retained))) (ids rem)

abbrev RoundOf : Comparator → List ResponseOption → Type 0
RoundOf c rem =
    (t : RankingStage) × (stage c rem ≡ ok (t, survivors c rem)) × Records c rem (survivors c rem) t

Records-trace_of :
    (c : Comparator) (rem retained : List ResponseOption) (values : List ComparatorValue)
    → Records c rem retained (trace_of c rem values retained)
unfolding trace_of
Records-trace_of c rem retained values = record {
  comparator_is = refl;
  input_is = refl;
  retained_is = refl;
  eliminated_is = refl;
}

stands_numeric :
    (c : Comparator) (p : ResponseOption)
    → is_option_id c.name ≡ false
    → stands c p ≡ (λ q. leb_ℤ (score c.name p) (score c.name q +ℤ c.threshold))
unfolding stands
stands_numeric c p e = fun_ext (λ q.
    ap (λ b. if b then by_id.le p q else leb_ℤ (score c.name p) (score c.name q +ℤ c.threshold)) e)

near_best :
    (c : Comparator) (o : ResponseOption) (os : List ResponseOption)
    → is_option_id c.name ≡ false
    → map
        (λ p. p.0)
        (keep
          (λ p. leb_ℤ p.1 (minimum (score c.name o) (scored c.name os) +ℤ c.threshold))
          (scored c.name (o ∷ os)))
      ≡ survivors c (o ∷ os)
unfolding survivors
near_best c o os e =
    let limit = minimum (score c.name o) (scored c.name os) +ℤ c.threshold in
    map-keep-scored c.name (λ v. leb_ℤ v limit) (o ∷ os)
    ∙ keep_cong (λ p. leb_ℤ (score c.name p) limit) (λ p. all (stands c p) (o ∷ os)) (o ∷ os)
        (λ p.
          leb-minimum c.name (score c.name p) c.threshold (score c.name o) os
          ∙ ap (λ f. all f (o ∷ os)) (sym (stands_numeric c p e)))

numeric_stage-survivors :
    (c : Comparator) (o : ResponseOption) (os : List ResponseOption)
    → is_option_id c.name ≡ false
    → All Predicted (o ∷ os)
    → (t : RankingStage) × (numeric_stage c (o ∷ os) ≡ ok (t, survivors c (o ∷ os)))
      × Records c (o ∷ os) (survivors c (o ∷ os)) t
unfolding numeric_stage
numeric_stage-survivors c o os e h =
    let values =
      map (λ p. record { option_id = p.0.option_id; value = number p.1 })
        (scored c.name (o ∷ os)) in
    (
      trace_of c (o ∷ os) values (survivors c (o ∷ os)),
      rw (numeric_values-score c.name (o ∷ os) e h)
          (ap (λ r. ok (trace_of c (o ∷ os) values r, r)) (near_best c o os e)),
      Records-trace_of c (o ∷ os) _ values,
    )

least-head :
    (o : ResponseOption) (os : List ResponseOption)
    → All (λ p. by_id.le o p ≡ true) os
    → least o os ≡ o
unfolding least
least-head o [] h = refl
least-head o (p ∷ os) h = rw h.0 (least-head o os h.1)

stands_identity : (c : Comparator) → is_option_id c.name ≡ true → stands c ≡ by_id.le
unfolding stands
stands_identity c e = fun_ext (λ p. fun_ext (λ q.
    ap (λ b. if b then by_id.le p q else leb_ℤ (score c.name p) (score c.name q +ℤ c.threshold)) e))

survivors_identity :
    (c : Comparator) (o : ResponseOption) (os : List ResponseOption)
    → is_option_id c.name ≡ true
    → Rankable (o ∷ os)
    → survivors c (o ∷ os) ≡ o ∷ []
unfolding survivors
survivors_identity c o os e h =
    ap (λ f. keep (λ p. all (f p) (o ∷ os)) (o ∷ os)) (stands_identity c e)
    ∙ least_only by_id o os h.0 h.1

identity_stage-survivors :
    (c : Comparator) (o : ResponseOption) (os : List ResponseOption)
    → is_option_id c.name ≡ true
    → Rankable (o ∷ os)
    → (t : RankingStage) × (identity_stage c (o ∷ os) ≡ ok (t, survivors c (o ∷ os)))
      × Records c (o ∷ os) (survivors c (o ∷ os)) t
unfolding identity_stage
identity_stage-survivors c o os e h =
    let values = map (λ p. record { option_id = p.option_id; value = text p.option_id }) (o ∷ os) in
    let same = ap (λ p. p ∷ []) (least-head o os h.0.0) ∙ sym (survivors_identity c o os e h) in
    (
      trace_of c (o ∷ os) values (survivors c (o ∷ os)),
      ap (λ r. ok (trace_of c (o ∷ os) values r, r)) same,
      Records-trace_of c (o ∷ os) _ values,
    )

pub stage-survivors :
    (c : Comparator) (o : ResponseOption) (os : List ResponseOption)
    → Rankable (o ∷ os)
    → RoundOf c (o ∷ os)
unfolding stage
stage-survivors c o os h = elim (Bool-cases (is_option_id c.name)) [
  | inl e ↦ rw e (identity_stage-survivors c o os e h)
  | inr e ↦ rw e (numeric_stage-survivors c o os e h.2)
]

-- A single option survives every further round: the loop may stop early.
survivors_single :
    (c : Comparator) (o : ResponseOption) → pos 0 ≤ℤ c.threshold → survivors c (o ∷ []) ≡ o ∷ []
unfolding survivors stands
survivors_single c o h = ground (arith, le_refl by_id o, +ℤ_parts (score c.name o) c.threshold)

-- No comparator rewards a worse value.
abbrev pub Thresholds : List Comparator → Type 0
Thresholds = All (λ c. pos 0 ≤ℤ c.threshold)

reference_single :
    (cs : List Comparator) (o : ResponseOption) → Thresholds cs → reference cs (o ∷ []) ≡ o ∷ []
unfolding reference
reference_single [] o h = refl
reference_single (c ∷ cs) o h =
    ap (reference cs) (survivors_single c o h.0) ∙ reference_single cs o h.1

-- The traces of a run of rounds: each takes what the round before it retained, and the run ends
-- with the comparators or with a single option.
pub data Trace
    : List Comparator → List ResponseOption → List RankingStage → List ResponseOption → Type 0 where
  exhausted : {rem : List ResponseOption} → Trace [] rem [] rem
  stopped : {cs : List Comparator} {o : ResponseOption} → Trace cs (o ∷ []) [] (o ∷ [])
  round :
      {c : Comparator} {cs : List Comparator} {rem retained left : List ResponseOption}
      {t : RankingStage} {ts : List RankingStage}
      → Records c rem retained t
      → Trace cs retained ts left
      → Trace (c ∷ cs) rem (t ∷ ts) left

abbrev Runs : List Comparator → List ResponseOption → Type 0
Runs cs rem =
    (ts : List RankingStage) × (run_stages cs rem ≡ ok (ts, reference cs rem))
    × Trace cs rem ts (reference cs rem)
    × IsNonEmpty (reference cs rem)

several_left :
    (p q : ResponseOption) (qs : List ResponseOption) → (length (p ∷ q ∷ qs) == 1) ≡ false
several_left p q qs = ground arith

Runs-round :
    (c : Comparator) (cs : List Comparator) (rem : List ResponseOption) (t : RankingStage)
    (p : ResponseOption) (ps : List ResponseOption)
    → Thresholds cs
    → stage c rem ≡ ok (t, p ∷ ps)
    → Records c rem (p ∷ ps) t
    → survivors c rem ≡ p ∷ ps
    → Runs cs (p ∷ ps)
    → Runs (c ∷ cs) rem
unfolding run_stages reference
Runs-round c cs rem t p [] h done records left runs =
    let same = ap (reference cs) left ∙ reference_single cs p h in
    (
      t ∷ [],
      rw done (ap (λ r. ok (t ∷ [], r)) (sym same)),
      subst (Trace (c ∷ cs) rem (t ∷ [])) (sym same) (Trace.round records Trace.stopped),
      (p, [], same),
    )
Runs-round c cs rem t p (q ∷ qs) h done records left runs =
    let (ts, rest, trace, (l, ls, some_left)) = runs in
    let same = ap (reference cs) left in
    let several = several_left p q qs in
    (
      t ∷ ts,
      rw (done, rest, several) (ap (λ r. ok (t ∷ ts, r)) (sym same)),
      subst (Trace (c ∷ cs) rem (t ∷ ts)) (sym same) (Trace.round records trace),
      (l, ls, same ∙ some_left),
    )

-- The loop returns, with what the reference leaves, which is not empty.
pub run_stages-reference :
    (cs : List Comparator) (o : ResponseOption) (os : List ResponseOption)
    → Thresholds cs
    → Rankable (o ∷ os)
    → Runs cs (o ∷ os)
unfolding run_stages reference
run_stages-reference [] o os h k = ([], refl, Trace.exhausted, (o, os, refl))
run_stages-reference (c ∷ cs) o os h k =
    let (t, done, records) = stage-survivors c o os k in
    let (p, ps, left) = survivors-IsNonEmpty c o os h.0 in
    let rankable =
      subst Rankable left
        (unfold survivors in Rankable-keep (λ q. all (stands c q) (o ∷ os)) (o ∷ os) k) in
    Runs-round c cs (o ∷ os) t p ps h.1 (done ∙ ap (λ r. ok (t, r)) left)
      (subst (λ r. Records c (o ∷ os) r t) left records) left
      (run_stages-reference cs p ps h.1 rankable)
