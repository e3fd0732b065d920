-- ===== src/Persistence/Presenter.antt =====
-- services/persistence/presenter_runs.py, `plan_presenter_retention`: which presenter cases are kept.
-- A row of `case_instances` has the case that its payload decodes to, if it does; the counts of the
-- rows to delete are not modelled.
use supply_response.Base.{
  ℕ, zero, suc, ◌≤◌, ◌≡◌, refl, ap, ◌∙◌, sym, subst, String, Bool, true, false, not, ◌&&◌, ◌||◌,
  Option, none, some, List, [], ◌∷◌, keep, take, drop, length, length-take-le, take-append-drop,
  str_eq, str_eq_refl, eq_iff, if◌then◌else◌, contains, arith, Bool-cases, inl, inr, ◌⊎◌,
}
use supply_response.Base.Members.{contains-keep, contains-append}
use supply_response.Base.Int.{ℤ, pos, negsuc}
use supply_response.Base.Order.{Order, sorted}
use supply_response.Base.Keys.{str_order, nat_order, pair_le, pair_total, pair_trans}
use supply_response.Base.Result.{
  Result, ok, err, ◌>>=◌, ◌>>◌, guard, >>=-eq-ok, guard-eq-ok, ok-injective,
}
use supply_response.Domain.Common.{Instant, RuntimeMode, live, fallback, CasePurpose, showcase}

-- The fields of a decoded case that the plan reads; `supplier_bound` is `supplier_email is not None`.
pub record StoredCase : Type 0 where
  pub case_id : String
  pub runtime_mode : RuntimeMode
  pub purpose : CasePurpose
  pub supplier_bound : Bool

pub record CaseRow : Type 0 where
  pub case_id : String
  pub runtime_mode : RuntimeMode
  pub purpose : CasePurpose
  pub recorded_at : Instant
  pub decoded : Option StoredCase

pub data RetentionError : Type 0 where
  value_error persistence_integrity_error : RetentionError

pub record PresenterRetentionPlan : Type 0 where
  pub current_case_id : String
  pub retained_case_ids : List String
  pub pruned_case_ids : List String

abbrev is_live : RuntimeMode → Bool
is_live live = true
is_live fallback = false

abbrev is_showcase : CasePurpose → Bool
is_showcase showcase = true
is_showcase _ = false

abbrev age : CaseRow → ℕ × String
age r = (r.recorded_at, r.case_id)

-- The newest first.
abbrev newest_first : Order CaseRow
newest_first = record {
  le = λ a b. pair_le nat_order str_order (age b) (age a);
  total = λ a b h. pair_total nat_order str_order (age b) (age a) h;
  trans = λ a b c h k. pair_trans nat_order str_order (age c) (age b) (age a) k h;
}

abbrev is_eligible : CaseRow → StoredCase → Bool
is_eligible r c =
    is_live c.runtime_mode
    && is_showcase c.purpose
    && c.supplier_bound
    && str_eq c.case_id r.case_id

-- The loop over the selected rows.
unfoldable pub eligible_of : List CaseRow → Result RetentionError (List String)
eligible_of [] = ok []
eligible_of (r ∷ rs) = elim r.decoded [
  | none ↦ err persistence_integrity_error
  | some c ↦ do rest ← eligible_of rs; ok (if is_eligible r c then c.case_id ∷ rest else rest)
]

unfoldable pub eligible : List CaseRow → Result RetentionError (List String)
unfolding eligible_of sorted
eligible rows =
    eligible_of
      (sorted newest_first (keep (λ r. is_live r.runtime_mode && is_showcase r.purpose) rows))

abbrev split_at : String → ℕ → List String → PresenterRetentionPlan
split_at current limit ids =
    let history = keep (λ i. not (str_eq i current)) ids in
    record {
      current_case_id = current;
      retained_case_ids = current ∷ take limit history;
      pruned_case_ids = drop limit history;
    }

unfoldable pub plan_of :
    Option String → ℕ → List String → Result RetentionError PresenterRetentionPlan
unfolding contains
plan_of none limit [] =
    ok record { current_case_id = ""; retained_case_ids = []; pruned_case_ids = [] }
plan_of none limit (i ∷ ids) = ok (split_at i limit (i ∷ ids))
plan_of (some current) limit ids = do
  guard (contains current ids) value_error
  ok (split_at current limit ids)

unfoldable pub plan_presenter_retention :
    List CaseRow → Option String → ℤ → Result RetentionError PresenterRetentionPlan
unfolding eligible plan_of
plan_presenter_retention rows current (negsuc n) = err value_error
plan_presenter_retention rows current (pos limit) = do
  ids ← eligible rows
  plan_of current limit ids

-- What a plan is to do with an identifier, the eligible ones and the limit.
abbrev pub Bounded : ℕ → List String → String → PresenterRetentionPlan → Type 0
Bounded limit ids i p =
    (length p.retained_case_ids ≤ suc limit)
    × ((p.pruned_case_ids ≡ []) ⊎ (length p.retained_case_ids ≡ suc limit))
    × (contains i ids ≡ (contains i p.retained_case_ids || contains i p.pruned_case_ids))
    × (contains p.current_case_id p.pruned_case_ids ≡ false)

drop-full : (n : ℕ) (xs : List String) → (drop n xs ≡ []) ⊎ (length (take n xs) ≡ n)
drop-full zero xs = inr refl
drop-full (suc n) [] = inl refl
drop-full (suc n) (x ∷ xs) = elim (drop-full n xs) [ inl h ↦ inl h | inr h ↦ inr (ap suc h) ]

contains-current :
    (i current : String) (ids : List String)
    → contains current ids ≡ true
    → contains i ids ≡ (str_eq i current || (not (str_eq i current) && contains i ids))
contains-current i current ids h = elim (Bool-cases (str_eq i current)) [
  | inl e ↦ rw e (ap (λ s. contains s ids) ((eq_iff i current).0 e) ∙ h)
  | inr e ↦ rw e refl
]

-- What is kept or pruned of the others.
history_parts :
    (i current : String) (limit : ℕ) (ids : List String)
    → (contains i (take limit (keep (λ j. not (str_eq j current)) ids))
        || contains i (drop limit (keep (λ j. not (str_eq j current)) ids)))
      ≡ (not (str_eq i current) && contains i ids)
history_parts i current limit ids =
    let history = keep (λ j. not (str_eq j current)) ids in
    sym (contains-append i (take limit history) (drop limit history))
    ∙ ap (contains i) (take-append-drop limit history)
    ∙ contains-keep (λ j. not (str_eq j current)) i ids

contains-head : (i : String) (ids : List String) → contains i (i ∷ ids) ≡ true
unfolding contains
contains-head i ids = ground (arith, str_eq_refl i)

split_at-Bounded :
    (current : String) (limit : ℕ) (ids : List String) (i : String)
    → contains current ids ≡ true
    → Bounded limit ids i (split_at current limit ids)
unfolding contains
split_at-Bounded current limit ids i h =
    let history = keep (λ j. not (str_eq j current)) ids in
    let bound = length-take-le limit history in
    (
      omega (arith, bound),
      elim (drop-full limit history) [ inl e ↦ inl e | inr e ↦ inr (ap suc e) ],
      contains-current i current ids h ∙ ground (arith, history_parts i current limit ids),
      ground (arith, history_parts current current limit ids, str_eq_refl current),
    )

plan_of-Bounded :
    (current : Option String) (limit : ℕ) (ids : List String) (i : String)
    (p : PresenterRetentionPlan)
    → plan_of current limit ids ≡ ok p
    → Bounded limit ids i p
unfolding plan_of
plan_of-Bounded none limit [] i p e =
    subst (Bounded limit [] i) (sym (ok-injective e (λ q. q))) (omega arith, inl refl, refl, refl)
plan_of-Bounded none limit (j ∷ ids) i p e =
    subst (Bounded limit (j ∷ ids) i) (sym (ok-injective e (λ q. q)))
      (split_at-Bounded j limit (j ∷ ids) i (contains-head j ids))
plan_of-Bounded (some current) limit ids i p e =
    let (found, e₁) = guard-eq-ok (contains current ids) value_error _ e in
    subst (Bounded limit ids i) (sym (ok-injective e₁ (λ q. q)))
      (split_at-Bounded current limit ids i found)

-- A presenter retention plan, if it is made, has the eligible cases: every one of them is retained or
-- pruned, and no other is; at most the current case and `limit` more are retained, and exactly so
-- many if any is pruned; the current case is not pruned.
pub plan_presenter_retention-Bounded :
    (rows : List CaseRow) (current : Option String) (limit : ℕ) (i : String)
    (p : PresenterRetentionPlan)
    → plan_presenter_retention rows current (pos limit) ≡ ok p
    → (ids : List String) × (eligible rows ≡ ok ids) × Bounded limit ids i p
unfolding plan_presenter_retention
plan_presenter_retention-Bounded rows current limit i p e =
    let (ids, found, e₁) = >>=-eq-ok (eligible rows) _ e in
    (ids, found, plan_of-Bounded current limit ids i p e₁)
