-- ===== src/Policy/Evidence/Permitted.antt =====
-- services/policy/evidence.py: what a valid scope, a current retrieval and a valid period of an item of
-- evidence mean, field by field.
use supply_response.Base.{
  ℕ, ◌+◌, ◌≡◌, ◌≤◌, ◌<◌, ◌⊎◌, ap, ◌∙◌, sym, String, Bool, true, false, not, ◌&&◌, ◌||◌, Option,
  none, some, List, [], ◌∷◌, any, keep, str_eq, eq_iff, arith, Option-cases, Bool-cases, inl, inr,
  All, All-map, All-all, All-kept, All-keep, &&-true,
}
use supply_response.Base.Order.{All-sorted}
use supply_response.Base.Result.{if_split}
use supply_response.Domain.Common.{RuntimeMode}
use supply_response.Domain.Evidence.{AuthorityScope, EvidenceItem, current, valid, scope_value}
use supply_response.Policy.Evidence.{
  Run, source_authority, source_runs_in, kind_authority, has_scope, scopes_within, first_by,
  by_value, scope_set, mode_eq, validated_scope, is_contextual, non_empty, scope_valid, is_healthy,
  timestamps_ordered, current_retrieval, retrieval_in_window, freshness_of, business_validity_of,
  evidence_retrieval_window,
}

-- Both the source and the kind of an item may claim a scope.
abbrev pub is_permitted : EvidenceItem → AuthorityScope → Bool
is_permitted item s =
    has_scope s (source_authority item.source_system) && has_scope s (kind_authority item.kind)

-- An item may claim all its scopes, of which it has at least one, in the mode of the run, in which its source
-- may be used.
abbrev pub Permitted : EvidenceItem → RuntimeMode → Type 0
Permitted item mode =
    (is_contextual item.kind ≡ false)
    × (non_empty item.authority_scope ≡ true)
    × (item.runtime_mode ≡ mode)
    × (source_runs_in item.source_system mode ≡ true)
    × All (λ s. is_permitted item s ≡ true) item.authority_scope

-- The retrieval was made for this analysis, in good health, after the source's own time, and in time.
abbrev pub Retrieved : EvidenceItem → Run → Type 0
Retrieved item run =
    (str_eq item.retrieved_for_analysis_id run.analysis_id ≡ true)
    × (is_healthy item.retrieval_health ≡ true)
    × ((t : ℕ) × (r : ℕ) × (item.source_timestamp ≡ some t)
        × (item.retrieved_at ≡ some r)
        × (t ≤ r)
        × (run.analysis_started_at ≤ r)
        × (r ≤ run.analysis_started_at + evidence_retrieval_window)
        × (r ≤ run.analysis_recorded_at))

-- A bound that is absent, or that holds.
abbrev pub Unless : Option ℕ → (ℕ → Type 0) → Type 0
Unless bound P = (bound ≡ none) ⊎ ((t : ℕ) × (bound ≡ some t) × P t)

-- The scenario's time is not before the item's effect, and is before its expiry.
abbrev pub InForce : EvidenceItem → Run → Type 0
InForce item run =
    Unless item.effective_at (λ t. t ≤ run.scenario_effective_time)
    × Unless item.expires_at (λ t. run.scenario_effective_time < t)

pub Retrieved-current :
    (item : EvidenceItem) (run : Run) → freshness_of item run ≡ current → Retrieved item run
unfolding freshness_of timestamps_ordered current_retrieval retrieval_in_window
Retrieved-current item run h = elim (Option-cases item.retrieved_at) [
  | inl missing ↦ absurd (ground (arith, missing))
  | inr (r, found) ↦ elim (Option-cases item.source_timestamp) [
    | inl unknown ↦ absurd (ground (arith, unknown))
    | inr (t, stamped) ↦ (
      ground (arith, found, stamped),
      ground (arith, found, stamped),
      (
        t,
        r,
        stamped,
        found,
        ground (arith, found, stamped),
        ground (arith, found, stamped),
        ground (arith, found, stamped),
        ground (arith, found, stamped),
      ),
    )
  ]
]

pub InForce-valid :
    (item : EvidenceItem) (run : Run) → business_validity_of item run ≡ valid → InForce item run
unfolding business_validity_of
InForce-valid item run h = (
  elim (Option-cases item.effective_at) [
    | inl e ↦ inl e
    | inr (t, e) ↦ inr (t, e, ground (arith, e))
  ],
  elim (Option-cases item.expires_at) [
    | inl e ↦ inl e
    | inr (t, e) ↦ inr (t, e, ground (arith, e))
  ],
)

-- Membership goes by the text of a scope.
is_permitted-value :
    (item : EvidenceItem) (s t : AuthorityScope)
    → str_eq (scope_value s) (scope_value t) ≡ true
    → is_permitted item t ≡ is_permitted item s
unfolding has_scope
is_permitted-value item s t h =
    ap
      (λ v.
        any (λ u. str_eq v (scope_value u)) (source_authority item.source_system)
        && any (λ u. str_eq v (scope_value u)) (kind_authority item.kind))
      (sym ((eq_iff (scope_value s) (scope_value t)).0 h))

has_scope-permitted :
    (item : EvidenceItem) (s : AuthorityScope) (scopes : List AuthorityScope)
    → All (λ t. is_permitted item t ≡ true) scopes
    → has_scope s scopes ≡ true
    → is_permitted item s ≡ true
unfolding has_scope
has_scope-permitted item s [] h k = absurd (cc k)
has_scope-permitted item s (t ∷ ts) h k =
    elim (Bool-cases (str_eq (scope_value s) (scope_value t))) [
      | inl e ↦ sym (is_permitted-value item s t e) ∙ h.0
      | inr e ↦ has_scope-permitted item s ts h.1 (ground (arith, e))
    ]

All-first_by :
    {A : Type 0} (P : A → Type 0) (key : A → String) (xs : List A)
    → All P xs
    → All P (first_by key xs)
unfolding first_by
All-first_by P key [] h = tt
All-first_by P key (x ∷ xs) h = (
  h.0,
  All-keep P (λ y. not (str_eq (key x) (key y))) (first_by key xs) (All-first_by P key xs h.1),
)

abbrev in_mode : EvidenceItem → RuntimeMode → Bool
in_mode item mode = mode_eq item.runtime_mode mode && source_runs_in item.source_system mode

All-validated_scope :
    (item : EvidenceItem) (mode : RuntimeMode)
    → All (λ t. is_permitted item t ≡ true) (validated_scope item mode)
unfolding validated_scope scope_set
All-validated_scope item mode =
    if_split (All (λ t. is_permitted item t ≡ true)) (in_mode item mode)
      (scope_set (keep (is_permitted item) item.authority_scope)) []
      (λ _.
        All-sorted by_value _ (first_by scope_value (keep (is_permitted item) item.authority_scope))
          (All-first_by _ scope_value (keep (is_permitted item) item.authority_scope)
            (All-kept (is_permitted item) item.authority_scope)))
      (λ _. tt)

has_scope-in_mode :
    (item : EvidenceItem) (mode : RuntimeMode) (s : AuthorityScope)
    → has_scope s (validated_scope item mode) ≡ true
    → in_mode item mode ≡ true
unfolding validated_scope has_scope
has_scope-in_mode item mode s h = elim (Bool-cases (in_mode item mode)) [
  | inl e ↦ e
  | inr e ↦ absurd (ground (arith, h, e))
]

mode_eq-≡ : (a b : RuntimeMode) → mode_eq a b ≡ true → a ≡ b
mode_eq-≡ a b h = ground (arith, h)

scopes_within-permitted :
    (item : EvidenceItem) (mode : RuntimeMode) (scopes : List AuthorityScope)
    → scopes_within scopes (validated_scope item mode) ≡ true
    → non_empty scopes ≡ true
    → (in_mode item mode ≡ true) × All (λ s. is_permitted item s ≡ true) scopes
unfolding scopes_within
scopes_within-permitted item mode [] h k = absurd (cc k)
scopes_within-permitted item mode (s ∷ ss) h k =
    let each = All-all (λ u. has_scope u (validated_scope item mode)) (s ∷ ss) h in
    (
      has_scope-in_mode item mode s each.0,
      All-map _ _ (s ∷ ss)
          (λ u within.
            has_scope-permitted item u (validated_scope item mode) (All-validated_scope item mode)
              within)
          each,
    )

pub Permitted-scope_valid :
    (item : EvidenceItem) (run : Run)
    → scope_valid item run ≡ true
    → Permitted item run.runtime_mode
unfolding scope_valid
Permitted-scope_valid item run h =
    let several : non_empty item.authority_scope ≡ true = ground (arith, h) in
    let (used, each) =
      scopes_within-permitted item run.runtime_mode item.authority_scope (ground (arith, h))
        several in
    let (same, runs) = &&-true _ _ used in
    (ground (arith, h), several, mode_eq-≡ item.runtime_mode run.runtime_mode same, runs, each)

-- Tests of an item, taken apart.
pub six :
    (a b c d e f : Bool)
    → (a && b && c && d && e && f) ≡ true
    → (a ≡ true) × (b ≡ true) × (c ≡ true) × ((d ≡ true) × ((e ≡ true) × (f ≡ true)))
six a b c d e f h = ground arith

pub cited_or_not :
    (required runs_live from_work_iq navigable blank missing : Bool)
    → required ≡ true
    → (required && runs_live && from_work_iq && not navigable) ≡ false
    → (required && runs_live && from_work_iq && (blank || missing)) ≡ false
    → (not (runs_live && from_work_iq) || (navigable && not blank && not missing)) ≡ true
cited_or_not required runs_live from_work_iq navigable blank missing h cited described =
    ground (arith, h, cited, described)
