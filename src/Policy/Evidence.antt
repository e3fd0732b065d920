-- ===== src/Policy/Evidence.antt =====
-- services/policy/evidence.py: the validation of one item of evidence, and the authority to resolve a
-- conflict. `urlparse` is a parameter.
pub mod Permitted
pub mod Item
pub mod Resolver
pub mod Required
pub mod Passed
pub mod Codes
pub mod Clear
pub mod Unique
pub mod Resolved
use supply_response.Base.{
  ℕ, ◌+◌, String, Bool, true, false, not, ◌&&◌, ◌||◌, Option, none, some, is_some, is_none, List,
  [], ◌∷◌, ◌++◌, map, keep, any, all, leb, ltb, str_eq, if◌then◌else◌, contains, subset, strip,
  is_empty,
}
use supply_response.Base.Order.{by, sorted, Order}
use supply_response.Base.Keys.{str_order}
use supply_response.Base.Result.{Result, ok, err, ◌>>=◌, ◌>>◌, guard}
use supply_response.Domain.Common.{Instant, RuntimeMode, live, fallback}
use supply_response.Domain.Evidence.{
  EvidenceKind, operational_fact, source_statement, prerequisite, contextual_evidence,
  EvidenceSourceSystem, fabric, sqlite, work_iq, server, synthetic_fixture, AuthorityScope,
  operational_quantity, operational_date, qualification_state, supplier_statement,
  collaboration_statement, prerequisite_approval, EvidenceRequirement, required_authoritative,
  contextual, FreshnessState, current, stale, BusinessValidityState, valid, not_yet_effective,
  expired, UncertaintyState, certain, uncertain, conflicted, RetrievalHealth, healthy, unhealthy,
  EvidenceBlockingCode, required_citation_missing, required_source_metadata_missing,
  evidence_timestamp_stale, evidence_retrieval_outside_window, retrieval_health_unacceptable,
  evidence_not_yet_effective, evidence_expired, authority_scope_mismatch, EvidenceItem,
  EvidenceConflict, ActorProvenance, ConflictResolution, EvidenceItemValidation, EvidenceValidation,
  scope_value, code_value,
}

abbrev pub evidence_policy_version : String
evidence_policy_version = "evidence-policy-v3"

-- Five minutes, in microseconds.
abbrev pub evidence_retrieval_window : ℕ
evidence_retrieval_window = 300000000

-- `PolicyViolation`, pydantic's `ValidationError`, or the `ValueError` of `urlparse`; all are
-- `ValueError`s.
pub data PolicyError : Type 0 where
  policy_violation validation_error address_error : PolicyError

abbrev pub operational_scopes : List AuthorityScope
operational_scopes = operational_quantity ∷ operational_date ∷ qualification_state ∷ []

abbrev pub statements : List AuthorityScope
statements = supplier_statement ∷ collaboration_statement ∷ []

unfoldable pub source_authority : EvidenceSourceSystem → List AuthorityScope
source_authority fabric = operational_scopes
source_authority sqlite = operational_scopes
source_authority work_iq = statements
source_authority server = prerequisite_approval ∷ []
source_authority synthetic_fixture = operational_scopes ++ statements

unfoldable pub source_runs_in : EvidenceSourceSystem → RuntimeMode → Bool
source_runs_in fabric live = true
source_runs_in sqlite fallback = true
source_runs_in work_iq live = true
source_runs_in server m = true
source_runs_in synthetic_fixture fallback = true
source_runs_in _ _ = false

unfoldable pub kind_authority : EvidenceKind → List AuthorityScope
kind_authority operational_fact = operational_scopes
kind_authority source_statement = statements
kind_authority prerequisite = prerequisite_approval ∷ []
kind_authority contextual_evidence = statements

unfoldable pub has_scope : AuthorityScope → List AuthorityScope → Bool
unfolding scope_value
has_scope s scopes = any (λ t. str_eq (scope_value s) (scope_value t)) scopes

unfoldable pub scopes_within : List AuthorityScope → List AuthorityScope → Bool
unfolding has_scope
scopes_within scopes allowed = all (λ s. has_scope s allowed) scopes

-- The first of the items of each key.
unfoldable pub first_by : {A : Type 0} → (A → String) → List A → List A
first_by key [] = []
first_by key (x ∷ xs) = x ∷ keep (λ y. not (str_eq (key x) (key y))) (first_by key xs)

abbrev pub by_value : Order AuthorityScope
by_value = by scope_value str_order

-- `tuple(sorted(set(scopes), key=value))`
unfoldable pub scope_set : List AuthorityScope → List AuthorityScope
unfolding sorted first_by
scope_set scopes = sorted by_value (first_by scope_value scopes)

abbrev pub mode_eq : RuntimeMode → RuntimeMode → Bool
mode_eq live live = true
mode_eq fallback fallback = true
mode_eq _ _ = false

unfoldable pub validated_scope : EvidenceItem → RuntimeMode → List AuthorityScope
unfolding scope_set has_scope source_authority kind_authority source_runs_in
validated_scope item runtime_mode =
    if mode_eq item.runtime_mode runtime_mode && source_runs_in item.source_system runtime_mode
    then scope_set (
        keep
          (λ s.
            has_scope s (source_authority item.source_system)
            && has_scope s (kind_authority item.kind))
          item.authority_scope)
    else []

abbrev pub is_blank : String → Bool
is_blank s = is_empty (strip s)

-- The arguments that the items of one analysis share.
pub record Run : Type 0 where
  pub analysis_id : String
  pub runtime_mode : RuntimeMode
  pub scenario_effective_time : Instant
  pub analysis_started_at : Instant
  pub analysis_recorded_at : Instant

abbrev pub is_contextual : EvidenceKind → Bool
is_contextual contextual_evidence = true
is_contextual _ = false

abbrev pub non_empty {ℓ} : {A : Type ℓ} → List A → Bool
non_empty [] = false
non_empty (x ∷ xs) = true

unfoldable pub scope_valid : EvidenceItem → Run → Bool
unfolding validated_scope scopes_within
scope_valid item run =
    not (is_contextual item.kind)
    && non_empty item.authority_scope
    && scopes_within item.authority_scope (validated_scope item run.runtime_mode)

abbrev pub is_required : EvidenceRequirement → Bool
is_required required_authoritative = true
is_required contextual = false

abbrev pub is_work_iq : EvidenceSourceSystem → Bool
is_work_iq work_iq = true
is_work_iq _ = false

abbrev pub is_healthy : RetrievalHealth → Bool
is_healthy healthy = true
is_healthy unhealthy = false

unfoldable pub timestamps_ordered : EvidenceItem → Bool
timestamps_ordered item = elim item.source_timestamp [
  | none ↦ false
  | some t ↦ elim item.retrieved_at [ none ↦ false | some r ↦ leb t r ]
]

unfoldable pub current_retrieval : EvidenceItem → Run → Bool
current_retrieval item run =
    str_eq item.retrieved_for_analysis_id run.analysis_id && is_healthy item.retrieval_health

unfoldable pub retrieval_in_window : EvidenceItem → Run → Bool
retrieval_in_window item run = elim item.retrieved_at [
  | none ↦ false
  | some r ↦
      leb run.analysis_started_at r
      && leb r (run.analysis_started_at + evidence_retrieval_window)
      && leb r run.analysis_recorded_at
]

unfoldable pub freshness_of : EvidenceItem → Run → FreshnessState
unfolding timestamps_ordered current_retrieval retrieval_in_window
freshness_of item run =
    if timestamps_ordered item && current_retrieval item run && retrieval_in_window item run
    then current
    else stale

abbrev pub not_yet : Instant → Option Instant → Bool
not_yet now none = false
not_yet now (some t) = ltb now t

abbrev pub passed : Instant → Option Instant → Bool
passed now none = false
passed now (some t) = leb t now

unfoldable pub business_validity_of : EvidenceItem → Run → BusinessValidityState
business_validity_of item run =
    if not_yet run.scenario_effective_time item.effective_at
    then not_yet_effective
    else if passed run.scenario_effective_time item.expires_at
    then expired
    else valid
