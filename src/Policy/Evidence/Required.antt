-- ===== src/Policy/Evidence/Required.antt =====
-- services/policy/evidence.py, `validate_required_evidence`: the items, conflicts and resolutions of
-- one analysis together.
use supply_response.Base.{
  String, Bool, false, not, ◌&&◌, Option, none, some, List, [], ◌∷◌, ◌++◌, map, keep, any, find,
  flat_map, ltb, str_eq, if◌then◌else◌, contains,
}
use supply_response.Base.Order.{Order, by, sorted}
use supply_response.Base.Keys.{str_order}
use supply_response.Base.Result.{Result, ok, err, ◌>>=◌, ◌>>◌, guard}
use supply_response.Domain.Common.{Instant}
use supply_response.Domain.Evidence.{
  AuthorityScope, EvidenceBlockingCode, required_evidence_missing,
  required_evidence_not_authoritative, required_citation_missing, required_source_metadata_missing,
  evidence_timestamp_stale, evidence_retrieval_outside_window, retrieval_health_unacceptable,
  evidence_not_yet_effective, evidence_expired, evidence_conflict_unresolved,
  conflict_resolution_invalid, authority_scope_mismatch, provenance_mismatch, EvidenceItem,
  EvidenceConflict, ConflictResolution, EvidenceItemValidation, EvidenceValidation, code_value,
}
use supply_response.Policy.Evidence.{
  PolicyError, policy_violation, address_error, evidence_policy_version, Run, is_blank, is_required,
  non_empty, scopes_within,
}
use supply_response.Policy.Evidence.Item.{item_validation, raises}
use supply_response.Policy.Evidence.Resolver.{actor_is_authorized, validated_conflict_scope}

-- The arguments of `validate_required_evidence`.
pub record Inputs : Type 0 where
  pub evidence_items : List EvidenceItem
  pub run : Run
  pub required_authority_scope : List AuthorityScope
  pub conflicts : List EvidenceConflict
  pub conflict_resolutions : List ConflictResolution

abbrev pub follows : Instant → Option Instant → Bool
follows recorded none = false
follows recorded (some t) = ltb recorded t

abbrev pub by_evidence_id : Order EvidenceItem
by_evidence_id = by (λ i. i.evidence_id) str_order

-- The dictionary of the validated scopes, in the order of the conflicts.
abbrev pub Scopes : Type 0
Scopes = List (String × List AuthorityScope)

unfoldable pub conflict_scopes :
    List EvidenceConflict → List EvidenceItemValidation → Result PolicyError Scopes
unfolding validated_conflict_scope
conflict_scopes [] results = ok []
conflict_scopes (c ∷ cs) results = do
  scope ← validated_conflict_scope c results
  rest ← conflict_scopes cs results
  ok ((c.conflict_id, scope) ∷ rest)

abbrev or_else : Option (List AuthorityScope) → List AuthorityScope → List AuthorityScope
or_else none d = d
or_else (some s) d = s

-- The last scope of an identifier.
unfoldable pub last_scope : String → Scopes → Option (List AuthorityScope)
last_scope i [] = none
last_scope i ((j, scope) ∷ rest) =
    let later = last_scope i rest in
    elim later [ some s ↦ some s | none ↦ if str_eq j i then some scope else none ]

-- `validated_conflict_scopes[i]`. Only the identifiers of conflicts, which it has, are looked up.
abbrev pub scope_of : String → Scopes → List AuthorityScope
scope_of i scopes = or_else (last_scope i scopes) []

unfoldable pub resolution_is_valid :
    EvidenceConflict → ConflictResolution → List AuthorityScope → Bool
unfolding contains actor_is_authorized
resolution_is_valid conflict r scope =
    str_eq r.conflict_id conflict.conflict_id
    && contains r.governing_evidence_id conflict.evidence_ids
    && not (is_blank r.why)
    && actor_is_authorized scope r.actor

unfoldable pub check_against :
    Scopes → ConflictResolution → Option EvidenceConflict → Result PolicyError (Unit {0})
unfolding contains actor_is_authorized last_scope
check_against scopes r none = err policy_violation
check_against scopes r (some c) = do
  guard (contains r.governing_evidence_id c.evidence_ids) policy_violation
  guard (not (is_blank r.why)) policy_violation
  guard (actor_is_authorized (scope_of c.conflict_id scopes) r.actor) policy_violation

abbrev pub matching_conflict : List EvidenceConflict → ConflictResolution → Option EvidenceConflict
matching_conflict conflicts r = find (λ c. str_eq c.conflict_id r.conflict_id) conflicts

-- The loop over the resolutions.
unfoldable pub check_resolutions :
    List EvidenceConflict → Scopes → List ConflictResolution → Result PolicyError (Unit {0})
unfolding check_against
check_resolutions conflicts scopes [] = ok tt
check_resolutions conflicts scopes (r ∷ rs) = do
  check_against scopes r (matching_conflict conflicts r)
  check_resolutions conflicts scopes rs

unfoldable pub unresolved_conflicts :
    List EvidenceConflict → Scopes → List ConflictResolution → List EvidenceConflict
unfolding resolution_is_valid last_scope
unresolved_conflicts conflicts scopes resolutions =
    keep
      (λ c.
        c.feasibility_relevant
        && not (any (λ r. resolution_is_valid c r (scope_of c.conflict_id scopes)) resolutions))
      conflicts

-- The members of `EvidenceBlockingCode`, in order.
abbrev pub all_codes : List EvidenceBlockingCode
all_codes =
    required_evidence_missing ∷ required_evidence_not_authoritative ∷ required_citation_missing
    ∷ required_source_metadata_missing ∷ evidence_timestamp_stale
    ∷ evidence_retrieval_outside_window ∷ retrieval_health_unacceptable ∷ evidence_not_yet_effective
    ∷ evidence_expired ∷ evidence_conflict_unresolved ∷ conflict_resolution_invalid
    ∷ authority_scope_mismatch ∷ provenance_mismatch ∷ []

unfoldable pub has_code : List EvidenceBlockingCode → EvidenceBlockingCode → Bool
unfolding code_value
has_code codes c = any (λ d. str_eq (code_value c) (code_value d)) codes

unfoldable pub authoritative_scope : List EvidenceItemValidation → List AuthorityScope
authoritative_scope results =
    flat_map (λ r. r.validated_authority_scope) (keep (λ r. r.authoritative) results)

abbrev pub authority_mismatch : List AuthorityScope → List EvidenceItemValidation → Bool
authority_mismatch required results = not (scopes_within required (authoritative_scope results))

unfoldable pub item_codes :
    List EvidenceItemValidation → List EvidenceConflict → Bool → List EvidenceBlockingCode
item_codes results unresolved mismatch =
    flat_map (λ r. r.blocking_codes) (keep (λ r. is_required r.requirement) results)
    ++ (if non_empty unresolved then evidence_conflict_unresolved ∷ [] else [])
    ++ (if mismatch then authority_scope_mismatch ∷ [] else [])

module _ (urlparse : String → Option (String × String)) where
  unfoldable pub results_of : Inputs → List String → List EvidenceItemValidation
  unfolding item_validation sorted
  results_of x conflicted_ids =
      map (λ i. item_validation urlparse i x.run conflicted_ids)
        (sorted by_evidence_id x.evidence_items)

  abbrev pub conflicted_ids : List EvidenceConflict → List String
  conflicted_ids unresolved = flat_map (λ c. c.evidence_ids) unresolved

  -- What the unresolved conflicts leave of the items.
  unfoldable pub validation_of : Inputs → List EvidenceConflict → EvidenceValidation
  unfolding results_of item_codes has_code authoritative_scope scopes_within
  validation_of x unresolved =
      let results = results_of x (conflicted_ids unresolved) in
      let mismatch = authority_mismatch x.required_authority_scope results in
      record {
        policy_version = evidence_policy_version;
        item_results = results;
        blocking_codes = keep (has_code (item_codes results unresolved mismatch)) all_codes;
        global_blocking_codes = if mismatch then authority_scope_mismatch ∷ [] else [];
      }

  unfoldable pub validate_required_evidence : Inputs → Result PolicyError EvidenceValidation
  unfolding raises results_of conflict_scopes check_resolutions unresolved_conflicts validation_of
  validate_required_evidence x = do
    guard (not (ltb x.run.analysis_recorded_at x.run.analysis_started_at)) policy_violation
    guard (not (any (λ i. follows x.run.analysis_recorded_at i.retrieved_at) x.evidence_items))
        policy_violation
    guard (not (any (λ i. raises urlparse i x.run) x.evidence_items)) address_error
    scopes ← conflict_scopes x.conflicts (results_of x [])
    check_resolutions x.conflicts scopes x.conflict_resolutions
    ok (validation_of x (unresolved_conflicts x.conflicts scopes x.conflict_resolutions))
