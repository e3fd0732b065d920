-- ===== src/Policy/Evidence/Passed.antt =====
-- services/policy/evidence.py: the steps that a validation of required evidence has passed.
use supply_response.Base.{◌≡◌, ◌∙◌, String, Option, true, not, any, ltb, []}
use supply_response.Base.Result.{ok, >>=-eq-ok, guard-eq-ok, ok-injective, >>=-ok, guard-ok}
use supply_response.Domain.Evidence.{EvidenceValidation}
use supply_response.Policy.Evidence.{policy_violation, address_error}
use supply_response.Policy.Evidence.Item.{raises}
use supply_response.Policy.Evidence.Required.{
  Inputs, Scopes, follows, conflict_scopes, check_resolutions, unresolved_conflicts, results_of,
  validation_of, validate_required_evidence,
}

module _ (urlparse : String → Option (String × String)) (x : Inputs) where
  -- The three tests that come first.
  abbrev pub Tested : Type 0
  Tested =
      (not (ltb x.run.analysis_recorded_at x.run.analysis_started_at) ≡ true)
      × (not (any (λ i. follows x.run.analysis_recorded_at i.retrieved_at) x.evidence_items) ≡ true)
      × (not (any (λ i. raises urlparse i x.run) x.evidence_items) ≡ true)

  -- A validation that returns has passed every step, and is that of its unresolved conflicts.
  pub validate_required_evidence-passed :
      (v : EvidenceValidation)
      → validate_required_evidence urlparse x ≡ ok v
      → Tested
        × ((scopes : Scopes) × (conflict_scopes x.conflicts (results_of urlparse x []) ≡ ok scopes)
            × (check_resolutions x.conflicts scopes x.conflict_resolutions ≡ ok tt)
            × (v
                ≡ validation_of urlparse x
                    (unresolved_conflicts x.conflicts scopes x.conflict_resolutions)))
  unfolding validate_required_evidence
  validate_required_evidence-passed v e =
      let (timely, e₁) =
        guard-eq-ok (not (ltb x.run.analysis_recorded_at x.run.analysis_started_at))
          policy_violation _ e in
      let (retrieved, e₂) =
        guard-eq-ok
          (not (any (λ i. follows x.run.analysis_recorded_at i.retrieved_at) x.evidence_items))
          policy_violation _ e₁ in
      let (parsed, e₃) =
        guard-eq-ok (not (any (λ i. raises urlparse i x.run) x.evidence_items)) address_error _
          e₂ in
      let (scopes, scoped, e₄) =
        >>=-eq-ok (conflict_scopes x.conflicts (results_of urlparse x [])) _ e₃ in
      let (_, checked, e₅) =
        >>=-eq-ok (check_resolutions x.conflicts scopes x.conflict_resolutions) _ e₄ in
      ((timely, retrieved, parsed), (scopes, scoped, checked, ok-injective e₅ (λ w. w)))

  pub validate_required_evidence-ok :
      (scopes : Scopes)
      → Tested
      → conflict_scopes x.conflicts (results_of urlparse x []) ≡ ok scopes
      → check_resolutions x.conflicts scopes x.conflict_resolutions ≡ ok tt
      → validate_required_evidence urlparse x
        ≡ ok (
            validation_of urlparse x
              (unresolved_conflicts x.conflicts scopes x.conflict_resolutions))
  unfolding validate_required_evidence
  validate_required_evidence-ok scopes (timely, retrieved, parsed) scoped checked =
      guard-ok _ policy_violation _ timely
      ∙ guard-ok _ policy_violation _ retrieved
      ∙ guard-ok _ address_error _ parsed
      ∙ >>=-ok _ _ scopes scoped
      ∙ >>=-ok _ _ tt checked
