-- ===== src/Policy/Evidence/Clear.antt =====
-- services/policy/evidence.py: what `validate_required_evidence` without blocking codes guarantees.
use supply_response.Base.{
  ◌≡◌, refl, sym, ap, subst, ◌∙◌, String, Option, true, false, not, ◌&&◌, List, [], ◌∷◌, map, keep,
  any, if◌then◌else◌, contains, arith, All, All-map, All-all, append-nil, keep-nil, All-to_keep,
}
use supply_response.Base.Order.{sorted, sorted-All}
use supply_response.Base.Result.{ok}
use supply_response.Domain.Evidence.{
  EvidenceBlockingCode, evidence_timestamp_stale, evidence_retrieval_outside_window,
  retrieval_health_unacceptable, authority_scope_mismatch, EvidenceItem, BusinessValidityState,
  EvidenceConflict, EvidenceValidation, code_value,
}
use supply_response.Policy.Evidence.{
  Run, is_required, scopes_within, has_scope, scope_valid, freshness_of, business_validity_of,
  first_by,
}
use supply_response.Policy.Evidence.Item.{
  item_validation, is_conflicted, is_current, is_valid, validity_code, blocking_codes_of,
  uncertainty_of,
}
use supply_response.Policy.Evidence.Passed.{validate_required_evidence-passed}
use supply_response.Policy.Evidence.Required.{
  Inputs, conflict_scopes, Scopes, scope_of, resolution_is_valid, unresolved_conflicts,
  authoritative_scope, authority_mismatch, item_codes, results_of, conflicted_ids, validation_of,
  validate_required_evidence, by_evidence_id,
}
use supply_response.Policy.Evidence.Codes.{no_code, but_not, when_nil, item_codes-nil}

validity_code-nil : (v : BusinessValidityState) → validity_code v ≡ [] → is_valid v ≡ true
validity_code-nil v h = ground (arith, h)

module _ (urlparse : String → Option (String × String)) where
  codes_nil : (cs : List EvidenceBlockingCode) → first_by code_value cs ≡ [] → cs ≡ []
  unfolding first_by
  codes_nil [] h = refl
  codes_nil (c ∷ cs) h = absurd (cc h)

  -- A required item without a code has a valid scope, is current and is valid.
  required-clear :
      (item : EvidenceItem) (run : Run)
      → is_required item.requirement ≡ true
      → blocking_codes_of urlparse item run ≡ []
      → (scope_valid item run ≡ true)
        × (is_current (freshness_of item run) ≡ true)
        × (is_valid (business_validity_of item run) ≡ true)
  unfolding blocking_codes_of freshness_of
  required-clear item run h e =
      let (e₆, g) = append-nil _ _ e in
      let (e₅, f) = append-nil _ _ e₆ in
      let (e₄, r) = append-nil _ _ e₅ in
      let (e₃, o) = append-nil _ _ e₄ in
      let (e₂, _) = append-nil _ _ e₃ in
      let (s, _) = append-nil _ _ e₂ in
      let scoped = when_nil (not (scope_valid item run)) authority_scope_mismatch s in
      let window = when_nil _ evidence_retrieval_outside_window f in
      let retrieved = when_nil _ retrieval_health_unacceptable r in
      let ordered = when_nil _ evidence_timestamp_stale o in
      (
        ground (arith, scoped),
        ground (arith, h, window, retrieved, ordered),
        validity_code-nil (business_validity_of item run) (
            subst (λ b. (if b then validity_code (business_validity_of item run) else []) ≡ []) h
              g),
      )

  item_validation-clear :
      (item : EvidenceItem) (run : Run)
      → is_required item.requirement ≡ true
      → (item_validation urlparse item run []).blocking_codes ≡ []
      → is_conflicted item.uncertainty_state ≡ false
      → (item_validation urlparse item run []).authoritative ≡ true
  unfolding item_validation uncertainty_of contains
  item_validation-clear item run h e u =
      let codes = codes_nil (blocking_codes_of urlparse item run) e in
      let (s, c, v) = required-clear item run h codes in rw (codes, h, s, c, v, u) refl

  -- The verdicts on the items, in the order of the results.
  verdicts-clear :
      (run : Run) (items : List EvidenceItem)
      → All
          (λ r. is_required r.requirement ≡ true → r.blocking_codes ≡ [])
          (map (λ i. item_validation urlparse i run []) items)
      → All
          (λ i.
            is_required i.requirement ≡ true
            → is_conflicted i.uncertainty_state ≡ false
            → (item_validation urlparse i run []).authoritative ≡ true)
          items
  unfolding item_validation
  verdicts-clear run [] h = tt
  verdicts-clear run (i ∷ is) h = (
    λ required calm. item_validation-clear i run required (h.0 required) calm,
    verdicts-clear run is h.1,
  )

  -- What a validation is to have settled.
  abbrev pub Settled : Inputs → EvidenceValidation → Type 0
  Settled x v =
      All (λ i. (item_validation urlparse i x.run []).authoritative ≡ true)
        (keep (λ i. is_required i.requirement && not (is_conflicted i.uncertainty_state))
          x.evidence_items)
      × All (λ s. has_scope s (authoritative_scope v.item_results) ≡ true)
          x.required_authority_scope
      × ((scopes : Scopes) × (conflict_scopes x.conflicts (results_of urlparse x []) ≡ ok scopes)
          × All
              (λ c.
                any (λ r. resolution_is_valid c r (scope_of c.conflict_id scopes))
                  x.conflict_resolutions
                ≡ true)
              (keep (λ c. c.feasibility_relevant) x.conflicts))

  validation_of-clear :
      (x : Inputs) (unresolved : List EvidenceConflict)
      → (validation_of urlparse x unresolved).blocking_codes ≡ []
      → (unresolved ≡ [])
        × All
            (λ r. is_required r.requirement ≡ true → r.blocking_codes ≡ [])
            (validation_of urlparse x unresolved).item_results
        × All
            (λ s.
              has_scope s (authoritative_scope (validation_of urlparse x unresolved).item_results)
              ≡ true)
            x.required_authority_scope
  unfolding validation_of scopes_within
  validation_of-clear x unresolved h =
      let results = results_of urlparse x (conflicted_ids urlparse unresolved) in
      let (items, settled, covered) =
        item_codes-nil results unresolved (authority_mismatch x.required_authority_scope results) (
          no_code
            (item_codes results unresolved (authority_mismatch x.required_authority_scope results))
            h) in
      (
        settled,
        items,
        All-all (λ s. has_scope s (authoritative_scope results)) x.required_authority_scope
            (ground (arith, covered)),
      )

  settled_items :
      (x : Inputs) (unresolved : List EvidenceConflict)
      → unresolved ≡ []
      → All
          (λ r. is_required r.requirement ≡ true → r.blocking_codes ≡ [])
          (validation_of urlparse x unresolved).item_results
      → All
          (λ i.
            is_required i.requirement ≡ true
            → is_conflicted i.uncertainty_state ≡ false
            → (item_validation urlparse i x.run []).authoritative ≡ true)
          x.evidence_items
  unfolding validation_of results_of
  settled_items x unresolved settled items = sorted-All by_evidence_id _ x.evidence_items (
      verdicts-clear x.run (sorted by_evidence_id x.evidence_items) (
        subst
          (λ u.
            All (λ r. is_required r.requirement ≡ true → r.blocking_codes ≡ [])
              (validation_of urlparse x u).item_results)
          settled items))

  unresolved-nil :
      (scopes : Scopes) (x : Inputs)
      → unresolved_conflicts x.conflicts scopes x.conflict_resolutions ≡ []
      → All
          (λ c.
            c.feasibility_relevant ≡ true
            → any
                (λ r. resolution_is_valid c r (scope_of c.conflict_id scopes))
                x.conflict_resolutions
              ≡ true)
          x.conflicts
  unfolding unresolved_conflicts
  unresolved-nil scopes x h =
      All-map _ _ x.conflicts (λ c k t. ground (arith, k, t)) (keep-nil _ x.conflicts h)

  -- A validation without blocking codes means: every required item is authoritative, unless it is
  -- itself marked as conflicted; every required scope is one for which an authoritative item was
  -- validated; and every conflict that matters for feasibility has a valid resolution, by an actor
  -- authorized for the scope for which its items were validated.
  pub validate_required_evidence-Settled :
      (x : Inputs) (v : EvidenceValidation)
      → validate_required_evidence urlparse x ≡ ok v
      → v.blocking_codes ≡ []
      → Settled x v
  validate_required_evidence-Settled x v e h =
      let (_, (scopes, found, _, same)) = validate_required_evidence-passed urlparse x v e in
      let unresolved = unresolved_conflicts x.conflicts scopes x.conflict_resolutions in
      let (settled, items, covered) =
        validation_of-clear x unresolved
          (sym (ap (λ (w : EvidenceValidation). w.blocking_codes) same) ∙ h) in
      (
        All-to_keep (λ i. (item_validation urlparse i x.run []).authoritative ≡ true)
            (λ i. is_required i.requirement && not (is_conflicted i.uncertainty_state))
            x.evidence_items
            (All-map _ _ x.evidence_items (λ i k both. let (a, b) = but_not _ _ both in k a b)
              (settled_items x unresolved settled items)),
        subst
            (λ w.
              All (λ s. has_scope s (authoritative_scope w.item_results) ≡ true)
                x.required_authority_scope)
            (sym same) covered,
        (
          scopes,
          found,
          All-to_keep
              (λ c.
                any (λ r. resolution_is_valid c r (scope_of c.conflict_id scopes))
                  x.conflict_resolutions
                ≡ true)
              (λ c. c.feasibility_relevant) x.conflicts (unresolved-nil scopes x settled),
        ),
      )
