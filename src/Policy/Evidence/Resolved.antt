-- ===== src/Policy/Evidence/Resolved.antt =====
-- services/policy/evidence.py: a resolution that `resolve_conflict` makes, given to
-- `validate_required_evidence`.
use supply_response.Base.{
  ◌≡◌, refl, sym, ap, subst, ◌∙◌, String, Option, Bool, true, false, not, ◌&&◌, ◌||◌, some, List,
  [], ◌∷◌, ◌++◌, keep, any, find, str_eq, str_eq_refl, differ, if◌then◌else◌, contains, arith, All,
  All-map, Bool-cases, inl, inr,
}
use supply_response.Base.Result.{ok, >>=-eq-ok, guard-eq-ok, ok-injective}
use supply_response.Domain.Evidence.{
  EvidenceConflict, ActorProvenance, ConflictResolution, EvidenceValidation,
}
use supply_response.Policy.Evidence.{
  policy_violation, validation_error, scope_set, is_blank, evidence_policy_version,
}
use supply_response.Policy.Evidence.Resolver.{
  actor_is_authorized, validated_conflict_scope, resolve_conflict,
}
use supply_response.Policy.Evidence.Passed.{
  validate_required_evidence-passed, validate_required_evidence-ok,
}
use supply_response.Policy.Evidence.Required.{
  Inputs, conflict_scopes, Scopes, last_scope, scope_of, resolution_is_valid, check_against,
  matching_conflict, check_resolutions, unresolved_conflicts, results_of, validation_of,
  validate_required_evidence,
}
use supply_response.Policy.Evidence.Unique.{
  Unique, validated_conflict_scope-declared, last_scope-declared, find-only, any-append,
}

-- A resolution is valid for its own conflict only.
module _ (scopes : Scopes) (c : EvidenceConflict) (r : ConflictResolution)
    (own : r.conflict_id ≡ c.conflict_id) where
  other_conflict :
      (e : EvidenceConflict)
      → str_eq r.conflict_id e.conflict_id ≡ false
      → resolution_is_valid e r (scope_of e.conflict_id scopes) ≡ false
  unfolding resolution_is_valid
  other_conflict e h = rw h refl

  valid_only :
      (d : EvidenceConflict)
      → resolution_is_valid c r (scope_of c.conflict_id scopes) ≡ true
      → (str_eq d.conflict_id c.conflict_id ≡ true → d ≡ c)
      → resolution_is_valid d r (scope_of d.conflict_id scopes) ≡ str_eq d.conflict_id c.conflict_id
  valid_only d valid only = elim (Bool-cases (str_eq d.conflict_id c.conflict_id)) [
    | inl s ↦
        subst (λ e. resolution_is_valid e r (scope_of e.conflict_id scopes) ≡ true) (sym (only s))
          valid
        ∙ sym s
    | inr s ↦
        other_conflict d (
          subst (λ j. str_eq j d.conflict_id ≡ false) (sym own)
            (differ d.conflict_id c.conflict_id s))
        ∙ sym s
  ]

  -- The conflicts without this one.
  abbrev others : List EvidenceConflict → List EvidenceConflict
  others cs = keep (λ d. not (str_eq d.conflict_id c.conflict_id)) cs

  others-step :
      (b a : Bool) (d : EvidenceConflict) (rest : List EvidenceConflict)
      → (if b && not (a || str_eq d.conflict_id c.conflict_id)
          then d ∷ others rest
          else others rest)
        ≡ others (if b && not a then d ∷ rest else rest)
  others-step false a d rest = refl
  others-step true true d rest = refl
  others-step true false d rest = refl

  unresolved-added :
      (cs : List EvidenceConflict) (rs : List ConflictResolution)
      → All
          (λ d.
            resolution_is_valid d r (scope_of d.conflict_id scopes)
            ≡ str_eq d.conflict_id c.conflict_id)
          cs
      → unresolved_conflicts cs scopes (rs ++ r ∷ [])
        ≡ keep (λ d. not (str_eq d.conflict_id c.conflict_id)) (unresolved_conflicts cs scopes rs)
  unfolding unresolved_conflicts
  unresolved-added [] rs h = refl
  unresolved-added (d ∷ ds) rs h =
      rw
        (
          any-append (λ q. resolution_is_valid d q (scope_of d.conflict_id scopes)) rs r,
          h.0,
          unresolved-added ds rs h.1,
        )
        (others-step d.feasibility_relevant
          (any (λ q. resolution_is_valid d q (scope_of d.conflict_id scopes)) rs) d
          (unresolved_conflicts ds scopes rs))

check_resolutions-append :
    (cs : List EvidenceConflict) (scopes : Scopes) (r : ConflictResolution)
    (rs : List ConflictResolution)
    → check_resolutions cs scopes rs ≡ ok tt
    → check_against scopes r (matching_conflict cs r) ≡ ok tt
    → check_resolutions cs scopes (rs ++ r ∷ []) ≡ ok tt
unfolding check_resolutions
check_resolutions-append cs scopes r [] h k = rw k refl
check_resolutions-append cs scopes r (q ∷ qs) h k =
    let (_, e, e₁) = >>=-eq-ok (check_against scopes q (matching_conflict cs q)) _ h in
    rw e (check_resolutions-append cs scopes r qs e₁ k)

-- The inputs with one resolution more.
abbrev pub with_resolution : Inputs → ConflictResolution → Inputs
with_resolution x r = record {
  evidence_items = x.evidence_items;
  run = x.run;
  required_authority_scope = x.required_authority_scope;
  conflicts = x.conflicts;
  conflict_resolutions = x.conflict_resolutions ++ r ∷ [];
}

-- What a resolution that was made satisfies.
module _ (scopes : Scopes) (c : EvidenceConflict) (r : ConflictResolution) where
  abbrev Fit : Type 0
  Fit =
      (r.conflict_id ≡ c.conflict_id)
      × (contains r.governing_evidence_id c.evidence_ids ≡ true)
      × (is_blank r.why ≡ false)
      × (actor_is_authorized (scope_set c.authority_scope) r.actor ≡ true)

  Fit-checked :
      last_scope c.conflict_id scopes ≡ some (scope_set c.authority_scope)
      → Fit
      → check_against scopes r (some c) ≡ ok tt
  unfolding check_against
  Fit-checked declared (own, governed, reasoned, allowed) =
      rw (governed, reasoned, declared, allowed) refl

  Fit-valid :
      last_scope c.conflict_id scopes ≡ some (scope_set c.authority_scope)
      → Fit
      → resolution_is_valid c r (scope_of c.conflict_id scopes) ≡ true
  unfolding resolution_is_valid
  Fit-valid declared (own, governed, reasoned, allowed) =
      rw (own, str_eq_refl c.conflict_id, governed, reasoned, declared, allowed) refl

resolve_conflict-Fit :
    (scopes : Scopes) (c : EvidenceConflict) (v : EvidenceValidation) (actor : ActorProvenance)
    (governing why : String) (r : ConflictResolution)
    → resolve_conflict c v actor governing why ≡ ok r
    → Fit scopes c r
unfolding resolve_conflict
resolve_conflict-Fit scopes c v actor governing why r e =
    let (_, e₁) =
      guard-eq-ok (str_eq v.policy_version evidence_policy_version) policy_violation _ e in
    let (s, found, e₂) = >>=-eq-ok (validated_conflict_scope c v.item_results) _ e₁ in
    let (allowed, e₃) = guard-eq-ok (actor_is_authorized s actor) policy_violation _ e₂ in
    let (own, e₄) = guard-eq-ok (contains governing c.evidence_ids) policy_violation _ e₃ in
    let (reasoned, e₅) = guard-eq-ok (not (is_blank why)) validation_error _ e₄ in
    let declared = validated_conflict_scope-declared c v.item_results s found in
    subst (Fit scopes c) (sym (ok-injective e₅ (λ q. q))) (
      refl,
      own,
      ground (arith, reasoned),
      subst (λ t. actor_is_authorized t actor ≡ true) declared allowed,
    )

module _ (urlparse : String → Option (String × String)) where
  results_of-with_resolution :
      (x : Inputs) (r : ConflictResolution) (ids : List String)
      → results_of urlparse (with_resolution x r) ids ≡ results_of urlparse x ids
  unfolding results_of
  results_of-with_resolution x r ids = refl

-- A resolution that `resolve_conflict` makes for a conflict of a validation's inputs, whose conflicts
-- have distinct identifiers, is accepted: with it, the inputs validate again, and the conflicts left
-- unresolved are those from before without this one.
pub resolve_conflict-resolves :
    (urlparse : String → Option (String × String)) (x : Inputs) (v : EvidenceValidation)
    (c : EvidenceConflict) (actor : ActorProvenance) (governing why : String)
    (r : ConflictResolution)
    → Unique x.conflicts
    → find (λ d. str_eq d.conflict_id c.conflict_id) x.conflicts ≡ some c
    → validate_required_evidence urlparse x ≡ ok v
    → resolve_conflict c v actor governing why ≡ ok r
    → (scopes : Scopes) × (conflict_scopes x.conflicts (results_of urlparse x []) ≡ ok scopes)
      × (validate_required_evidence urlparse (with_resolution x r)
          ≡ ok (
              validation_of urlparse (with_resolution x r) (
                keep
                  (λ d. not (str_eq d.conflict_id c.conflict_id))
                  (unresolved_conflicts x.conflicts scopes x.conflict_resolutions))))
resolve_conflict-resolves urlparse x v c actor governing why r unique found e made =
    let (tested, (scopes, scoped, checked, _)) = validate_required_evidence-passed urlparse x v e in
    let fit = resolve_conflict-Fit scopes c v actor governing why r made in
    let declared = last_scope-declared c.conflict_id c x.conflicts _ scopes scoped unique found in
    let matched =
      subst (λ i. find (λ d. str_eq d.conflict_id i) x.conflicts ≡ some c) (sym fit.0) found in
    let accepted =
      check_resolutions-append x.conflicts scopes r x.conflict_resolutions checked
        (ap (check_against scopes r) matched ∙ Fit-checked scopes c r declared fit) in
    let left = unresolved-added scopes c r fit.0 x.conflicts x.conflict_resolutions (
      All-map _ _ x.conflicts
        (λ d only. valid_only scopes c r fit.0 d (Fit-valid scopes c r declared fit) only)
        (find-only c.conflict_id c x.conflicts unique found)) in
    let y = with_resolution x r in
    (
      scopes,
      scoped,
      validate_required_evidence-ok urlparse y scopes tested
            (ap (conflict_scopes x.conflicts) (results_of-with_resolution urlparse x r []) ∙ scoped)
            accepted
          ∙ ap (λ cs. ok (validation_of urlparse y cs)) left,
    )
