-- ===== src/Policy/Evidence/Item.antt =====
-- services/policy/evidence.py, `_item_validation`: the verdict on one item of evidence.
use supply_response.Base.{
  ◌≡◌, refl, ap, append-nil, String, Bool, true, false, not, ◌&&◌, ◌||◌, Option, none, some,
  is_none, List, [], ◌∷◌, ◌++◌, if◌then◌else◌, contains, arith, str_eq,
}
use supply_response.Domain.Common.{RuntimeMode, live}
use supply_response.Domain.Evidence.{
  FreshnessState, current, stale, BusinessValidityState, valid, not_yet_effective, expired,
  UncertaintyState, conflicted, EvidenceBlockingCode, required_citation_missing,
  required_source_metadata_missing, evidence_timestamp_stale, evidence_retrieval_outside_window,
  retrieval_health_unacceptable, evidence_not_yet_effective, evidence_expired,
  authority_scope_mismatch, EvidenceItem, EvidenceItemValidation, code_value,
  required_authoritative, EvidenceRequirement,
}
use supply_response.Policy.Evidence.Permitted.{
  six, cited_or_not, Permitted, Retrieved, InForce, Permitted-scope_valid, Retrieved-current,
  InForce-valid,
}
use supply_response.Policy.Evidence.{
  Run, is_blank, is_work_iq, is_required, scope_valid, validated_scope, timestamps_ordered,
  current_retrieval, retrieval_in_window, freshness_of, business_validity_of, first_by,
}

-- `if test: codes.append(code)`
abbrev when : Bool → EvidenceBlockingCode → List EvidenceBlockingCode
when test code = if test then code ∷ [] else []

abbrev missing_excerpt : Option String → Bool
missing_excerpt none = true
missing_excerpt (some s) = is_blank s

abbrev pub validity_code : BusinessValidityState → List EvidenceBlockingCode
validity_code valid = []
validity_code not_yet_effective = evidence_not_yet_effective ∷ []
validity_code expired = evidence_expired ∷ []

abbrev pub is_current : FreshnessState → Bool
is_current current = true
is_current stale = false

abbrev pub is_valid : BusinessValidityState → Bool
is_valid valid = true
is_valid _ = false

abbrev pub is_conflicted : UncertaintyState → Bool
is_conflicted conflicted = true
is_conflicted _ = false

abbrev is_live : RuntimeMode → Bool
is_live live = true
is_live _ = false

abbrev no_codes : List EvidenceBlockingCode → Bool
no_codes [] = true
no_codes (c ∷ cs) = false

is_required-≡ : (r : EvidenceRequirement) → is_required r ≡ true → r ≡ required_authoritative
is_required-≡ r h = ground arith

is_current-≡ : (f : FreshnessState) → is_current f ≡ true → f ≡ current
is_current-≡ f h = ground (arith, h)

is_valid-≡ : (v : BusinessValidityState) → is_valid v ≡ true → v ≡ valid
is_valid-≡ v h = ground (arith, h)

when_nil : (b : Bool) (c : EvidenceBlockingCode) → when b c ≡ [] → b ≡ false
when_nil b c h = ground (arith, h)

-- `urlparse` gives the scheme and the network location of an address, or raises `ValueError`.
module _ (urlparse : String → Option (String × String)) where
  unfoldable pub navigable_http_url : Option String → Bool
  navigable_http_url none = false
  navigable_http_url (some url) = not (is_blank url) && elim (urlparse url) [
    | none ↦ false
    | some (scheme, netloc) ↦
        (str_eq scheme "http" || str_eq scheme "https") && not (str_eq netloc "")
  ]

  -- The address of an item is parsed and is malformed: the validation of the item raises.
  unfoldable pub is_malformed : Option String → Bool
  is_malformed none = false
  is_malformed (some url) = not (is_blank url) && is_none (urlparse url)

  unfoldable pub raises : EvidenceItem → Run → Bool
  unfolding is_malformed
  raises item run =
      is_required item.requirement
      && is_live run.runtime_mode
      && is_work_iq item.source_system
      && is_malformed item.citation_url

  -- The blocking codes, in the order in which they are appended.
  unfoldable pub blocking_codes_of : EvidenceItem → Run → List EvidenceBlockingCode
  unfolding navigable_http_url scope_valid timestamps_ordered current_retrieval retrieval_in_window
      business_validity_of
  blocking_codes_of item run =
      let required = is_required item.requirement in
      let required_live_work_iq =
        required && is_live run.runtime_mode && is_work_iq item.source_system in
      when (not (scope_valid item run)) authority_scope_mismatch
      ++ when (required_live_work_iq && not (navigable_http_url item.citation_url))
          required_citation_missing
      ++ when (required_live_work_iq && (is_blank item.source_id || missing_excerpt item.excerpt))
          required_source_metadata_missing
      ++ when (required && not (timestamps_ordered item)) evidence_timestamp_stale
      ++ when (required && not (current_retrieval item run)) retrieval_health_unacceptable
      ++ when (required && not (retrieval_in_window item run)) evidence_retrieval_outside_window
      ++ (if required then validity_code (business_validity_of item run) else [])

  unfoldable pub uncertainty_of : EvidenceItem → List String → UncertaintyState
  unfolding contains
  uncertainty_of item conflicted_ids =
      if contains item.evidence_id conflicted_ids then conflicted else item.uncertainty_state

  -- The verdict on an item whose validation does not raise.
  unfoldable pub item_validation : EvidenceItem → Run → List String → EvidenceItemValidation
  unfolding blocking_codes_of uncertainty_of freshness_of first_by validated_scope code_value
  item_validation item run conflicted_ids = record {
    evidence_id = item.evidence_id;
    requirement = item.requirement;
    validated_authority_scope = validated_scope item run.runtime_mode;
    freshness = freshness_of item run;
    business_validity = business_validity_of item run;
    uncertainty_state = uncertainty_of item conflicted_ids;
    retrieval_health = item.retrieval_health;
    authoritative =
        is_required item.requirement
        && scope_valid item run
        && is_current (freshness_of item run)
        && is_valid (business_validity_of item run)
        && not (is_conflicted (uncertainty_of item conflicted_ids))
        && no_codes (blocking_codes_of item run);
    blocking_codes = first_by code_value (blocking_codes_of item run);
  }

  no_codes-≡ : (cs : List EvidenceBlockingCode) → no_codes cs ≡ true → cs ≡ []
  no_codes-≡ [] h = refl
  no_codes-≡ (c ∷ cs) h = absurd (ground arith)

  -- A live item from Work IQ is cited by an address that can be opened, with its source and an
  -- excerpt.
  abbrev pub is_cited : EvidenceItem → Run → Bool
  is_cited item run =
      not (is_live run.runtime_mode && is_work_iq item.source_system)
      || (navigable_http_url item.citation_url
          && not (is_blank item.source_id)
          && not (missing_excerpt item.excerpt))

  is_cited-required :
      (item : EvidenceItem) (run : Run)
      → is_required item.requirement ≡ true
      → blocking_codes_of item run ≡ []
      → is_cited item run ≡ true
  unfolding blocking_codes_of
  is_cited-required item run h e =
      let (e₆, _) = append-nil _ _ e in
      let (e₅, _) = append-nil _ _ e₆ in
      let (e₄, _) = append-nil _ _ e₅ in
      let (e₃, _) = append-nil _ _ e₄ in
      let (e₂, m) = append-nil _ _ e₃ in
      let (_, c) = append-nil _ _ e₂ in
      let live_work_iq =
        is_required item.requirement && is_live run.runtime_mode && is_work_iq item.source_system in
      let cited =
        when_nil (live_work_iq && not (navigable_http_url item.citation_url))
          required_citation_missing c in
      let described =
        when_nil (live_work_iq && (is_blank item.source_id || missing_excerpt item.excerpt))
          required_source_metadata_missing m in
      cited_or_not _ _ _ _ _ _ h cited described

  -- An item that is found authoritative is a required one that carries no blocking code. All its
  -- scopes, at least one, are permitted to its source and to its kind, which is not the
  -- contextual one, and its source serves the mode of the run, which is its own. It was retrieved for
  -- this analysis, in good health, not before its own timestamp nor the start of the analysis, and no
  -- later than five minutes after that start or than the record of the analysis. The scenario's
  -- time is not before its effect, and is before its expiry, where it has these. It is not
  -- marked as conflicted and is in no unresolved conflict. If it is a live one from Work IQ, it has
  -- a citation that can be opened, a source and an excerpt.
  pub item_validation-authoritative :
      (item : EvidenceItem) (run : Run) (conflicted_ids : List String)
      → (item_validation item run conflicted_ids).authoritative ≡ true
      → (item.requirement ≡ required_authoritative)
        × ((item_validation item run conflicted_ids).blocking_codes ≡ [])
        × Permitted item run.runtime_mode
        × Retrieved item run
        × InForce item run
        × (is_conflicted item.uncertainty_state ≡ false)
        × (contains item.evidence_id conflicted_ids ≡ false)
        × (is_cited item run ≡ true)
  unfolding item_validation uncertainty_of first_by
  item_validation-authoritative item run conflicted_ids h =
      let (required, in_scope, fresh, (lasting, (certain, clear))) =
        six (is_required item.requirement) (scope_valid item run)
          (is_current (freshness_of item run)) (is_valid (business_validity_of item run))
          (not (is_conflicted (uncertainty_of item conflicted_ids)))
          (no_codes (blocking_codes_of item run)) h in
      let none_left = no_codes-≡ (blocking_codes_of item run) clear in
      (
        is_required-≡ item.requirement required,
        ap (first_by code_value) none_left,
        Permitted-scope_valid item run in_scope,
        Retrieved-current item run (is_current-≡ (freshness_of item run) fresh),
        InForce-valid item run (is_valid-≡ (business_validity_of item run) lasting),
        ground (arith, certain),
        ground (arith, certain),
        is_cited-required item run required none_left,
      )
