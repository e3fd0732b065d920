-- ===== src/Policy/Evidence/Codes.antt =====
-- services/policy/evidence.py: what the absence of blocking codes means.
use supply_response.Base.{
  ◌≡◌, refl, Bool, true, false, not, ◌&&◌, List, [], ◌∷◌, ◌++◌, keep, flat_map, str_eq_refl,
  if◌then◌else◌, arith, All, append-nil, keep-nil, flat_map-nil, All-of_keep,
}
use supply_response.Domain.Evidence.{
  EvidenceBlockingCode, required_evidence_missing, required_evidence_not_authoritative,
  required_citation_missing, required_source_metadata_missing, evidence_timestamp_stale,
  evidence_retrieval_outside_window, retrieval_health_unacceptable, evidence_not_yet_effective,
  evidence_expired, evidence_conflict_unresolved, conflict_resolution_invalid,
  authority_scope_mismatch, provenance_mismatch, EvidenceConflict, EvidenceItemValidation,
  code_value,
}
use supply_response.Policy.Evidence.{is_required, non_empty}
use supply_response.Policy.Evidence.Required.{all_codes, has_code, item_codes}

-- Every code is among the members.
every_code :
    (p : EvidenceBlockingCode → Bool)
    → All (λ c. p c ≡ false) all_codes
    → (c : EvidenceBlockingCode) → p c ≡ false
every_code p h required_evidence_missing = h.0
every_code p h required_evidence_not_authoritative = h.1.0
every_code p h required_citation_missing = h.1.1.0
every_code p h required_source_metadata_missing = h.1.1.1.0
every_code p h evidence_timestamp_stale = h.1.1.1.1.0
every_code p h evidence_retrieval_outside_window = h.1.1.1.1.1.0
every_code p h retrieval_health_unacceptable = h.1.1.1.1.1.1.0
every_code p h evidence_not_yet_effective = h.1.1.1.1.1.1.1.0
every_code p h evidence_expired = h.1.1.1.1.1.1.1.1.0
every_code p h evidence_conflict_unresolved = h.1.1.1.1.1.1.1.1.1.0
every_code p h conflict_resolution_invalid = h.1.1.1.1.1.1.1.1.1.1.0
every_code p h authority_scope_mismatch = h.1.1.1.1.1.1.1.1.1.1.1.0
every_code p h provenance_mismatch = h.1.1.1.1.1.1.1.1.1.1.1.1.0

has_code-head :
    (c : EvidenceBlockingCode) (cs : List EvidenceBlockingCode) → has_code (c ∷ cs) c ≡ true
unfolding has_code
has_code-head c cs = ground (arith, str_eq_refl (code_value c))

-- Codes of which no member is listed are none.
pub no_code :
    (codes : List EvidenceBlockingCode) → keep (has_code codes) all_codes ≡ [] → codes ≡ []
no_code [] h = refl
no_code (c ∷ cs) h = absurd (
    ground (
      arith,
      has_code-head c cs,
      every_code (has_code (c ∷ cs)) (keep-nil (has_code (c ∷ cs)) all_codes h) c,
    ))

pub but_not : (a b : Bool) → (a && not b) ≡ true → (a ≡ true) × (b ≡ false)
but_not a b h = (ground arith, ground arith)

pub when_nil : {A : Type 0} (b : Bool) (x : A) → (if b then x ∷ [] else []) ≡ [] → b ≡ false
when_nil true x h = absurd (cc h)
when_nil false x h = refl

empty_list : {A : Type 0} (xs : List A) → non_empty xs ≡ false → xs ≡ []
empty_list [] h = refl
empty_list (x ∷ xs) h = absurd (cc h)

-- Without codes, no required item has one, no conflict is unresolved, and no scope is missing.
pub item_codes-nil :
    (results : List EvidenceItemValidation) (unresolved : List EvidenceConflict) (mismatch : Bool)
    → item_codes results unresolved mismatch ≡ []
    → All (λ r. is_required r.requirement ≡ true → r.blocking_codes ≡ []) results
      × (unresolved ≡ [])
      × (mismatch ≡ false)
unfolding item_codes
item_codes-nil results unresolved mismatch h =
    let required = keep (λ (r : EvidenceItemValidation). is_required r.requirement) results in
    let codes = flat_map (λ (r : EvidenceItemValidation). r.blocking_codes) required in
    let conflict = if non_empty unresolved then evidence_conflict_unresolved ∷ [] else [] in
    let p =
      append-nil (codes ++ conflict) (if mismatch then authority_scope_mismatch ∷ [] else []) h in
    let q = append-nil codes conflict p.0 in
    (
      All-of_keep (λ r. r.blocking_codes ≡ []) (λ r. is_required r.requirement) results
          (flat_map-nil (λ r. r.blocking_codes) required q.0),
      empty_list unresolved (when_nil (non_empty unresolved) evidence_conflict_unresolved q.1),
      when_nil mismatch authority_scope_mismatch p.1,
    )
