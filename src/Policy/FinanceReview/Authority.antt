-- ===== src/Policy/FinanceReview/Authority.antt =====
-- Who can resolve a finance review, and when.
use supply_response.Base.{
  ℕ, ◌≡◌, ◌≢◌, ◌≤◌, ◌∙◌, ap, sym, String, Bool, true, not, Option, ltb, ◌==◌, ==_iff, arith, eq_iff,
  refl, List, [], ◌∷◌, &&-true,
}
use supply_response.Base.Result.{ok, err, >>=-eq-ok, guard-eq-ok}
use supply_response.Domain.Common.{Instant}
use supply_response.Domain.Finance.{
  Timestamp, aware, IdentitySnapshot, FinanceProposal, FinanceReview, FinanceReviewStatus, pending,
  violation, proposal_eq,
}
use supply_response.Policy.FinanceReview.{
  require_aware, require_uuid, require_actor, require_reviewer, is_actor, roles_eq,
  resolve_finance_review, is_pending,
}

pub proposal_eq-≡ : (p q : FinanceProposal) → proposal_eq p q ≡ true → p ≡ q
unfolding proposal_eq
proposal_eq-≡ p q h = ground (
  arith,
  eq_iff p.case_id q.case_id,
  eq_iff p.analysis_id q.analysis_id,
  eq_iff p.analysis_material_hash q.analysis_material_hash,
  eq_iff p.option_id q.option_id,
)

is_pending-≡ : (s : FinanceReviewStatus) → is_pending s ≡ true → s ≡ pending
is_pending-≡ s h = ground arith

require_aware-≡ : (now : Timestamp) (t : Instant) → require_aware now ≡ ok t → now ≡ aware t
unfolding require_aware
require_aware-≡ now t h = ground arith

roles_eq-≡ : (xs ys : List String) → roles_eq xs ys ≡ true → xs ≡ ys
unfolding roles_eq
roles_eq-≡ [] [] h = refl
roles_eq-≡ [] (y ∷ ys) h = absurd (cc h)
roles_eq-≡ (x ∷ xs) [] h = absurd (cc h)
roles_eq-≡ (x ∷ xs) (y ∷ ys) h =
    let (same, rest) = &&-true _ _ h in (λ i. (eq_iff x y).0 same i ∷ roles_eq-≡ xs ys rest i)

module _ (parse_uuid : String → Option ℕ) where
  -- The identity of the finance approver.
  reviewer_identity :
      (actor : IdentitySnapshot) (who : ℕ × ℕ)
      → require_reviewer parse_uuid actor ≡ ok who
      → (actor.persona_id ≡ "RL-PERSONA-TAYLOR")
        × (actor.source_id ≡ "RL-ENTRA-TAYLOR")
        × (actor.effective_roles ≡ "finance_approver" ∷ [])
  unfolding require_reviewer require_actor is_actor
  reviewer_identity actor who e =
      let (identity, _) =
        guard-eq-ok
          (is_actor parse_uuid actor "RL-PERSONA-TAYLOR" "RL-ENTRA-TAYLOR"
            ("finance_approver" ∷ []))
          violation _ e in
      let (persons, roles) = &&-true _ _ identity in
      let (persona, source) = &&-true _ _ persons in
      ((eq_iff _ _).0 persona, (eq_iff _ _).0 source, roles_eq-≡ _ _ roles)

  -- What a resolution has established.
  abbrev pub Established : FinanceReview → FinanceProposal → IdentitySnapshot → Timestamp → Type 0
  Established review current_proposal actor now =
      (t : Instant) × (tenant : ℕ) × (reviewer : ℕ) × (submitter : ℕ) × (now ≡ aware t)
      × (require_reviewer parse_uuid actor ≡ ok (tenant, reviewer))
      × ((actor.persona_id ≡ "RL-PERSONA-TAYLOR")
          × (actor.source_id ≡ "RL-ENTRA-TAYLOR")
          × (actor.effective_roles ≡ "finance_approver" ∷ []))
      × (require_uuid parse_uuid review.submitted_by.tenant_id ≡ ok tenant)
      × (require_uuid parse_uuid review.submitted_by.object_id ≡ ok submitter)
      × (reviewer ≢ submitter)
      × (review.status ≡ pending)
      × (review.proposal ≡ current_proposal)
      × (review.submitted_at ≤ t)

  -- A review that is resolved was pending, for the current proposal, and its reviewer has the
  -- finance approver's persona, source and one role, in the submitter's tenant, and is not the
  -- submitter; the time is an aware one that does not precede the submission.
  pub resolve_finance_review-Established :
      (review : FinanceReview) (current_proposal : FinanceProposal) (actor : IdentitySnapshot)
      (approve : Bool) (reason : Option String) (now : Timestamp) (r : FinanceReview)
      → resolve_finance_review parse_uuid review current_proposal actor approve reason now ≡ ok r
      → Established review current_proposal actor now
  unfolding resolve_finance_review
  resolve_finance_review-Established review current_proposal actor approve reason now r e =
      let (t, timed, e₁) = >>=-eq-ok (require_aware now) _ e in
      let ((tenant, reviewer), allowed, e₂) = >>=-eq-ok (require_reviewer parse_uuid actor) _ e₁ in
      let (submitter_tenant, found, e₃) =
        >>=-eq-ok (require_uuid parse_uuid review.submitted_by.tenant_id) _ e₂ in
      let (submitter, known, e₄) =
        >>=-eq-ok (require_uuid parse_uuid review.submitted_by.object_id) _ e₃ in
      let (one_tenant, e₅) = guard-eq-ok (tenant == submitter_tenant) violation _ e₄ in
      let (other_person, e₆) = guard-eq-ok (not (reviewer == submitter)) violation _ e₅ in
      let (open_review, e₇) = guard-eq-ok (is_pending review.status) violation _ e₆ in
      let (unchanged, e₈) =
        guard-eq-ok (proposal_eq review.proposal current_proposal) violation _ e₇ in
      let (in_time, _) = guard-eq-ok (not (ltb t review.submitted_at)) violation _ e₈ in
      let same_tenant = (==_iff tenant submitter_tenant).0 one_tenant in
      (
        t,
        tenant,
        reviewer,
        submitter,
        require_aware-≡ now t timed,
        allowed,
        reviewer_identity actor (tenant, reviewer) allowed,
        found ∙ ap ok (sym same_tenant),
        known,
        (λ same. ground (arith, other_person, same)),
        is_pending-≡ review.status open_review,
        proposal_eq-≡ review.proposal current_proposal unchanged,
        ground arith,
      )

  -- A review that is not pending cannot be resolved: every attempt is a violation.
  pub resolve_finance_review-settled :
      (review : FinanceReview) (current_proposal : FinanceProposal) (actor : IdentitySnapshot)
      (approve : Bool) (reason : Option String) (now : Timestamp)
      → review.status ≢ pending
      → resolve_finance_review parse_uuid review current_proposal actor approve reason now
        ≡ err violation
  unfolding resolve_finance_review require_aware require_reviewer require_actor require_uuid
  resolve_finance_review-settled review current_proposal actor approve reason now h = ground arith
