-- ===== src/Policy/FinanceReview/Lifecycle.antt =====
-- The states that a finance review goes through.
use supply_response.Base.{ℕ, ◌≡◌, ◌≤◌, ◌<◌, String, false, Option, arith, strip, is_empty}
use supply_response.Base.Result.{ok, err}
use supply_response.Domain.Common.{Instant}
use supply_response.Domain.Finance.{
  Timestamp, aware, IdentitySnapshot, FinanceProposal, FinanceReview, violation, model_validate,
  normalize_reason, validate_state, validate_status,
}
use supply_response.Policy.Thresholds.{requires_finance_approval}
use supply_response.Policy.FinanceReview.{
  require_aware, require_uuid, require_actor, require_proposal_submitter, submit_finance_review,
  submitted,
}

-- A review that the validators leave as it is.
abbrev pub Valid : FinanceReview → Type 0
Valid r = model_validate r ≡ ok r

module _ (parse_uuid : String → Option ℕ) where
  -- With an aware time, the planner's identity, a review identifier that is not blank and a cost
  -- above 20000, a submission returns a pending review of the proposal, which is valid.
  pub submit_finance_review-pending :
      (review_id : String) (proposal : FinanceProposal) (actor : IdentitySnapshot) (t : Instant)
      (u : ℕ × ℕ)
      → require_proposal_submitter parse_uuid actor ≡ ok u
      → is_empty (strip review_id) ≡ false
      → 2000000 < proposal.response_cost
      → (submit_finance_review parse_uuid review_id proposal actor (aware t)
          ≡ ok (submitted review_id proposal actor t))
        × Valid (submitted review_id proposal actor t)
  unfolding submit_finance_review require_aware requires_finance_approval model_validate
      validate_state validate_status normalize_reason
  submit_finance_review-pending review_id proposal actor t u h k c =
      (rw h (ground arith), ground arith)

  -- A cost of at most 20000 needs no review: its submission is a violation.
  pub submit_finance_review-cheap :
      (review_id : String) (proposal : FinanceProposal) (actor : IdentitySnapshot) (now : Timestamp)
      → proposal.response_cost ≤ 2000000
      → submit_finance_review parse_uuid review_id proposal actor now ≡ err violation
  unfolding submit_finance_review require_aware requires_finance_approval require_proposal_submitter
      require_actor require_uuid
  submit_finance_review-cheap review_id proposal actor now c = ground arith
