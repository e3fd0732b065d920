-- ===== src/Policy/FinanceReview.antt =====
-- services/policy/finance_review.py: the transitions of a finance review. The parser of UUIDs is a
-- parameter.
pub mod Lifecycle
pub mod Authority
use supply_response.Base.{
  ℕ, String, Bool, true, false, not, ◌&&◌, ◌||◌, Option, none, some, is_some, is_none, List, [],
  ◌∷◌, ltb, ◌==◌, str_eq, if◌then◌else◌, is_empty, strip,
}
use supply_response.Base.Order.{sorted}
use supply_response.Base.Keys.{str_order}
use supply_response.Base.Result.{Result, ok, err, ◌>>=◌, ◌>>◌, guard}
use supply_response.Base.Int.{pos}
use supply_response.Domain.Common.{Instant}
use supply_response.Domain.Evidence.{entra}
use supply_response.Domain.Finance.{
  Timestamp, naive, aware, IdentitySnapshot, FinanceProposal, FinanceReview, FinanceReviewStatus,
  pending, approved, rejected, superseded, FinanceError, violation, proposal_eq, model_validate,
}
use supply_response.Policy.Thresholds.{requires_finance_approval}

unfoldable pub require_aware : Timestamp → Result FinanceError Instant
require_aware (naive t) = err violation
require_aware (aware t) = ok t

-- `==` of two tuples of texts.
unfoldable pub roles_eq : List String → List String → Bool
roles_eq [] [] = true
roles_eq (s ∷ ss) (t ∷ ts) = str_eq s t && roles_eq ss ts
roles_eq _ _ = false

abbrev pub is_pending : FinanceReviewStatus → Bool
is_pending pending = true
is_pending _ = false

abbrev pub is_superseded : FinanceReviewStatus → Bool
is_superseded superseded = true
is_superseded _ = false

abbrev text_or_empty : Option String → String
text_or_empty none = ""
text_or_empty (some s) = s

unfoldable pub strip_reason : Option String → Option String
unfolding strip
strip_reason none = none
strip_reason (some s) = some (strip s)

-- `not normalized_reason`
abbrev pub no_reason : Option String → Bool
no_reason none = true
no_reason (some s) = is_empty s

abbrev pub earlier : Instant → Option Instant → Bool
earlier now none = false
earlier now (some t) = ltb now t

abbrev pub submitted : String → FinanceProposal → IdentitySnapshot → Instant → FinanceReview
submitted review_id proposal actor now = record {
  review_id = review_id;
  proposal = proposal;
  submitted_by = actor;
  submitted_at = now;
  status = pending;
  reviewed_by = none;
  reviewed_at = none;
  reason = none;
  superseded_at = none;
}

abbrev pub resolved :
    FinanceReview → IdentitySnapshot → Bool → Option String → Instant → FinanceReview
resolved review actor approve reason now = record review {
  status = if approve then approved else rejected;
  reviewed_by = some actor;
  reviewed_at = some now;
  reason = reason;
}

module _ (parse_uuid : String → Option ℕ) where
  abbrev parsed : Option ℕ → Result FinanceError ℕ
  parsed none = err violation
  parsed (some u) = ok u

  unfoldable pub require_uuid : Option String → Result FinanceError ℕ
  require_uuid value = parsed (parse_uuid (text_or_empty value))

  -- Whether the actor has the persona, the source and the roles; its one identity source is Entra.
  unfoldable pub is_actor : IdentitySnapshot → String → String → List String → Bool
  unfolding roles_eq sorted
  is_actor actor persona source roles =
      str_eq actor.persona_id persona
      && str_eq actor.source_id source
      && roles_eq actor.effective_roles (sorted str_order roles)

  unfoldable pub require_actor :
      IdentitySnapshot → String → String → List String → Result FinanceError (ℕ × ℕ)
  unfolding is_actor require_uuid
  require_actor actor persona source roles = do
    guard (is_actor actor persona source roles) violation
    tenant ← require_uuid actor.tenant_id
    object ← require_uuid actor.object_id
    ok (tenant, object)

  unfoldable pub require_proposal_submitter : IdentitySnapshot → Result FinanceError (ℕ × ℕ)
  unfolding require_actor
  require_proposal_submitter actor =
      require_actor actor "RL-PERSONA-ALEX" "RL-ENTRA-ALEX"
        ("material_planner" ∷ "response_approver" ∷ [])

  unfoldable pub require_reviewer : IdentitySnapshot → Result FinanceError (ℕ × ℕ)
  unfolding require_actor
  require_reviewer actor =
      require_actor actor "RL-PERSONA-TAYLOR" "RL-ENTRA-TAYLOR" ("finance_approver" ∷ [])

  unfoldable pub submit_finance_review :
      String → FinanceProposal → IdentitySnapshot → Timestamp → Result FinanceError FinanceReview
  unfolding require_aware require_proposal_submitter requires_finance_approval model_validate strip
  submit_finance_review review_id proposal actor now = do
    t ← require_aware now
    _ ← require_proposal_submitter actor
    guard (not (is_empty (strip review_id))) violation
    guard (requires_finance_approval (pos proposal.response_cost)) violation
    model_validate (submitted review_id proposal actor t)

  unfoldable pub resolve_finance_review :
      FinanceReview
      → FinanceProposal
      → IdentitySnapshot
      → Bool
      → Option String
      → Timestamp
      → Result FinanceError FinanceReview
  unfolding require_aware require_reviewer require_uuid proposal_eq model_validate strip_reason
  resolve_finance_review review current_proposal actor approve reason now = do
    t ← require_aware now
    reviewer ← require_reviewer actor
    submitter_tenant ← require_uuid review.submitted_by.tenant_id
    submitter_object ← require_uuid review.submitted_by.object_id
    guard (reviewer.0 == submitter_tenant) violation
    guard (not (reviewer.1 == submitter_object)) violation
    guard (is_pending review.status) violation
    guard (proposal_eq review.proposal current_proposal) violation
    guard (not (ltb t review.submitted_at)) violation
    guard (approve || not (no_reason (strip_reason reason))) violation
    model_validate (resolved review actor approve (strip_reason reason) t)

abbrev pub supersede_at : FinanceReview → Instant → FinanceReview
supersede_at review now = record review { status = superseded; superseded_at = some now }

unfoldable pub supersede_finance_review :
    FinanceReview → Timestamp → Result FinanceError FinanceReview
unfolding require_aware model_validate
supersede_finance_review review now = do
  t ← require_aware now
  guard (not (ltb t review.submitted_at || earlier t review.reviewed_at)) violation
  if is_superseded review.status then ok review else model_validate (supersede_at review t)
