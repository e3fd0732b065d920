-- ===== src/Domain/Finance.antt =====
-- data/domain/finance.py: finance proposals and reviews, and what their validators accept. Also the
-- identities of data/domain/decisions.py.
use supply_response.Base.{
  String, Bool, true, false, not, ◌&&◌, ◌||◌, Option, none, some, is_some, is_none, List, ltb, ◌==◌,
  str_eq, if◌then◌else◌, is_empty, strip, str_length, dedup,
}
use supply_response.Base.Order.{sorted}
use supply_response.Base.Keys.{str_order}
use supply_response.Base.Result.{Result, ok, ◌>>◌, guard}
use supply_response.Domain.Common.{Instant, Money}
use supply_response.Domain.Evidence.{IdentitySource}

-- A `datetime` without or with a time zone.
pub data Timestamp : Type 0 where
  naive aware : Instant → Timestamp

pub record IdentitySnapshot : Type 0 where
  pub persona_id : String
  pub effective_roles : List String
  pub identity_source : IdentitySource
  pub source_id : String
  pub tenant_id : Option String
  pub object_id : Option String
  pub display_name : Option String
  pub user_principal_name : Option String

-- `tuple(sorted(set(value)))`, which the identity's validator stores.
unfoldable pub canonicalize_roles : List String → List String
unfolding sorted dedup
canonicalize_roles roles = sorted str_order (dedup roles)

pub data FinanceReviewStatus : Type 0 where
  pending approved rejected superseded : FinanceReviewStatus

pub record FinanceProposal : Type 0 where
  pub case_id : String
  pub analysis_id : String
  pub analysis_material_hash : String
  pub option_id : String
  pub response_cost : Money

-- `==` of two proposals.
unfoldable pub proposal_eq : FinanceProposal → FinanceProposal → Bool
proposal_eq p q =
    str_eq p.case_id q.case_id
    && str_eq p.analysis_id q.analysis_id
    && str_eq p.analysis_material_hash q.analysis_material_hash
    && str_eq p.option_id q.option_id
    && p.response_cost == q.response_cost

-- The validators have made the timestamps aware ones.
pub record FinanceReview : Type 0 where
  pub review_id : String
  pub proposal : FinanceProposal
  pub submitted_by : IdentitySnapshot
  pub submitted_at : Instant
  pub status : FinanceReviewStatus
  pub reviewed_by : Option IdentitySnapshot
  pub reviewed_at : Option Instant
  pub reason : Option String
  pub superseded_at : Option Instant

-- `FinanceReviewViolation` of the policy, or pydantic's `ValidationError`; both are `ValueError`s.
pub data FinanceError : Type 0 where
  violation validation : FinanceError

abbrev non_empty : String → Option String
non_empty s = if is_empty s then none else some s

-- The validator of `reason`.
unfoldable pub normalize_reason : Option String → Option String
unfolding strip
normalize_reason none = none
normalize_reason (some s) = non_empty (strip s)

abbrev truthy : Option String → Bool
truthy none = false
truthy (some s) = not (is_empty s)

-- `a is not None and b is not None and a < b`, for the times that a review may lack.
abbrev before : Option Instant → Option Instant → Bool
before (some a) (some b) = ltb a b
before _ _ = false

unfoldable pub is_long : Option String → Bool
unfolding str_length
is_long none = false
is_long (some s) = ltb 4000 (str_length s)

-- The last check of `validate_state`, by status.
unfoldable pub validate_status : FinanceReview → Bool
validate_status r = elim r.status [
  | pending ↦
      not (
        is_some r.reviewed_by
        || is_some r.reviewed_at
        || truthy r.reason
        || is_some r.superseded_at)
  | approved ↦ is_some r.reviewed_by && is_some r.reviewed_at && is_none r.superseded_at
  | rejected ↦
      is_some r.reviewed_by && is_some r.reviewed_at && is_none r.superseded_at && is_some r.reason
  | superseded ↦ is_some r.superseded_at
]

abbrev same : Bool → Bool → Bool
same true b = b
same false b = not b

-- `validate_state`, whether it raises nothing.
unfoldable pub validate_state : FinanceReview → Bool
unfolding validate_status
validate_state r =
    same (is_none r.reviewed_by) (is_none r.reviewed_at)
    && not (before r.reviewed_at (some r.submitted_at))
    && not (before r.superseded_at (some r.submitted_at))
    && not (before r.superseded_at r.reviewed_at)
    && not (is_some r.reason && is_none r.reviewed_by)
    && validate_status r

-- The construction of a review: the validators of its fields, then that of the model.
unfoldable pub model_validate : FinanceReview → Result FinanceError FinanceReview
unfolding normalize_reason validate_state strip is_long
model_validate r = do
  guard (not (is_empty (strip r.review_id)) && not (is_long r.reason)) validation
  let s = record r { reason = normalize_reason r.reason }
  guard (validate_state s) validation
  ok s
