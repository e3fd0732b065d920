-- ===== src/Domain/OutboundMail.antt =====
-- data/domain/outbound_mail.py: the revisions and the delivery of a supplier email, and the state
-- that is shown of them. `str.lower` is a parameter of the validation.
use supply_response.Base.{
  ℕ, String, Bool, true, false, not, ◌&&◌, ◌||◌, Option, none, some, is_none, leb, ltb, ◌==◌,
  if◌then◌else◌, is_empty, strip, str_length, is_space,
}
use supply_response.Base.Result.{Result, ok, ◌>>◌, guard}
use supply_response.Domain.Common.{Instant}
use supply_response.Domain.Finance.{IdentitySnapshot}
use Prim.Native.Char.{Char, code}

pub data SupplierEmailSendStatus : Type 0 where
  draft submitting accepted sent_confirmed failed uncertain : SupplierEmailSendStatus

pub record SupplierEmailRevision : Type 0 where
  pub email_id : String
  pub decision_id : String
  pub action_id : String
  pub revision : ℕ
  pub subject : String
  pub body : String
  pub from_address : String
  pub to_address : String
  pub edited_by : IdentitySnapshot
  pub edited_at : Instant
  pub reviewed_by : Option IdentitySnapshot
  pub reviewed_at : Option Instant

pub record SupplierEmailDelivery : Type 0 where
  pub email_id : String
  pub decision_id : String
  pub reviewed_revision : Option ℕ
  pub send_status : SupplierEmailSendStatus
  pub provider_message_id : Option String
  pub internet_message_id : Option String
  pub correlation_id : Option String
  pub status_updated_at : Instant
  pub failure_code : Option String

pub record ReviewedSupplierEmail : Type 0 where
  pub email_id : String
  pub decision_id : String
  pub action_id : String
  pub revision : ℕ
  pub subject : String
  pub body : String
  pub from_address : String
  pub to_address : String
  pub reviewed_revision : Option ℕ
  pub reviewed_at : Option Instant
  pub reviewed_by : Option IdentitySnapshot
  pub send_status : SupplierEmailSendStatus

-- `EmailAuthorizationError`, `EmailRevisionConflict`, `EmailStateError`, `EmailSendDisabled`,
-- `ExecutionProposalStale`, `PersistenceIntegrityError`, `ImmutableRecordConflict`,
-- `RecordNotFound`, `ValueError` and pydantic's `ValidationError`.
pub data MailError : Type 0 where
  not_authorized revision_conflict state_error send_disabled stale_proposal : MailError
  integrity_error immutable_conflict record_not_found value_error validation_error : MailError

-- `o == some(n)` on an `int | None`.
abbrev pub is_revision : Option ℕ → ℕ → Bool
is_revision none n = false
is_revision (some m) n = m == n

abbrev if_effective {ℓ} : {A : Type ℓ} → Bool → Option A → Option A
if_effective true a = a
if_effective false a = none

unfoldable pub from_records : SupplierEmailRevision → SupplierEmailDelivery → ReviewedSupplierEmail
from_records revision delivery =
    let effective_review = is_revision delivery.reviewed_revision revision.revision in
    record {
      email_id = revision.email_id;
      decision_id = revision.decision_id;
      action_id = revision.action_id;
      revision = revision.revision;
      subject = revision.subject;
      body = revision.body;
      from_address = revision.from_address;
      to_address = revision.to_address;
      reviewed_revision = if_effective effective_review delivery.reviewed_revision;
      reviewed_at = if_effective effective_review revision.reviewed_at;
      reviewed_by = if_effective effective_review revision.reviewed_by;
      send_status = delivery.send_status;
    }

abbrev is_at_sign : Char → Bool
is_at_sign c = code c == 64

abbrev prefixed : Char → String × Bool × String → String × Bool × String
prefixed c p = (String.◌∷◌ c p.0, p.1, p.2)

-- `value.partition("@")`, with the separator as a test.
unfoldable pub partition_at_sign : String → String × Bool × String
partition_at_sign String.[] = (String.[], false, String.[])
partition_at_sign (String.◌∷◌ c s) =
    if is_at_sign c then (String.[], true, s) else prefixed c (partition_at_sign s)

unfoldable pub has_space : String → Bool
has_space String.[] = false
has_space (String.◌∷◌ c s) = is_space c || has_space s

unfoldable pub has_email_shape : String → Bool
unfolding partition_at_sign has_space
has_email_shape value =
    let parts = partition_at_sign value in
    parts.1 && not (is_empty parts.0) && not (is_empty parts.2) && not (has_space value)

unfoldable pub is_nonblank : String → Bool
unfolding strip
is_nonblank s = not (is_empty (strip s))

unfoldable pub at_most : ℕ → String → Bool
unfolding str_length
at_most n s = leb (str_length s) n

abbrev both_or_neither : Bool → Bool → Bool
both_or_neither true b = b
both_or_neither false b = not b

-- The bounds of a revision's fields, the validators of the fields, and that of the model.
unfoldable pub is_valid_revision : SupplierEmailRevision → Bool
unfolding has_email_shape is_nonblank at_most
is_valid_revision r =
    ltb 0 r.revision
    && at_most 255 r.subject
    && at_most 10000 r.body
    && at_most 320 r.from_address
    && at_most 320 r.to_address
    && is_nonblank r.email_id
    && is_nonblank r.decision_id
    && is_nonblank r.action_id
    && is_nonblank r.subject
    && is_nonblank r.body
    && is_nonblank r.from_address
    && is_nonblank r.to_address
    && has_email_shape r.from_address
    && has_email_shape r.to_address
    && both_or_neither (is_none r.reviewed_by) (is_none r.reviewed_at)

abbrev pub lowered : (String → String) → SupplierEmailRevision → SupplierEmailRevision
lowered lower r = record r { from_address = lower r.from_address; to_address = lower r.to_address }

-- The construction of a revision.
unfoldable pub validate_revision :
    (String → String) → SupplierEmailRevision → Result MailError SupplierEmailRevision
unfolding is_valid_revision
validate_revision lower r = do guard (is_valid_revision r) validation_error; ok (lowered lower r)
