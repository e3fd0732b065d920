-- ===== src/Execution/Mail/Updates.antt =====
-- services/persistence/store.py, `SqlAlchemySupplierEmailRepository`: the conditional updates of a
-- review, of a claim to send, and of a delivery's state.
use supply_response.Base.{
  ℕ, String, Bool, true, false, not, ◌&&◌, Option, none, some, is_some, is_none, List, [], ◌∷◌,
  ◌==◌, str_eq, if◌then◌else◌, any,
}
use supply_response.Base.Result.{Result, ok, ◌>>=◌, ◌>>◌, guard}
use supply_response.Domain.OutboundMail.{
  SupplierEmailSendStatus, submitting, SupplierEmailRevision, SupplierEmailDelivery, MailError,
  integrity_error, is_revision,
}
use supply_response.Domain.Finance.{IdentitySnapshot}
use supply_response.Domain.Common.{Instant}
use supply_response.Policy.FinanceReview.{roles_eq}
use supply_response.Execution.Mail.Rows.{
  MailRows, Current, send_status_eq, get_current, editable, put_delivery,
}

-- `==` of the optional fields of two records.
abbrev same_text : Option String → Option String → Bool
same_text none none = true
same_text (some s) (some t) = str_eq s t
same_text _ _ = false

abbrev same_number : Option ℕ → Option ℕ → Bool
same_number none none = true
same_number (some m) (some n) = m == n
same_number _ _ = false

-- `==` of two identities; there is one identity source.
unfoldable pub identity_eq : IdentitySnapshot → IdentitySnapshot → Bool
unfolding roles_eq
identity_eq a b =
    str_eq a.persona_id b.persona_id
    && roles_eq a.effective_roles b.effective_roles
    && str_eq a.source_id b.source_id
    && same_text a.tenant_id b.tenant_id
    && same_text a.object_id b.object_id
    && same_text a.display_name b.display_name
    && same_text a.user_principal_name b.user_principal_name

abbrev pub same_identity : Option IdentitySnapshot → Option IdentitySnapshot → Bool
same_identity none none = true
same_identity (some a) (some b) = identity_eq a b
same_identity _ _ = false

unfoldable pub revision_eq : SupplierEmailRevision → SupplierEmailRevision → Bool
unfolding identity_eq
revision_eq a b =
    str_eq a.email_id b.email_id
    && str_eq a.decision_id b.decision_id
    && str_eq a.action_id b.action_id
    && a.revision == b.revision
    && str_eq a.subject b.subject
    && str_eq a.body b.body
    && str_eq a.from_address b.from_address
    && str_eq a.to_address b.to_address
    && identity_eq a.edited_by b.edited_by
    && a.edited_at == b.edited_at
    && same_identity a.reviewed_by b.reviewed_by
    && same_number a.reviewed_at b.reviewed_at

unfoldable pub delivery_eq : SupplierEmailDelivery → SupplierEmailDelivery → Bool
unfolding send_status_eq
delivery_eq a b =
    str_eq a.email_id b.email_id
    && str_eq a.decision_id b.decision_id
    && same_number a.reviewed_revision b.reviewed_revision
    && send_status_eq a.send_status b.send_status
    && same_text a.provider_message_id b.provider_message_id
    && same_text a.internet_message_id b.internet_message_id
    && same_text a.correlation_id b.correlation_id
    && a.status_updated_at == b.status_updated_at
    && same_text a.failure_code b.failure_code

-- The row that the review updates: the unreviewed one of the revision.
abbrev pub is_open_row : SupplierEmailRevision → SupplierEmailRevision → Bool
is_open_row r q = str_eq q.email_id r.email_id && q.revision == r.revision && is_none q.reviewed_at

unfoldable pub set_reviewed :
    SupplierEmailRevision → List SupplierEmailRevision → List SupplierEmailRevision
set_reviewed r [] = []
set_reviewed r (q ∷ qs) = if is_open_row r q then r ∷ qs else q ∷ set_reviewed r qs

abbrev reviewed_delivery_of : SupplierEmailDelivery → ℕ → Instant → SupplierEmailDelivery
reviewed_delivery_of d n t = record d { reviewed_revision = some n; status_updated_at = t }

abbrev pub review_matches :
    SupplierEmailRevision → SupplierEmailDelivery → ℕ → Current → Option Instant → Bool
review_matches r d expected p none = false
review_matches r d expected (previous, previous_delivery) (some t) =
    revision_eq (record r { reviewed_by = none; reviewed_at = none }) previous
    && is_some r.reviewed_by
    && delivery_eq d (reviewed_delivery_of previous_delivery expected t)

abbrev pub set_open_row : SupplierEmailRevision → SupplierEmailDelivery → MailRows → Bool × MailRows
set_open_row r d s =
    if any (is_open_row r) s.revisions
    then (true, put_delivery d (record s { revisions = set_reviewed r s.revisions }))
    else (false, s)

abbrev pub mark_after :
    SupplierEmailRevision
    → SupplierEmailDelivery
    → ℕ
    → MailRows
    → Current
    → Result MailError (Bool × MailRows)
mark_after r d expected s current = do
  guard (review_matches r d expected current r.reviewed_at) integrity_error
  ok (set_open_row r d s)

abbrev mark_current :
    SupplierEmailRevision
    → SupplierEmailDelivery
    → ℕ
    → MailRows
    → Option Current
    → Result MailError (Bool × MailRows)
mark_current r d expected s none = ok (false, s)
mark_current r d expected s (some (previous, previous_delivery)) =
    if not (previous.revision == expected)
    then ok (false, s)
    else if is_some previous.reviewed_at
    then ok (revision_eq previous r && delivery_eq previous_delivery d, s)
    else mark_after r d expected s (previous, previous_delivery)

unfoldable pub mark_reviewed :
    Bool
    → SupplierEmailRevision
    → SupplierEmailDelivery
    → ℕ
    → MailRows
    → Result MailError (Bool × MailRows)
unfolding get_current revision_eq delivery_eq set_reviewed
mark_reviewed true r d expected s = ok (false, s)
mark_reviewed false r d expected s = do current ← get_current s; mark_current r d expected s current

-- An update with a condition on the delivery's row, and whether it found the row.
abbrev pub update_where :
    Bool
    → (SupplierEmailDelivery → Bool)
    → SupplierEmailDelivery
    → Option SupplierEmailDelivery
    → MailRows
    → Bool × MailRows
update_where contended test d none s = (false, s)
update_where contended test d (some row) s =
    if not contended && test row then (true, put_delivery d s) else (false, s)

abbrev pub same_row : SupplierEmailDelivery → SupplierEmailDelivery → Bool
same_row d row = str_eq row.email_id d.email_id && str_eq row.decision_id d.decision_id

-- Whether a delivery is a valid claim, and whether the row is open to it.
unfoldable pub is_claim : SupplierEmailDelivery → ℕ → Bool
unfolding send_status_eq
is_claim d expected =
    is_revision d.reviewed_revision expected
    && send_status_eq d.send_status submitting
    && is_some d.correlation_id
    && is_none d.provider_message_id
    && is_none d.internet_message_id
    && is_none d.failure_code

unfoldable pub may_claim : SupplierEmailDelivery → ℕ → SupplierEmailDelivery → Bool
unfolding editable
may_claim d expected row =
    same_row d row && is_revision row.reviewed_revision expected && editable row

unfoldable pub claim_send :
    Bool → SupplierEmailDelivery → ℕ → MailRows → Result MailError (Bool × MailRows)
unfolding is_claim may_claim
claim_send contended d expected s = do
  guard (is_claim d expected) integrity_error
  ok (update_where contended (may_claim d expected) d s.delivery s)

abbrev pub is_text : Option String → String → Bool
is_text none s = false
is_text (some t) s = str_eq t s

unfoldable pub status_in : SupplierEmailSendStatus → List SupplierEmailSendStatus → Bool
unfolding send_status_eq
status_in st sts = any (send_status_eq st) sts

unfoldable pub update_delivery_state :
    Bool
    → SupplierEmailDelivery
    → String
    → List SupplierEmailSendStatus
    → MailRows
    → Result MailError (Bool × MailRows)
unfolding status_in
update_delivery_state contended d correlation_id expected s = do
  guard (is_text d.correlation_id correlation_id && any (λ st. true) expected) integrity_error
  ok (
      update_where contended
        (λ row.
          same_row d row
          && is_text row.correlation_id correlation_id
          && status_in row.send_status expected)
        d s.delivery s)
