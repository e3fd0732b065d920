-- ===== src/Execution/Mail/Sending.antt =====
-- services/execution/mail_service.py: `send`, in its three phases (what comes before the claim, the
-- claim, and the record of the provider's answer), and `check_send_status`.
use supply_response.Base.{
  ℕ, String, Bool, true, not, ◌&&◌, Option, none, some, is_some, is_none, List, [], ◌∷◌, ◌==◌,
  str_eq, if◌then◌else◌,
}
use supply_response.Base.Result.{Result, ok, err, ◌>>=◌, ◌>>◌, guard}
use supply_response.Domain.Common.{Instant}
use supply_response.Domain.Finance.{IdentitySnapshot}
use supply_response.Domain.OutboundMail.{
  SupplierEmailSendStatus, draft, submitting, accepted, sent_confirmed, failed, uncertain,
  SupplierEmailRevision, SupplierEmailDelivery, ReviewedSupplierEmail, MailError, revision_conflict,
  state_error, send_disabled, is_revision, from_records,
}
use supply_response.Execution.Mail.Rows.{MailRows, Current, get_current}
use supply_response.Execution.Mail.Updates.{update_delivery_state, is_text, status_in}
use supply_response.Policy.FinanceReview.{roles_eq}
use supply_response.Execution.Mail.Guards.{
  Settings, Call, require_actor, require_draft, Answer, opened_or,
}

-- `_send_records`
unfoldable pub send_records :
    Settings → Call → String → ℕ → IdentitySnapshot → MailRows → Result MailError Current
unfolding require_actor require_draft get_current
send_records settings c decision_id revision actor s = do
  require_actor settings actor
  _ ← require_draft c decision_id
  found ← get_current s
  current ← opened_or state_error found
  guard (current.0.revision == revision) revision_conflict
  guard
      (is_some current.0.reviewed_by
        && is_some current.0.reviewed_at
        && is_revision current.1.reviewed_revision revision)
      state_error
  ok current

-- What `send` has read before it claims: an email that is not to be sent, or the content and the
-- claim.
pub data Prepared : Type 0 where
  settled : Current → Prepared
  to_claim : SupplierEmailRevision → SupplierEmailDelivery → Prepared

unfoldable pub claim_of : Call → SupplierEmailDelivery → SupplierEmailDelivery
claim_of c d = record d {
  send_status = submitting;
  provider_message_id = none;
  internet_message_id = none;
  correlation_id = some c.new_correlation_id;
  status_updated_at = c.now;
  failure_code = none;
}

abbrev pub prepared : Call → Current → Prepared
prepared c current =
    if status_in current.1.send_status (draft ∷ failed ∷ [])
    then to_claim current.0 (claim_of c current.1)
    else settled current

abbrev pub prepare_read :
    Settings → Call → String → ℕ → IdentitySnapshot → MailRows → Result MailError Prepared
prepare_read settings c decision_id revision actor s = do
  current ← send_records settings c decision_id revision actor s
  ok (prepared c current)

-- `send`, up to the claim.
unfoldable pub prepare_send :
    Settings → Call → String → ℕ → IdentitySnapshot → MailRows → Result MailError Prepared
unfolding send_records status_in claim_of
prepare_send settings c decision_id revision actor s = do
  guard (settings.mail_send_enabled && settings.has_graph_mail) send_disabled
  prepare_read settings c decision_id revision actor s

-- `_canonical`
unfoldable pub canonical : MailRows → Result MailError ReviewedSupplierEmail
unfolding get_current from_records
canonical s = do
  found ← get_current s
  current ← opened_or state_error found
  ok (from_records current.0 current.1)

-- The delivery that a transition leaves, which keeps the provider's identifiers.
unfoldable pub moved_to :
    SupplierEmailSendStatus
    → Option String
    → Instant
    → SupplierEmailDelivery
    → SupplierEmailDelivery
moved_to status failure_code now d = record d {
  send_status = status;
  status_updated_at = now;
  failure_code = failure_code;
}

abbrev pub move_row :
    Call
    → String
    → List SupplierEmailSendStatus
    → SupplierEmailSendStatus
    → Option String
    → MailRows
    → Current
    → Result MailError Answer
move_row c correlation_id expected status failure_code s (r, d) = do
  let changed = moved_to status failure_code c.now d
  written ← update_delivery_state c.contended changed correlation_id expected s
  ok (if written.0 then from_records r changed else from_records r d, written.1)

abbrev move :
    Call
    → String
    → List SupplierEmailSendStatus
    → SupplierEmailSendStatus
    → Option String
    → MailRows
    → Current
    → Result MailError Answer
move c correlation_id expected status failure_code s (r, d) =
    if not (is_text d.correlation_id correlation_id)
    then ok (from_records r d, s)
    else move_row c correlation_id expected status failure_code s (r, d)

-- `_transition`, whose callers give no identifiers of the provider.
unfoldable pub transition :
    Call
    → String
    → List SupplierEmailSendStatus
    → SupplierEmailSendStatus
    → Option String
    → MailRows
    → Result MailError Answer
unfolding get_current moved_to update_delivery_state from_records
transition c correlation_id expected status failure_code s = do
  found ← get_current s
  current ← opened_or state_error found
  move c correlation_id expected status failure_code s current

-- What `send_message` of the provider's client comes to: it returns, it raises
-- `GraphMailSubmissionUncertain`, or another `GraphMailError`.
pub data Submission : Type 0 where
  taken : Submission
  unsure refused : String → Submission

-- `send`, after the provider's answer.
unfoldable pub finish_send : Call → String → Submission → MailRows → Result MailError Answer
unfolding transition
finish_send c correlation_id taken s = transition c correlation_id (submitting ∷ []) accepted none s
finish_send c correlation_id (unsure code) s =
    transition c correlation_id (submitting ∷ []) uncertain (some code) s
finish_send c correlation_id (refused code) s =
    transition c correlation_id (submitting ∷ []) failed (some code) s

pub record ProviderMessage : Type 0 where
  pub provider_message_id : String
  pub internet_message_id : Option String
  pub sender_address : String
  pub to_addresses : List String
  pub subject : String
  pub body_content_type : String
  pub body : String
  pub sent_at : Option Instant

abbrev unset_or_same : Option String → Option String → Bool
unset_or_same none actual = true
unset_or_same (some expected) actual = is_text actual expected

unfoldable pub provider_matches :
    ProviderMessage → SupplierEmailRevision → SupplierEmailDelivery → Bool
unfolding roles_eq
provider_matches p r d =
    let addressees : List String = r.to_address ∷ [] in
    is_text d.provider_message_id p.provider_message_id
    && unset_or_same d.internet_message_id p.internet_message_id
    && str_eq p.sender_address r.from_address
    && roles_eq p.to_addresses addressees
    && str_eq p.subject r.subject
    && str_eq p.body_content_type "text"
    && str_eq p.body r.body

abbrev pub under_way : List SupplierEmailSendStatus
under_way = submitting ∷ accepted ∷ uncertain ∷ []

abbrev answered : Result MailError ReviewedSupplierEmail → MailRows → Result MailError Answer
answered (err e) s = err e
answered (ok a) s = ok (a, s)

-- What the provider's answer to `get_message` leads to; `none` is a `GraphMailError`.
unfoldable pub compare_provider :
    Call → String → Current → Option ProviderMessage → MailRows → Result MailError Answer
unfolding canonical provider_matches transition
compare_provider c correlation_id current none s = answered (canonical s) s
compare_provider c correlation_id current (some p) s =
    if not (provider_matches p current.0 current.1)
    then transition c correlation_id under_way uncertain (some "graph_message_mismatch") s
    else if is_none p.sent_at
    then answered (canonical s) s
    else transition c correlation_id under_way sent_confirmed none s

abbrev pub look_up :
    Call
    → (String → Option ProviderMessage)
    → Current
    → Option String
    → Option String
    → MailRows
    → Result MailError Answer
look_up c provider current (some provider_id) (some correlation_id) s =
    compare_provider c correlation_id current (provider provider_id) s
look_up c provider current _ _ s = err state_error

-- The check of a delivery that has been read and found sendable.
abbrev pub check_delivery :
    Call → (String → Option ProviderMessage) → Current → MailRows → Result MailError Answer
check_delivery c provider (r, d) s =
    if status_in d.send_status (sent_confirmed ∷ [])
    then ok (from_records r d, s)
    else if not (status_in d.send_status under_way)
    then err state_error
    else look_up c provider (r, d) d.provider_message_id d.correlation_id s

abbrev pub check_enabled :
    Settings
    → Call
    → (String → Option ProviderMessage)
    → String
    → IdentitySnapshot
    → MailRows
    → Result MailError Answer
check_enabled settings c provider decision_id actor s = do
  found ← get_current s
  current ← opened_or state_error found
  _ ← send_records settings c decision_id current.0.revision actor s
  check_delivery c provider current s

-- `check_send_status`
unfoldable pub check_send_status :
    Settings
    → Call
    → (String → Option ProviderMessage)
    → String
    → IdentitySnapshot
    → MailRows
    → Result MailError Answer
unfolding get_current send_records status_in compare_provider from_records
check_send_status settings c provider decision_id actor s = do
  guard (settings.mail_send_enabled && settings.has_graph_mail) send_disabled
  check_enabled settings c provider decision_id actor s
