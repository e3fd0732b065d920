-- ===== src/Execution/Mail/Rows.antt =====
-- services/persistence/store.py, `SqlAlchemySupplierEmailRepository`: the rows of one decision's
-- supplier email, with their first and later revisions. The columns of a row repeat its payload.
-- Write contention, which makes an update do nothing, is an argument.
use supply_response.Base.{
  ℕ, suc, Bool, true, false, not, ◌&&◌, ◌||◌, Option, none, some, is_some, is_none, List, ◌∷◌, find,
  ◌==◌, str_eq, if◌then◌else◌, ltb,
}
use supply_response.Base.Result.{Result, ok, err, ◌>>=◌, ◌>>◌, guard}
use supply_response.Domain.OutboundMail.{
  SupplierEmailSendStatus, draft, submitting, accepted, sent_confirmed, failed, uncertain,
  SupplierEmailRevision, SupplierEmailDelivery, MailError, integrity_error, immutable_conflict,
  record_not_found, value_error, is_revision,
}
use supply_response.Domain.Common.{Instant}
use supply_response.Execution.Actions.{
  PlanRows, get_action, get_draft_artifact, kind_eq, prepare_alpha_recovery_draft,
}

-- The delivery's row, and the rows of the revisions, the newest first.
pub record MailRows : Type 0 where
  pub delivery : Option SupplierEmailDelivery
  pub revisions : List SupplierEmailRevision

abbrev pub Current : Type 0
Current = SupplierEmailRevision × SupplierEmailDelivery

unfoldable pub send_status_eq : SupplierEmailSendStatus → SupplierEmailSendStatus → Bool
send_status_eq draft draft = true
send_status_eq submitting submitting = true
send_status_eq accepted accepted = true
send_status_eq sent_confirmed sent_confirmed = true
send_status_eq failed failed = true
send_status_eq uncertain uncertain = true
send_status_eq _ _ = false

abbrev above : Option ℕ → ℕ → Bool
above none n = false
above (some m) n = ltb n m

-- The checks of `get_current` on what it has read.
unfoldable pub checked_current :
    SupplierEmailDelivery → Option SupplierEmailRevision → Result MailError (Option Current)
checked_current d none = err integrity_error
checked_current d (some r) = do
  guard
      (str_eq r.email_id d.email_id
        && str_eq r.decision_id d.decision_id
        && not (above d.reviewed_revision r.revision))
      integrity_error
  guard
      (not (is_revision d.reviewed_revision r.revision)
        || (is_some r.reviewed_by && is_some r.reviewed_at))
      integrity_error
  ok (some (r, d))

abbrev current_of :
    Option SupplierEmailDelivery → List SupplierEmailRevision → Result MailError (Option Current)
current_of none rs = ok none
current_of (some d) rs =
    checked_current d
      (find (λ r. str_eq r.email_id d.email_id && str_eq r.decision_id d.decision_id) rs)

unfoldable pub get_current : MailRows → Result MailError (Option Current)
unfolding checked_current
get_current s = current_of s.delivery s.revisions

abbrev pub some_or {ℓ} : {A : Type ℓ} → MailError → Option A → Result MailError A
some_or e none = err e
some_or e (some a) = ok a

unfoldable pub require_action_binding :
    PlanRows → SupplierEmailRevision → Result MailError (Unit {0})
unfolding get_action get_draft_artifact kind_eq
require_action_binding plan r = do
  action ← some_or record_not_found (get_action r.action_id plan)
  guard
      (str_eq action.decision_id r.decision_id
        && kind_eq action.kind prepare_alpha_recovery_draft
        && is_some action.draft_artifact_id)
      integrity_error
  artifact ← some_or record_not_found (get_draft_artifact action.action_id plan)
  guard (str_eq artifact.decision_id r.decision_id) integrity_error

unfoldable pub starts : SupplierEmailDelivery → SupplierEmailRevision → Bool
unfolding send_status_eq
starts d r =
    str_eq d.email_id r.email_id
    && str_eq d.decision_id r.decision_id
    && is_none d.reviewed_revision
    && send_status_eq d.send_status draft

abbrev pub with_first : SupplierEmailRevision → SupplierEmailDelivery → MailRows → MailRows
with_first r d s = record s { delivery = some d; revisions = r ∷ s.revisions }

abbrev pub insert_rows :
    PlanRows → SupplierEmailRevision → SupplierEmailDelivery → MailRows → Result MailError MailRows
insert_rows plan r d s = do
  current ← get_current s
  guard (is_none current) immutable_conflict
  require_action_binding plan r
  ok (with_first r d s)

unfoldable pub insert_initial :
    PlanRows → SupplierEmailRevision → SupplierEmailDelivery → MailRows → Result MailError MailRows
unfolding get_current require_action_binding starts
insert_initial plan r d s = do
  guard (r.revision == 1 && is_none r.reviewed_by) value_error
  guard (starts d r) integrity_error
  insert_rows plan r d s

-- Whether a new revision, or a claim to send, is open to a delivery.
unfoldable pub editable : SupplierEmailDelivery → Bool
unfolding send_status_eq
editable d =
    send_status_eq d.send_status draft
    || (send_status_eq d.send_status failed
        && is_none d.provider_message_id
        && is_none d.internet_message_id)

-- The delivery that a new revision leaves.
unfoldable pub back_to_draft : SupplierEmailDelivery → Instant → SupplierEmailDelivery
back_to_draft d t = record d {
  reviewed_revision = none;
  send_status = draft;
  status_updated_at = t;
  provider_message_id = none;
  internet_message_id = none;
  correlation_id = none;
  failure_code = none;
}

-- The update of the delivery's row; the row that a writer has read is there.
abbrev pub put_delivery : SupplierEmailDelivery → MailRows → MailRows
put_delivery d s = record s { delivery = some d }

-- Whether a revision is the one that follows, with the bindings of the one before.
unfoldable pub follows : SupplierEmailRevision → SupplierEmailRevision → ℕ → Bool
follows r previous expected =
    str_eq r.email_id previous.email_id
    && str_eq r.decision_id previous.decision_id
    && str_eq r.action_id previous.action_id
    && str_eq r.from_address previous.from_address
    && str_eq r.to_address previous.to_address
    && r.revision == suc expected
    && is_none r.reviewed_by

abbrev pub appended : SupplierEmailRevision → SupplierEmailDelivery → MailRows → MailRows
appended r d s =
    put_delivery (back_to_draft d r.edited_at) (record s { revisions = r ∷ s.revisions })

abbrev pub append_after :
    PlanRows → SupplierEmailRevision → ℕ → MailRows → Current → Result MailError (Bool × MailRows)
append_after plan r expected s (previous, d) = do
  guard (follows r previous expected) integrity_error
  require_action_binding plan r
  ok (true, appended r d s)

abbrev append_to :
    PlanRows
    → SupplierEmailRevision
    → ℕ
    → MailRows
    → Option Current
    → Result MailError (Bool × MailRows)
append_to plan r expected s none = ok (false, s)
append_to plan r expected s (some (previous, d)) =
    if not (previous.revision == expected) || not (editable d)
    then ok (false, s)
    else append_after plan r expected s (previous, d)

unfoldable pub append_revision :
    PlanRows → Bool → SupplierEmailRevision → ℕ → MailRows → Result MailError (Bool × MailRows)
unfolding get_current editable require_action_binding back_to_draft follows
append_revision plan true r expected s = ok (false, s)
append_revision plan false r expected s = do
  current ← get_current s
  append_to plan r expected s current
