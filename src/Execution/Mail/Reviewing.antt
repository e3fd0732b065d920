-- ===== src/Execution/Mail/Reviewing.antt =====
-- services/execution/mail_service.py: `review`.
use supply_response.Base.{ℕ, String, ◌&&◌, some, is_some, ◌==◌, if◌then◌else◌}
use supply_response.Base.Result.{Result, ok, ◌>>=◌, ◌>>◌, guard}
use supply_response.Domain.Common.{Instant}
use supply_response.Domain.Finance.{IdentitySnapshot}
use supply_response.Domain.OutboundMail.{
  SupplierEmailRevision, SupplierEmailDelivery, MailError, revision_conflict, state_error,
  is_revision, from_records,
}
use supply_response.Execution.Mail.Rows.{MailRows, Current, get_current}
use supply_response.Execution.Mail.Updates.{mark_reviewed, same_identity}
use supply_response.Execution.Mail.Guards.{
  Settings, Call, require_actor, require_draft, Answer, opened_or,
}

abbrev pub with_review : SupplierEmailRevision → IdentitySnapshot → Instant → SupplierEmailRevision
with_review r actor now = record r { reviewed_by = some actor; reviewed_at = some now }

abbrev pub with_reviewed_revision : SupplierEmailDelivery → ℕ → Instant → SupplierEmailDelivery
with_reviewed_revision d n now = record d { reviewed_revision = some n; status_updated_at = now }

-- A second review of a revision: the answer of the first, if it is the same actor's.
abbrev pub reviewed_again : ℕ → IdentitySnapshot → Current → MailRows → Result MailError Answer
reviewed_again revision actor (previous, d) s = do
  guard
      (same_identity previous.reviewed_by (some actor) && is_revision d.reviewed_revision revision)
      state_error
  ok (from_records previous d, s)

abbrev pub first_review : Call → ℕ → IdentitySnapshot → Current → MailRows → Result MailError Answer
first_review c revision actor (previous, d) s = do
  let r = with_review previous actor c.now
  let reviewed_delivery = with_reviewed_revision d revision c.now
  written ← mark_reviewed c.contended r reviewed_delivery revision s
  guard written.0 revision_conflict
  ok (from_records r reviewed_delivery, written.1)

unfoldable pub review_current :
    Call → ℕ → IdentitySnapshot → Current → MailRows → Result MailError Answer
unfolding mark_reviewed from_records
review_current c revision actor current s =
    if is_some current.0.reviewed_by
    then reviewed_again revision actor current s
    else first_review c revision actor current s

unfoldable pub review :
    Settings → Call → String → ℕ → IdentitySnapshot → MailRows → Result MailError Answer
unfolding require_actor require_draft get_current review_current
review settings c decision_id revision actor s = do
  require_actor settings actor
  _ ← require_draft c decision_id
  found ← get_current s
  current ← opened_or state_error found
  guard (current.0.revision == revision) revision_conflict
  review_current c revision actor current s
