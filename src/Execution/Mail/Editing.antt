-- ===== src/Execution/Mail/Editing.antt =====
-- services/execution/mail_service.py: the content of a supplier email, `get` and `save`.
use supply_response.Base.{ℕ, suc, String, not, ◌&&◌, Option, none, some, List, [], ◌∷◌, keep, map}
use supply_response.Base.Result.{Result, ok, err, ◌>>=◌, ◌>>◌, guard}
use supply_response.Domain.Common.{Instant}
use supply_response.Domain.Finance.{IdentitySnapshot}
use supply_response.Domain.Analysis.{ResponseOption}
use supply_response.Domain.OutboundMail.{
  draft, SupplierEmailRevision, SupplierEmailDelivery, MailError, revision_conflict, state_error,
  from_records, validate_revision,
}
use supply_response.Execution.Actions.{
  PlannedAction, list_actions, kind_eq, prepare_alpha_recovery_draft, update_disruption_status,
}
use supply_response.Execution.Mail.Rows.{
  MailRows, Current, get_current, insert_initial, append_revision, back_to_draft,
}
use supply_response.Execution.Mail.Updates.{is_text}
use Prim.Native.String.{◌++◌}
use supply_response.Execution.Mail.Guards.{
  Settings, Decision, Call, require_actor, require_draft, deterministic_email_id, Answer, opened_or,
}

abbrev purposes : List (Option String) → List String
purposes [] = []
purposes (none ∷ ps) = purposes ps
purposes (some p ∷ ps) = p ∷ purposes ps

-- `"\n".join(f"- {p}" for p in ps)`
unfoldable pub bullets : List String → String
bullets [] = ""
bullets (p ∷ []) = "- " ++ p
bullets (p ∷ q ∷ ps) = "- " ++ (p ++ ("\n" ++ bullets (q ∷ ps)))

abbrev coordination : List PlannedAction → List String
coordination actions = purposes (
    map (λ a. a.purpose)
      (keep
        (λ a.
          not (kind_eq a.kind prepare_alpha_recovery_draft)
          && not (kind_eq a.kind update_disruption_status))
        actions))

abbrev selected : Decision → Option ResponseOption → Result MailError ResponseOption
selected d none = err state_error
selected d (some option) = do
  guard (is_text d.selected_option_id option.option_id) state_error
  ok option

abbrev body_text : Decision → ResponseOption → List String → String
body_text d option lines =
    "Fictional demo — this message is not a purchase order or financial "
    ++ ("commitment.\n\n"
        ++ ("Case reference: "
            ++ (d.case_id
                ++ ("\nApproved demo response: "
                    ++ (option.name
                        ++ (".\n\nPlanned demo coordination:\n"
                            ++ (bullets lines
                                ++ ("\n\nPlease confirm the current recovery timing and any remaining "
                                    ++ "constraints affecting supply."))))))))

abbrev non_empty : List String → Result MailError (List String)
non_empty [] = err state_error
non_empty (x ∷ xs) = ok (x ∷ xs)

unfoldable pub initial_content : Decision → List PlannedAction → Result MailError (String × String)
unfolding kind_eq bullets
initial_content d actions = do
  option ← selected d d.selected_option
  lines ← non_empty (coordination actions)
  ok ("RL-001 supplier recovery request", body_text d option lines)

abbrev pub first_delivery : SupplierEmailRevision → String → Instant → SupplierEmailDelivery
first_delivery r decision_id now = record {
  email_id = r.email_id;
  decision_id = decision_id;
  reviewed_revision = none;
  send_status = draft;
  provider_message_id = none;
  internet_message_id = none;
  correlation_id = none;
  status_updated_at = now;
  failure_code = none;
}

abbrev pub first_draft :
    Settings → Call → String → PlannedAction → String × String → SupplierEmailRevision
first_draft settings c decision_id action content = record {
  email_id = deterministic_email_id settings decision_id;
  decision_id = decision_id;
  action_id = action.action_id;
  revision = 1;
  subject = content.0;
  body = content.1;
  from_address = settings.from_address;
  to_address = settings.to_address;
  edited_by = settings.configured_actor;
  edited_at = c.now;
  reviewed_by = none;
  reviewed_at = none;
}

-- The first revision of the email, from the decision and its planned actions.
unfoldable pub first_revision : Settings → Call → String → Result MailError SupplierEmailRevision
unfolding require_draft list_actions initial_content deterministic_email_id validate_revision
first_revision settings c decision_id = do
  action ← require_draft c decision_id
  content ← initial_content c.decision (list_actions decision_id c.plan)
  validate_revision settings.lower (first_draft settings c decision_id action content)

abbrev pub opened : Settings → Call → String → MailRows → Option Current → Result MailError Answer
opened settings c decision_id s (some (r, d)) = ok (from_records r d, s)
opened settings c decision_id s none = do
  r ← first_revision settings c decision_id
  let d = first_delivery r decision_id c.now
  inserted ← insert_initial c.plan r d s
  ok (from_records r d, inserted)

-- `get`
unfoldable pub open_email : Settings → Call → String → MailRows → Result MailError Answer
unfolding get_current first_revision insert_initial from_records
open_email settings c decision_id s = do
  current ← get_current s
  opened settings c decision_id s current

-- The revision that an edit makes of the one before.
abbrev pub edit_of :
    Settings
    → Call
    → ℕ
    → String
    → String
    → IdentitySnapshot
    → SupplierEmailRevision
    → SupplierEmailRevision
edit_of settings c revision subject body actor previous = record {
  email_id = previous.email_id;
  decision_id = previous.decision_id;
  action_id = previous.action_id;
  revision = suc revision;
  subject = subject;
  body = body;
  from_address = settings.from_address;
  to_address = settings.to_address;
  edited_by = actor;
  edited_at = c.now;
  reviewed_by = none;
  reviewed_at = none;
}

unfoldable pub save :
    Settings
    → Call
    → String
    → ℕ
    → String
    → String
    → IdentitySnapshot
    → MailRows
    → Result MailError Answer
unfolding require_actor require_draft get_current validate_revision append_revision back_to_draft
    from_records
save settings c decision_id revision subject body actor s = do
  require_actor settings actor
  _ ← require_draft c decision_id
  found ← get_current s
  current ← opened_or state_error found
  changed ←
      validate_revision settings.lower (edit_of settings c revision subject body actor current.0)
  written ← append_revision c.plan c.contended changed revision s
  guard written.0 revision_conflict
  ok (from_records changed (back_to_draft current.1 changed.edited_at), written.1)
