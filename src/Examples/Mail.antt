-- ===== src/Examples/Mail.antt =====
-- A supplier email that is opened, reviewed, sent and accepted, with texts that `lower` and `uuid5`
-- leave as they are.
use supply_response.Base.{
  ℕ, ◌≡◌, ◌≤◌, refl, String, true, false, Option, none, some, is_some, [], ◌∷◌,
}
use supply_response.Base.Int.{pos}
use supply_response.Base.Result.{ok}
use supply_response.Domain.Common.{transfer}
use supply_response.Domain.Evidence.{entra}
use supply_response.Domain.Analysis.{ResponseOption}
use supply_response.Domain.Finance.{IdentitySnapshot}
use supply_response.Domain.OutboundMail.{
  SupplierEmailRevision, SupplierEmailDelivery, SupplierEmailSendStatus, draft, submitting,
  accepted, ReviewedSupplierEmail, from_records,
}
use supply_response.Execution.Records.{planned}
use supply_response.Execution.Actions.{
  PlanRows, PlannedAction, ExecutionActionKind, persona, prepare_alpha_recovery_draft,
  transfer_dallas_to_chicago,
}
use supply_response.Execution.Mail.Rows.{MailRows}
use supply_response.Execution.Mail.Updates.{claim_send}
use supply_response.Execution.Mail.Guards.{Settings, Call, Answer}
use supply_response.Execution.Mail.Editing.{open_email}
use supply_response.Execution.Mail.Reviewing.{review}
use supply_response.Execution.Mail.Sending.{
  to_claim, prepare_send, taken, finish_send, check_send_status,
}
use supply_response.Execution.Mail.Delivery.{
  World, Reachable, unopened, after, opening, reviewing, preparing, claiming, answering,
  not_refused, awaits, report,
}
use supply_response.Execution.Mail.Once.{
  Reachable-once, check_send_status-unavailable, claim_send-content, allowance_of, newest_of,
}

abbrev alex : IdentitySnapshot
alex = record {
  persona_id = "RL-PERSONA-ALEX";
  effective_roles = "material_planner" ∷ "response_approver" ∷ [];
  identity_source = entra;
  source_id = "RL-ENTRA-ALEX";
  tenant_id = some "tenant";
  object_id = some "alex";
  display_name = none;
  user_principal_name = none;
}

abbrev settings : Settings
settings = record {
  from_address = "alex@example.com";
  to_address = "alpha@example.com";
  configured_actor = alex;
  has_graph_mail = true;
  mail_send_enabled = true;
  lower = λ s. s;
  uuid5 = λ s. s;
}

abbrev dallas : ResponseOption
dallas = record {
  option_id = "RL-OPTION-TRANSFER";
  option_kind = transfer;
  name = "Dallas transfer";
  executable = true;
  active_mitigation = true;
  predicted = none;
  assumptions = [];
  evidence_ids = [];
  evidence_requirements = [];
  blocking_codes = [];
  prerequisite_roles = [];
  source_data_lineage = [];
  approval_burden = pos 1;
  execution_risk = pos 0;
  requested_side_effects = [];
}

abbrev action : String → ExecutionActionKind → Option String → PlannedAction
action action_id kind artifact_id = record {
  action_id = action_id;
  case_id = "RL-CASE-1";
  decision_id = "RL-DECISION-1";
  kind = kind;
  owner_kind = persona;
  owner_persona_id = some "RL-PERSONA-ALEX";
  status = planned;
  created_at = 1;
  draft_artifact_id = artifact_id;
  purpose = some "Coordinate a transfer.";
  expected_result = none;
  execution_mode = none;
}

abbrev plan : PlanRows
plan = record {
  actions =
      action "A-1" transfer_dallas_to_chicago none
      ∷ action "A-2" prepare_alpha_recovery_draft (some "D-1")
      ∷ [];
  artifacts =
      record {
        artifact_id = "D-1";
        action_id = "A-2";
        decision_id = "RL-DECISION-1";
        created_at = 1;
        subject = none;
        body = none;
      }
      ∷ [];
}

abbrev call : ℕ → Call
call now = record {
  decision = record {
    decision_id = "RL-DECISION-1";
    case_id = "RL-CASE-1";
    analysis_id = "RL-ANALYSIS-1";
    analysis_material_hash = "00";
    selected_option_id = some "RL-OPTION-TRANSFER";
    selected_option = some dallas;
  };
  is_current = true;
  current_decision_id = some "RL-DECISION-1";
  current_analysis_id = some "RL-ANALYSIS-1";
  current_analysis_hash = some "00";
  plan = plan;
  now = now;
  new_correlation_id = "C-1";
  contended = false;
}

abbrev start : MailRows
start = record { delivery = none; revisions = [] }

abbrev body_text : String
body_text =
    "Fictional demo — this message is not a purchase order or financial commitment.\n\nCase reference: RL-CASE-1\nApproved demo response: Dallas transfer.\n\nPlanned demo coordination:\n- Coordinate a transfer.\n\nPlease confirm the current recovery timing and any remaining constraints affecting supply."

abbrev content : Option IdentitySnapshot → Option ℕ → SupplierEmailRevision
content reviewed_by reviewed_at = record {
  email_id = "RL-EMAIL-RL-DECISION-1:supplier-email";
  decision_id = "RL-DECISION-1";
  action_id = "A-2";
  revision = 1;
  subject = "RL-001 supplier recovery request";
  body = body_text;
  from_address = "alex@example.com";
  to_address = "alpha@example.com";
  edited_by = alex;
  edited_at = 10;
  reviewed_by = reviewed_by;
  reviewed_at = reviewed_at;
}

abbrev reviewed_content : SupplierEmailRevision
reviewed_content = content (some alex) (some 20)

abbrev delivery : Option ℕ → SupplierEmailSendStatus → Option String → ℕ → SupplierEmailDelivery
delivery reviewed_revision status correlation_id now = record {
  email_id = "RL-EMAIL-RL-DECISION-1:supplier-email";
  decision_id = "RL-DECISION-1";
  reviewed_revision = reviewed_revision;
  send_status = status;
  provider_message_id = none;
  internet_message_id = none;
  correlation_id = correlation_id;
  status_updated_at = now;
  failure_code = none;
}

abbrev claim : SupplierEmailDelivery
claim = delivery (some 1) submitting (some "C-1") 30

abbrev rows : SupplierEmailDelivery → SupplierEmailRevision → MailRows
rows d r = record { delivery = some d; revisions = r ∷ [] }

abbrev opened_rows : MailRows
opened_rows = rows (delivery none draft none 10) (content none none)

abbrev reviewed_rows : MailRows
reviewed_rows = rows (delivery (some 1) draft none 20) reviewed_content

abbrev shown : SupplierEmailDelivery → SupplierEmailRevision → ReviewedSupplierEmail
shown d r = from_records r d

opens :
    open_email settings (call 10) "RL-DECISION-1" start
    ≡ ok (shown (delivery none draft none 10) (content none none), opened_rows)
unfolding open_email
opens = refl

reviews :
    review settings (call 20) "RL-DECISION-1" 1 alex opened_rows
    ≡ ok (shown (delivery (some 1) draft none 20) reviewed_content, reviewed_rows)
unfolding review
reviews = refl

prepares :
    prepare_send settings (call 30) "RL-DECISION-1" 1 alex reviewed_rows
    ≡ ok (to_claim reviewed_content claim)
unfolding prepare_send
prepares = refl

claims : claim_send false claim 1 reviewed_rows ≡ ok (true, rows claim reviewed_content)
unfolding claim_send
claims = refl

abbrev accepted_delivery : SupplierEmailDelivery
accepted_delivery = delivery (some 1) accepted (some "C-1") 40

finishes :
    finish_send (call 40) "C-1" taken (rows claim reviewed_content)
    ≡ ok (shown accepted_delivery reviewed_content, rows accepted_delivery reviewed_content)
unfolding finish_send
finishes = refl

abbrev waiting_world : World
waiting_world = record {
  rows = reviewed_rows;
  waiting = (reviewed_content, claim) ∷ [];
  handed = [];
}

waiting-Reachable : Reachable settings "RL-DECISION-1" waiting_world
waiting-Reachable =
    after
      (after
        (after unopened (
          opening (call 10) (shown (delivery none draft none 10) (content none none), opened_rows)
            opens refl))
        (reviewing (call 20) 1 alex
          (shown (delivery (some 1) draft none 20) reviewed_content, reviewed_rows) reviews refl))
      (preparing (call 30) 1 alex reviewed_content claim prepares refl)

abbrev sent_world : World
sent_world = record {
  rows = rows accepted_delivery reviewed_content;
  waiting = (reviewed_content, claim) ∷ [];
  handed =
      record { content = reviewed_content; correlation_id = some "C-1"; answer = some taken } ∷ [];
}

sent-Reachable : Reachable settings "RL-DECISION-1" sent_world
unfolding awaits report
sent-Reachable =
    after
      (after waiting-Reachable
        (claiming false 0 reviewed_content claim (rows claim reviewed_content) refl claims refl))
      (answering (call 40) "C-1" taken
        (shown accepted_delivery reviewed_content, rows accepted_delivery reviewed_content) refl
        finishes refl)

Reachable-once_example :
    (not_refused sent_world.handed ≤ allowance_of sent_world.rows.delivery)
    × (not_refused sent_world.handed ≤ 1)
Reachable-once_example = Reachable-once settings "RL-DECISION-1" sent_world sent-Reachable

check_send_status-unavailable_example : ¬ (
    (a : Answer) × (check_send_status settings
        (call 50)
        (λ i. none)
        "RL-DECISION-1"
        alex
        sent_world.rows
      ≡ ok a))
check_send_status-unavailable_example =
    check_send_status-unavailable settings "RL-DECISION-1" sent_world sent-Reachable (call 50)
      (λ i. none) alex

claim_send-content_example :
    (newest_of waiting_world.rows.revisions ≡ some reviewed_content)
    × (is_some reviewed_content.reviewed_by ≡ true)
claim_send-content_example =
    claim_send-content settings "RL-DECISION-1" waiting_world waiting-Reachable 0 reviewed_content
      claim false (rows claim reviewed_content) refl claims
