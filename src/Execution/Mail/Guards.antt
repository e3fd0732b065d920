-- ===== src/Execution/Mail/Guards.antt =====
-- services/execution/mail_service.py: what every call checks first. `uuid5` and `str.lower` are
-- parameters; the verdict of `guard_execution_current`, the clock, `uuid4` and write contention are
-- arguments of a call.
use supply_response.Base.{String, Bool, true, ◌&&◌, Option, none, some, List, [], ◌∷◌, keep, str_eq}
use supply_response.Base.Result.{Result, ok, err, ◌>>=◌, ◌>>◌, guard}
use supply_response.Domain.Common.{Instant}
use supply_response.Domain.Finance.{IdentitySnapshot}
use supply_response.Domain.Analysis.{ResponseOption}
use supply_response.Domain.OutboundMail.{
  ReviewedSupplierEmail, MailError, not_authorized, state_error, stale_proposal,
}
use supply_response.Execution.Actions.{
  PlanRows, PlannedAction, list_actions, get_draft_artifact, kind_eq, prepare_alpha_recovery_draft,
}
use supply_response.Execution.Mail.Rows.{MailRows, Current, some_or}
use supply_response.Execution.Mail.Updates.{is_text}
use supply_response.Policy.FinanceReview.{roles_eq}
use Prim.Native.String.{◌++◌}

pub record Settings : Type 0 where
  pub from_address : String
  pub to_address : String
  pub configured_actor : IdentitySnapshot
  pub has_graph_mail : Bool
  pub mail_send_enabled : Bool
  pub lower : String → String
  pub uuid5 : String → String

-- The fields of a decision that the service reads.
pub record Decision : Type 0 where
  pub decision_id : String
  pub case_id : String
  pub analysis_id : String
  pub analysis_material_hash : String
  pub selected_option_id : Option String
  pub selected_option : Option ResponseOption

-- What a call finds outside the email's rows.
pub record Call : Type 0 where
  pub decision : Decision
  pub is_current : Bool
  pub current_decision_id : Option String
  pub current_analysis_id : Option String
  pub current_analysis_hash : Option String
  pub plan : PlanRows
  pub now : Instant
  pub new_correlation_id : String
  pub contended : Bool

abbrev email_material : String → String
email_material decision_id = decision_id ++ ":supplier-email"

unfoldable pub deterministic_email_id : Settings → String → String
deterministic_email_id settings decision_id =
    "RL-EMAIL-" ++ settings.uuid5 (email_material decision_id)

abbrev unset_or : Option String → Option String → Bool
unset_or none actual = true
unset_or (some expected) actual = is_text actual expected

unfoldable pub is_configured_actor : Settings → IdentitySnapshot → Bool
unfolding roles_eq
is_configured_actor settings actor =
    let expected = settings.configured_actor in
    let roles : List String = "material_planner" ∷ "response_approver" ∷ [] in
    str_eq actor.persona_id expected.persona_id
    && str_eq expected.persona_id "RL-PERSONA-ALEX"
    && str_eq actor.source_id expected.source_id
    && str_eq expected.source_id "RL-ENTRA-ALEX"
    && roles_eq actor.effective_roles expected.effective_roles
    && roles_eq expected.effective_roles roles
    && unset_or expected.tenant_id actor.tenant_id
    && unset_or expected.object_id actor.object_id

unfoldable pub require_actor : Settings → IdentitySnapshot → Result MailError (Unit {0})
unfolding is_configured_actor
require_actor settings actor = guard (is_configured_actor settings actor) not_authorized

unfoldable pub require_current_projection : Call → Result MailError (Unit {0})
require_current_projection c =
    guard
      (is_text c.current_decision_id c.decision.decision_id
        && is_text c.current_analysis_id c.decision.analysis_id
        && is_text c.current_analysis_hash c.decision.analysis_material_hash)
      stale_proposal

abbrev single : List PlannedAction → Result MailError PlannedAction
single (a ∷ []) = ok a
single _ = err state_error

-- `_draft_action`: the one action that drafts, with its artifact.
unfoldable pub draft_action : Call → String → Result MailError PlannedAction
unfolding list_actions get_draft_artifact kind_eq
draft_action c decision_id = do
  action ←
      single
        (keep (λ a. kind_eq a.kind prepare_alpha_recovery_draft) (list_actions decision_id c.plan))
  artifact_id ← some_or state_error action.draft_artifact_id
  artifact ← some_or state_error (get_draft_artifact action.action_id c.plan)
  guard
      (str_eq action.decision_id decision_id
        && str_eq artifact.action_id action.action_id
        && str_eq artifact.decision_id decision_id
        && str_eq artifact.artifact_id artifact_id)
      state_error
  ok action

-- The checks that come before every change.
unfoldable pub require_draft : Call → String → Result MailError PlannedAction
unfolding require_current_projection draft_action
require_draft c decision_id = do
  guard c.is_current stale_proposal
  require_current_projection c
  draft_action c decision_id

abbrev pub Answer : Type 0
Answer = ReviewedSupplierEmail × MailRows

abbrev pub opened_or : MailError → Option Current → Result MailError Current
opened_or e none = err e
opened_or e (some current) = ok current
