-- ===== src/Execution/Actions.antt =====
-- data/domain/execution.py: a planned action with all its fields and its draft artifact, and how
-- services/persistence/store.py reads the actions of a decision.
use supply_response.Base.{
  ℕ, String, Bool, true, false, not, ◌&&◌, Option, none, some, is_some, is_none, List, find, keep,
  str_eq, if◌then◌else◌, ◌==◌,
}
use supply_response.Base.Order.{Order, by, sorted}
use supply_response.Base.Keys.{nat_order}
use supply_response.Domain.Common.{Instant}
use supply_response.Execution.Records.{ExecutionStatus}

pub data ExecutionActionKind : Type 0 where
  prepare_alpha_recovery_draft coordinate_alpha_expedited_partial : ExecutionActionKind
  transfer_dallas_to_chicago resequence_priority_production : ExecutionActionKind
  update_disruption_status : ExecutionActionKind

pub data ExecutionOwnerKind : Type 0 where
  persona system : ExecutionOwnerKind

pub data ExecutionMode : Type 0 where
  simulation communication_preparation : ExecutionMode

-- `ExecutionAction`, with the fields that `Execution.Records.ExecutionAction` leaves out.
pub record PlannedAction : Type 0 where
  pub action_id : String
  pub case_id : String
  pub decision_id : String
  pub kind : ExecutionActionKind
  pub owner_kind : ExecutionOwnerKind
  pub owner_persona_id : Option String
  pub status : ExecutionStatus
  pub created_at : Instant
  pub draft_artifact_id : Option String
  pub purpose : Option String
  pub expected_result : Option String
  pub execution_mode : Option ExecutionMode

pub record DraftArtifact : Type 0 where
  pub artifact_id : String
  pub action_id : String
  pub decision_id : String
  pub created_at : Instant
  pub subject : Option String
  pub body : Option String

-- The place of a kind in the enumeration.
unfoldable pub kind_index : ExecutionActionKind → ℕ
kind_index prepare_alpha_recovery_draft = 0
kind_index coordinate_alpha_expedited_partial = 1
kind_index transfer_dallas_to_chicago = 2
kind_index resequence_priority_production = 3
kind_index update_disruption_status = 4

unfoldable pub kind_eq : ExecutionActionKind → ExecutionActionKind → Bool
unfolding kind_index
kind_eq a b = kind_index a == kind_index b

abbrev is_persona : ExecutionOwnerKind → Bool
is_persona persona = true
is_persona system = false

abbrev is_alex : Option String → Bool
is_alex none = false
is_alex (some p) = str_eq p "RL-PERSONA-ALEX"

abbrev agree : Bool → Bool → Bool
agree true b = b
agree false b = not b

-- `validate_owner_and_draft`, whether it raises nothing.
unfoldable pub validate_owner_and_draft : PlannedAction → Bool
unfolding kind_eq
validate_owner_and_draft a =
    (if kind_eq a.kind update_disruption_status
      then not (is_persona a.owner_kind) && is_none a.owner_persona_id
      else is_persona a.owner_kind && is_alex a.owner_persona_id)
    && agree (kind_eq a.kind prepare_alpha_recovery_draft) (is_some a.draft_artifact_id)

-- The actions of all decisions, and the draft artifacts.
pub record PlanRows : Type 0 where
  pub actions : List PlannedAction
  pub artifacts : List DraftArtifact

abbrev pub by_kind : Order PlannedAction
by_kind = by (λ a. kind_index a.kind) nat_order

unfoldable pub get_action : String → PlanRows → Option PlannedAction
get_action action_id plan = find (λ a. str_eq a.action_id action_id) plan.actions

unfoldable pub list_actions : String → PlanRows → List PlannedAction
unfolding kind_index sorted
list_actions decision_id plan =
    sorted by_kind (keep (λ a. str_eq a.decision_id decision_id) plan.actions)

unfoldable pub get_draft_artifact : String → PlanRows → Option DraftArtifact
get_draft_artifact action_id plan = find (λ a. str_eq a.action_id action_id) plan.artifacts
