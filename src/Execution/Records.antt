-- ===== src/Execution/Records.antt =====
-- data/domain/execution.py: the states of an execution action, and the part of
-- services/persistence/store.py that keeps one action with its attempts and its status events.
use supply_response.Base.{
  ℕ, suc, String, Bool, true, false, ◌&&◌, Option, none, some, is_some, is_none, List, [], ◌∷◌,
  ◌++◌, length, find, ◌==◌, str_eq, if◌then◌else◌,
}
use supply_response.Base.Result.{Result, ok, err, ◌>>=◌, ◌>>◌, guard}
use supply_response.Domain.Common.{Instant}

pub data ExecutionStatus : Type 0 where
  planned in_progress completed failed cancelled : ExecutionStatus

-- `ALLOWED_TRANSITIONS`
unfoldable pub allowed : ExecutionStatus → ExecutionStatus → Bool
allowed planned in_progress = true
allowed planned cancelled = true
allowed in_progress completed = true
allowed in_progress failed = true
allowed in_progress cancelled = true
allowed failed in_progress = true
allowed _ _ = false

unfoldable pub status_eq : ExecutionStatus → ExecutionStatus → Bool
status_eq planned planned = true
status_eq in_progress in_progress = true
status_eq completed completed = true
status_eq failed failed = true
status_eq cancelled cancelled = true
status_eq _ _ = false

-- The fields of an action that its execution reads; the status is the only one that changes.
pub record ExecutionAction : Type 0 where
  pub action_id : String
  pub decision_id : String
  pub status : ExecutionStatus
  pub created_at : Instant

pub record ExecutionAttempt : Type 0 where
  pub attempt_id : String
  pub action_id : String
  pub decision_id : String
  pub attempt_number : ℕ
  pub status : ExecutionStatus
  pub started_at : Instant
  pub completed_at : Option Instant
  pub error_code : Option String

pub record ExecutionStatusEvent : Type 0 where
  pub execution_event_id : String
  pub action_id : String
  pub decision_id : String
  pub sequence_number : ℕ
  pub from_status : Option ExecutionStatus
  pub to_status : ExecutionStatus
  pub attempt_id : Option String
  pub error_code : Option String
  pub occurred_at : Instant

-- `IllegalExecutionTransition`, `PersistenceIntegrityError`, `RecordNotFound`,
-- `ExecutionProposalStale`.
pub data ExecutionError : Type 0 where
  illegal_transition integrity_error not_found stale : ExecutionError

-- The rows of one action: the action, its attempts and its events, the newest first, and the
-- attempts of other actions.
pub record ActionRows : Type 0 where
  pub action : ExecutionAction
  pub attempts : List ExecutionAttempt
  pub events : List ExecutionStatusEvent
  pub other_attempts : List ExecutionAttempt

unfoldable pub insert_attempt : ExecutionAttempt → ActionRows → Result ExecutionError ActionRows
unfolding status_eq
insert_attempt a s = do
  guard
      (str_eq a.decision_id s.action.decision_id
        && a.attempt_number == suc (length s.attempts)
        && status_eq a.status in_progress
        && is_none a.completed_at)
      integrity_error
  ok (record s { attempts = a ∷ s.attempts })

abbrev found_attempt : Option ExecutionAttempt → Result ExecutionError ExecutionAttempt
found_attempt none = err not_found
found_attempt (some a) = ok a

unfoldable pub get_attempt : String → ActionRows → Result ExecutionError ExecutionAttempt
get_attempt attempt_id s =
    found_attempt (find (λ a. str_eq a.attempt_id attempt_id) (s.attempts ++ s.other_attempts))

-- The update of the row with an attempt's identifier.
unfoldable pub replace : ExecutionAttempt → List ExecutionAttempt → List ExecutionAttempt
replace a [] = []
replace a (b ∷ bs) = if str_eq b.attempt_id a.attempt_id then a ∷ bs else b ∷ replace a bs

unfoldable pub is_final : ExecutionStatus → Bool
is_final completed = true
is_final failed = true
is_final cancelled = true
is_final _ = false

unfoldable pub update_attempt : ExecutionAttempt → ActionRows → Result ExecutionError ActionRows
unfolding get_attempt replace status_eq is_final
update_attempt a s = do
  previous ← get_attempt a.attempt_id s
  guard
      (status_eq previous.status in_progress
        && str_eq a.action_id previous.action_id
        && str_eq a.decision_id previous.decision_id
        && a.attempt_number == previous.attempt_number
        && a.started_at == previous.started_at
        && is_final a.status
        && is_some a.completed_at)
      integrity_error
  ok (record s { attempts = replace a s.attempts })

unfoldable pub update_action_projection : ExecutionStatus → ActionRows → ActionRows
update_action_projection status s = record s { action = record s.action { status = status } }

unfoldable pub from_is : Option ExecutionStatus → ExecutionStatus → Bool
unfolding status_eq
from_is none s = false
from_is (some f) s = status_eq f s

-- The graph check: the first event establishes the planned state, a later one moves on from the
-- last along an allowed transition.
unfoldable pub continues : ExecutionStatusEvent → List ExecutionStatusEvent → Bool
unfolding from_is status_eq allowed
continues e [] = is_none e.from_status && status_eq e.to_status planned
continues e (f ∷ fs) = from_is e.from_status f.to_status && allowed f.to_status e.to_status

unfoldable pub append_status_event :
    ExecutionStatusEvent → ActionRows → Result ExecutionError ActionRows
unfolding continues
append_status_event e s = do
  guard (str_eq e.decision_id s.action.decision_id && e.sequence_number == suc (length s.events))
      integrity_error
  guard (continues e s.events) integrity_error
  ok (record s { events = e ∷ s.events })

-- What the insertion of a new, planned action leaves.
unfoldable pub created : ExecutionAction → String → List ExecutionAttempt → ActionRows
created action event_id other_attempts = record {
  action = record action { status = planned };
  attempts = [];
  events =
      record {
        execution_event_id = event_id;
        action_id = action.action_id;
        decision_id = action.decision_id;
        sequence_number = 1;
        from_status = none;
        to_status = planned;
        attempt_id = none;
        error_code = none;
        occurred_at = action.created_at;
      }
      ∷ [];
  other_attempts = other_attempts;
}
