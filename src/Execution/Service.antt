-- ===== src/Execution/Service.antt =====
-- services/execution/worker.py, `ExecutionService`: the moves of an action through its states. The
-- identifiers that `uuid4` gives, the time of the clock and the verdict of
-- `guard_execution_current` are arguments. An error leaves the rows as they were.
pub mod History
pub mod Moves
pub mod Ends
pub mod Reachable
use supply_response.Base.{
  ℕ, suc, String, Bool, true, false, not, ◌&&◌, ◌||◌, Option, none, some, is_some, is_none, List,
  [], ◌∷◌, length, str_eq, if◌then◌else◌,
}
use supply_response.Base.Result.{Result, ok, err, ◌>>=◌, ◌>>◌, guard}
use supply_response.Domain.Common.{Instant}
use supply_response.Execution.Records.{
  ExecutionStatus, planned, in_progress, completed, failed, cancelled, allowed, status_eq,
  ExecutionAction, ExecutionAttempt, ExecutionStatusEvent, ExecutionError, illegal_transition,
  stale, ActionRows, insert_attempt, get_attempt, update_attempt, update_action_projection,
  append_status_event,
}

-- What comes from outside a call. Where the clock is read twice, `later` is its second reading.
pub record Call : Type 0 where
  pub new_attempt_id : String
  pub new_event_id : String
  pub now : Instant
  pub later : Instant
  pub is_current : Bool

unfoldable pub require_transition :
    ExecutionAction → ExecutionStatus → Result ExecutionError (Unit {0})
unfolding allowed
require_transition action to_status = guard (allowed action.status to_status) illegal_transition

abbrev pub event :
    Call
    → ExecutionAction
    → ExecutionStatus
    → ℕ
    → Option String
    → Option String
    → ExecutionStatusEvent
event c action to_status sequence_number attempt_id error_code = record {
  execution_event_id = c.new_event_id;
  action_id = action.action_id;
  decision_id = action.decision_id;
  sequence_number = sequence_number;
  from_status = some action.status;
  to_status = to_status;
  attempt_id = attempt_id;
  error_code = error_code;
  occurred_at = c.now;
}

abbrev pub new_attempt : Call → ActionRows → ExecutionAttempt
new_attempt c s = record {
  attempt_id = c.new_attempt_id;
  action_id = s.action.action_id;
  decision_id = s.action.decision_id;
  attempt_number = suc (length s.attempts);
  status = in_progress;
  started_at = c.now;
  completed_at = none;
  error_code = none;
}

-- The record of a move: the projection and the event.
unfoldable pub record_move :
    Call
    → ExecutionAction
    → ExecutionStatus
    → Option String
    → Option String
    → ActionRows
    → Result ExecutionError ActionRows
unfolding update_action_projection append_status_event
record_move c action to_status attempt_id error_code s =
    append_status_event (event c action to_status (suc (length s.events)) attempt_id error_code)
      (update_action_projection to_status s)

-- `_event` without a time reads the clock again.
abbrev pub read_again : Call → Call
read_again c = record c { now = c.later }

unfoldable pub begin_attempt :
    Call → ExecutionStatus → ActionRows → Result ExecutionError (ActionRows × ExecutionAttempt)
unfolding status_eq allowed insert_attempt record_move require_transition
begin_attempt c required_status s = do
  guard (status_eq s.action.status required_status) illegal_transition
  require_transition s.action in_progress
  guard c.is_current stale
  let attempt = new_attempt c s
  inserted ← insert_attempt attempt s
  moved ← record_move (read_again c) s.action in_progress (some attempt.attempt_id) none inserted
  ok (moved, attempt)

abbrev pub start : Call → ActionRows → Result ExecutionError (ActionRows × ExecutionAttempt)
start c = begin_attempt c planned

abbrev pub retry : Call → ActionRows → Result ExecutionError (ActionRows × ExecutionAttempt)
retry c = begin_attempt c failed

abbrev pub finished : Call → ExecutionStatus → Option String → ExecutionAttempt → ExecutionAttempt
finished c to_status error_code attempt = record attempt {
  status = to_status;
  completed_at = some c.now;
  error_code = error_code;
}

unfoldable pub finish_attempt :
    Call → String → ExecutionStatus → Option String → ActionRows → Result ExecutionError ActionRows
unfolding status_eq allowed get_attempt update_attempt record_move require_transition
finish_attempt c attempt_id to_status error_code s = do
  require_transition s.action to_status
  attempt ← get_attempt attempt_id s
  guard (str_eq attempt.action_id s.action.action_id && status_eq attempt.status in_progress)
      illegal_transition
  guard (not (status_eq to_status completed) || c.is_current) stale
  updated ← update_attempt (finished c to_status error_code attempt) s
  record_move c s.action to_status (some attempt_id) error_code updated

abbrev pub complete : Call → String → ActionRows → Result ExecutionError ActionRows
complete c attempt_id = finish_attempt c attempt_id completed none

abbrev pub fail : Call → String → String → ActionRows → Result ExecutionError ActionRows
fail c attempt_id error_code = finish_attempt c attempt_id failed (some error_code)

-- `attempt_id is not None and current.attempt_id != attempt_id`
abbrev is_other : Option String → String → Bool
is_other none i = false
is_other (some j) i = not (str_eq i j)

-- The in-progress attempt that a cancellation ends: the newest.
unfoldable pub current_attempt :
    Option String → List ExecutionAttempt → Result ExecutionError ExecutionAttempt
unfolding status_eq
current_attempt attempt_id [] = err illegal_transition
current_attempt attempt_id (a ∷ older) = do
  guard (status_eq a.status in_progress && not (is_other attempt_id a.attempt_id))
      illegal_transition
  ok a

-- The cancellation of an action with a running attempt.
unfoldable pub cancel_running : Call → Option String → ActionRows → Result ExecutionError ActionRows
unfolding current_attempt update_attempt record_move
cancel_running c attempt_id s = do
  a ← current_attempt attempt_id s.attempts
  updated ← update_attempt (record a { status = cancelled; completed_at = some c.now }) s
  record_move c s.action cancelled (some a.attempt_id) none updated

unfoldable pub cancel : Call → Option String → ActionRows → Result ExecutionError ActionRows
unfolding status_eq allowed cancel_running record_move require_transition
cancel c attempt_id s = do
  require_transition s.action cancelled
  if status_eq s.action.status in_progress
      then cancel_running c attempt_id s
      else record_move c s.action cancelled attempt_id none s
