-- ===== src/Examples/Actions.antt =====
-- An action that is started, fails, is tried again and is completed.
use supply_response.Base.{ℕ, suc, ◌≡◌, refl, String, true, none, some, [], inl}
use supply_response.Base.Result.{Result, ok, err}
use supply_response.Execution.Records.{
  ExecutionAction, ExecutionAttempt, ActionRows, planned, in_progress, completed, failed,
  illegal_transition, created, allowed, ExecutionError,
}
use supply_response.Execution.Service.{Call, begin_attempt, finish_attempt, cancel, new_attempt}
use supply_response.Execution.Service.History.{WellKept}
use supply_response.Execution.Service.Moves.{begun, begin_attempt-begun}
use supply_response.Execution.Service.Reachable.{
  Reachable, Reachable-WellKept, settled_action-stays,
}

abbrev action : ExecutionAction
action = record {
  action_id = "RL-ACTION-1";
  decision_id = "RL-DECISION-1";
  status = planned;
  created_at = 10;
}

abbrev call : String → String → ℕ → Call
call attempt event now = record {
  new_attempt_id = attempt;
  new_event_id = event;
  now = now;
  later = suc now;
  is_current = true;
}

abbrev rows_of : Result ExecutionError (ActionRows × ExecutionAttempt) → ActionRows
unfolding created
rows_of (ok (s, a)) = s
rows_of (err e) = created action "" []

abbrev rows : Result ExecutionError ActionRows → ActionRows
unfolding created
rows (ok s) = s
rows (err e) = created action "" []

abbrev first_call : Call
first_call = call "T1" "E2" 20

unfoldable started : ActionRows
unfolding begin_attempt created rows_of
started = rows_of (begin_attempt first_call planned (created action "E1" []))

unfoldable stopped : ActionRows
unfolding finish_attempt started rows
stopped = rows (finish_attempt (call "" "E3" 30) "T1" failed (some "TIMEOUT") started)

unfoldable restarted : ActionRows
unfolding begin_attempt stopped rows_of
restarted = rows_of (begin_attempt (call "T2" "E4" 40) failed stopped)

unfoldable done : ActionRows
unfolding finish_attempt restarted rows
done = rows (finish_attempt (call "" "E5" 50) "T2" completed none restarted)

reached : Reachable action "E1" done
unfolding done
reached =
    Reachable.finishes (call "" "E5" 50) "T2" completed none
      (Reachable.begins {a = new_attempt (call "T2" "E4" 40) stopped} (call "T2" "E4" 40) failed
        (Reachable.finishes (call "" "E3" 30) "T1" failed (some "TIMEOUT")
          (Reachable.begins {a = new_attempt first_call (created action "E1" [])} first_call planned
            (Reachable.new [] tt) refl)
          refl)
        refl)
      refl

Reachable-WellKept_example : WellKept done
Reachable-WellKept_example = Reachable-WellKept action "E1" done reached

ended_well : done.action.status ≡ completed
unfolding done
ended_well = refl

settled_action-stays_example :
    (begin_attempt first_call failed done ≡ err illegal_transition)
    × (finish_attempt first_call "T2" failed (some "LATE") done ≡ err illegal_transition)
    × (cancel first_call none done ≡ err illegal_transition)
settled_action-stays_example =
    settled_action-stays first_call failed failed "T2" none (some "LATE") done (inl ended_well)

created_kept : WellKept (created action "E1" [])
created_kept = Reachable-WellKept action "E1" (created action "E1" []) (Reachable.new [] tt)

is_planned : (created action "E1" []).action.status ≡ planned
unfolding created
is_planned = refl

permitted : allowed planned in_progress ≡ true
unfolding allowed
permitted = refl

begin_attempt-begun_example :
    begin_attempt first_call planned (created action "E1" [])
    ≡ ok
        (begun first_call (created action "E1" []), new_attempt first_call (created action "E1" []))
begin_attempt-begun_example =
    begin_attempt-begun first_call planned (created action "E1" []) created_kept is_planned
      permitted refl
