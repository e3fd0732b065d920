-- ===== src/Execution/Service/History.antt =====
-- The history that the rows of an action keep: its events lead from the planned state to the
-- action's, and only the newest attempt can be in progress.
use supply_response.Base.{
  ℕ, suc, ◌≡◌, refl, ◌∙◌, ap, sym, subst, String, true, false, Option, none, some, List, [], ◌∷◌,
  length, All, ◌==◌, ==_iff, str_eq, str_eq_refl, arith,
}
use supply_response.Base.Result.{ok}
use supply_response.Execution.Records.{
  ExecutionStatus, planned, in_progress, completed, failed, cancelled, allowed, status_eq,
  ExecutionAction, ExecutionAttempt, ExecutionStatusEvent, ActionRows, update_action_projection,
  append_status_event, continues,
}
use supply_response.Execution.Service.{Call, event, record_move}

-- Events, newest first, that lead from the planned state to a status along allowed transitions,
-- numbered from 1.
unfoldable pub Chain : List ExecutionStatusEvent → ExecutionStatus → Type 0
Chain [] s = ⊥
Chain (e ∷ []) s =
    (s ≡ planned) × (e.to_status ≡ planned) × (e.from_status ≡ none) × (e.sequence_number ≡ 1)
Chain (e ∷ f ∷ es) s =
    (e.to_status ≡ s)
    × (e.from_status ≡ some f.to_status)
    × (allowed f.to_status s ≡ true)
    × (e.sequence_number ≡ suc (length (f ∷ es)))
    × Chain (f ∷ es) f.to_status

abbrev pub Settled : ExecutionAttempt → Type 0
Settled a = status_eq a.status in_progress ≡ false

-- An attempt runs exactly while the action is in progress, and it is the newest.
abbrev pub Running : ExecutionStatus → List ExecutionAttempt → Type 0
Running in_progress [] = ⊥
Running in_progress (a ∷ older) = (a.status ≡ in_progress) × All Settled older
Running _ attempts = All Settled attempts

-- Attempts of one action, newest first, numbered from 1.
abbrev pub Numbered : String → String → List ExecutionAttempt → Type 0
Numbered action_id decision_id [] = Unit
Numbered action_id decision_id (a ∷ older) =
    (a.attempt_number ≡ suc (length older))
    × (a.action_id ≡ action_id)
    × (a.decision_id ≡ decision_id)
    × Numbered action_id decision_id older

pub record WellKept (s : ActionRows) : Type 0 where
  pub chain : Chain s.events s.action.status
  pub running : Running s.action.status s.attempts
  pub numbered : Numbered s.action.action_id s.action.decision_id s.attempts
  pub others : All (λ a. str_eq a.action_id s.action.action_id ≡ false) s.other_attempts

pub status_eq_refl : (s : ExecutionStatus) → status_eq s s ≡ true
unfolding status_eq
status_eq_refl planned = refl
status_eq_refl in_progress = refl
status_eq_refl completed = refl
status_eq_refl failed = refl
status_eq_refl cancelled = refl

pub status_eq-≡ : (s t : ExecutionStatus) → status_eq s t ≡ true → s ≡ t
unfolding status_eq
status_eq-≡ s t h = ground arith

pub ==_refl : (n : ℕ) → (n == n) ≡ true
==_refl n = (==_iff n n).1 refl

-- What a recorded move leaves.
unfoldable pub moved :
    Call → ExecutionStatus → Option String → Option String → ActionRows → ActionRows
moved c to_status attempt_id error_code s = record s {
  action = record s.action { status = to_status };
  events = event c s.action to_status (suc (length s.events)) attempt_id error_code ∷ s.events;
}

newest_is :
    (e : ExecutionStatusEvent) (es : List ExecutionStatusEvent) (s : ExecutionStatus)
    → Chain (e ∷ es) s
    → e.to_status ≡ s
unfolding Chain
newest_is e [] s h = h.1 ∙ sym h.0
newest_is e (f ∷ es) s h = h.0

-- A history accepts every allowed move, and goes on with it.
continues_on :
    (c : Call) (to_status : ExecutionStatus) (a x : Option String) (n : ℕ)
    (action : ExecutionAction) (es : List ExecutionStatusEvent)
    → Chain es action.status
    → allowed action.status to_status ≡ true
    → continues (event c action to_status n a x) es ≡ true
unfolding continues Chain
continues_on c to_status a x n action [] h k = absurd h
continues_on c to_status a x n action (e ∷ es) h k =
    rw (newest_is e es action.status h, status_eq_refl, k) refl

pub record_move-moved :
    (c : Call) (to_status : ExecutionStatus) (a x : Option String) (s : ActionRows)
    → Chain s.events s.action.status
    → allowed s.action.status to_status ≡ true
    → record_move c s.action to_status a x s ≡ ok (moved c to_status a x s)
unfolding record_move append_status_event update_action_projection moved
record_move-moved c to_status a x s h k =
    rw
      (
        str_eq_refl,
        ==_refl,
        continues_on c to_status a x (suc (length s.events)) s.action s.events h k,
      )
      refl

Chain-event :
    (c : Call) (to_status : ExecutionStatus) (a x : Option String) (action : ExecutionAction)
    (es : List ExecutionStatusEvent)
    → Chain es action.status
    → allowed action.status to_status ≡ true
    → Chain (event c action to_status (suc (length es)) a x ∷ es) to_status
unfolding Chain
Chain-event c to_status a x action [] h k = absurd h
Chain-event c to_status a x action (e ∷ es) h k =
    let same = newest_is e es action.status h in
    (
      refl,
      ap some (sym same),
      ap (λ t. allowed t to_status) same ∙ k,
      refl,
      subst (Chain (e ∷ es)) (sym same) h,
    )

pub Chain-moved :
    (c : Call) (to_status : ExecutionStatus) (a x : Option String) (s : ActionRows)
    → Chain s.events s.action.status
    → allowed s.action.status to_status ≡ true
    → Chain (moved c to_status a x s).events to_status
unfolding moved
Chain-moved c to_status a x s h k = Chain-event c to_status a x s.action s.events h k
