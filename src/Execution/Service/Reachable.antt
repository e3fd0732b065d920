-- ===== src/Execution/Service/Reachable.antt =====
-- Cancellation, and all that a sequence of moves can lead to.
use supply_response.Base.{
  ◌≡◌, refl, ◌∙◌, ap, sym, subst, String, Bool, true, false, ◌&&◌, Option, none, some, List, [],
  ◌∷◌, ◌⊎◌, All, str_eq, if◌then◌else◌, arith, Bool-cases, inl, inr,
}
use supply_response.Base.Result.{ok, err, >>=-eq-ok, guard-eq-ok, ok-injective}
use supply_response.Execution.Records.{
  ExecutionStatus, planned, in_progress, completed, failed, cancelled, allowed, status_eq,
  ExecutionAction, ExecutionAttempt, illegal_transition, ActionRows, update_attempt, created,
}
use supply_response.Execution.Service.{
  Call, record_move, begin_attempt, finish_attempt, cancel, cancel_running, current_attempt,
}
use supply_response.Execution.Service.History.{
  Chain, Settled, Running, WellKept, moved, record_move-moved, Chain-moved, status_eq-≡,
}
use supply_response.Execution.Service.Moves.{begin_attempt-WellKept}
use supply_response.Execution.Service.Ends.{
  ended, update_attempt-newest, ended-WellKept, finish_attempt-WellKept,
}

current_attempt-newest :
    (i : Option String) (xs : List ExecutionAttempt) (a : ExecutionAttempt)
    → current_attempt i xs ≡ ok a
    → (older : List ExecutionAttempt) × (xs ≡ a ∷ older)
unfolding current_attempt
current_attempt-newest i [] a e = absurd (ground arith)
current_attempt-newest i (x ∷ xs) a e =
    let (_, e₁) = guard-eq-ok (status_eq x.status in_progress && _) illegal_transition _ e in
    (xs, ap (λ y. y ∷ xs) (sym (ok-injective e₁ (λ y. y))))

older-Settled :
    (st : ExecutionStatus) (xs older : List ExecutionAttempt) (a : ExecutionAttempt)
    → st ≡ in_progress
    → xs ≡ a ∷ older
    → Running st xs
    → All Settled older
older-Settled st xs older a e h k =
    (subst (λ t. Running t (a ∷ older)) e (subst (Running st) h k)).1

cancel_running-WellKept :
    (c : Call) (i : Option String) (s r : ActionRows)
    → WellKept s
    → s.action.status ≡ in_progress
    → allowed s.action.status cancelled ≡ true
    → cancel_running c i s ≡ ok r
    → WellKept r
unfolding cancel_running
cancel_running-WellKept c i s r w at permitted e =
    let (a, got, e₁) = >>=-eq-ok (current_attempt i s.attempts) _ e in
    let (older, is_newest) = current_attempt-newest i s.attempts a got in
    let b : ExecutionAttempt = record a { status = cancelled; completed_at = some c.now } in
    let (updated, done, e₂) = >>=-eq-ok (update_attempt b s) _ e₁ in
    let (same, final) = update_attempt-newest a b older s updated is_newest refl done in
    let rows : ActionRows = record s { attempts = b ∷ older } in
    let known = record_move-moved c cancelled (some a.attempt_id) none rows w.chain permitted in
    let result =
      ok-injective
        (sym known ∙ ap (record_move c s.action cancelled (some a.attempt_id) none) (sym same) ∙ e₂)
        (λ q. q) in
    subst WellKept (sym result) (
      unfold ended in
      ended-WellKept c cancelled (some a.attempt_id) none a b older s w is_newest
        (older-Settled s.action.status s.attempts older a at is_newest w.running) permitted final
        refl refl refl refl)

never_begun :
    (st : ExecutionStatus) (xs : List ExecutionAttempt)
    → allowed st cancelled ≡ true
    → status_eq st in_progress ≡ false
    → Running st xs
    → Running cancelled xs
unfolding allowed status_eq
never_begun planned xs h k r = r
never_begun in_progress xs h k r = absurd (ground arith)
never_begun completed xs h k r = r
never_begun failed xs h k r = r
never_begun cancelled xs h k r = r

cancel_planned-WellKept :
    (c : Call) (i : Option String) (s : ActionRows)
    → WellKept s
    → status_eq s.action.status in_progress ≡ false
    → allowed s.action.status cancelled ≡ true
    → WellKept (moved c cancelled i none s)
unfolding moved
cancel_planned-WellKept c i s w idle permitted = record {
  chain = Chain-moved c cancelled i none s w.chain permitted;
  running = never_begun s.action.status s.attempts permitted idle w.running;
  numbered = w.numbered;
  others = w.others;
}

cancel-WellKept :
    (c : Call) (i : Option String) (s r : ActionRows)
    → WellKept s
    → cancel c i s ≡ ok r
    → WellKept r
unfolding cancel
cancel-WellKept c i s r w e =
    let (permitted, e₁) = guard-eq-ok (allowed s.action.status cancelled) illegal_transition _ e in
    let branch =
      λ (b : Bool). if b then cancel_running c i s else record_move c s.action cancelled i none s in
    elim (Bool-cases (status_eq s.action.status in_progress)) [
      | inl busy ↦
          cancel_running-WellKept c i s r w (status_eq-≡ s.action.status in_progress busy) permitted
            (ap branch (sym busy) ∙ e₁)
      | inr idle ↦
          subst WellKept
            (ok-injective
              (sym (ap branch (sym idle) ∙ e₁)
                ∙ record_move-moved c cancelled i none s w.chain permitted)
              (λ q. q))
            (cancel_planned-WellKept c i s w idle permitted)
    ]

-- The rows that the moves of a new action can lead to, beside the attempts of other actions.
pub data Reachable (action : ExecutionAction) (event_id : String) : ActionRows → Type 0 where
  new :
      (others : List ExecutionAttempt)
      → All (λ a. str_eq a.action_id action.action_id ≡ false) others
      → Reachable action event_id (created action event_id others)
  begins :
      {s r : ActionRows} {a : ExecutionAttempt} (c : Call) (required : ExecutionStatus)
      → Reachable action event_id s
      → begin_attempt c required s ≡ ok (r, a)
      → Reachable action event_id r
  finishes :
      {s r : ActionRows} (c : Call) (i : String) (to_status : ExecutionStatus) (x : Option String)
      → Reachable action event_id s
      → finish_attempt c i to_status x s ≡ ok r
      → Reachable action event_id r
  cancels :
      {s r : ActionRows} (c : Call) (i : Option String)
      → Reachable action event_id s
      → cancel c i s ≡ ok r
      → Reachable action event_id r

created-WellKept :
    (action : ExecutionAction) (event_id : String) (others : List ExecutionAttempt)
    → All (λ a. str_eq a.action_id action.action_id ≡ false) others
    → WellKept (created action event_id others)
unfolding created Chain
created-WellKept action event_id others h = record {
  chain = (refl, refl, refl, refl);
  running = tt;
  numbered = tt;
  others = h;
}

-- Whatever sequence of starts, retries, completions, failures and cancellations a new action goes
-- through, its history is well kept: its events, numbered from 1, lead from the planned state to
-- the action's along allowed transitions, its attempts are its own and numbered from 1, and an
-- attempt is in progress exactly while the action is, and is then the newest.
pub Reachable-WellKept :
    (action : ExecutionAction) (event_id : String) (s : ActionRows)
    → Reachable action event_id s
    → WellKept s
Reachable-WellKept action event_id s (Reachable.new others h) =
    created-WellKept action event_id others h
Reachable-WellKept action event_id r (Reachable.begins {s = s} {a = a} c required h e) =
    begin_attempt-WellKept c required s r a (Reachable-WellKept action event_id s h) e
Reachable-WellKept action event_id r (Reachable.finishes {s = s} c i to_status x h e) =
    finish_attempt-WellKept c i to_status x s r (Reachable-WellKept action event_id s h) e
Reachable-WellKept action event_id r (Reachable.cancels {s = s} c i h e) =
    cancel-WellKept c i s r (Reachable-WellKept action event_id s h) e

-- A completed or a cancelled action stays as it is: every start, retry, completion, failure or
-- cancellation of it is an illegal transition.
pub settled_action-stays :
    (c : Call) (required to_status : ExecutionStatus) (i : String) (j x : Option String)
    (s : ActionRows)
    → (s.action.status ≡ completed) ⊎ (s.action.status ≡ cancelled)
    → (begin_attempt c required s ≡ err illegal_transition)
      × (finish_attempt c i to_status x s ≡ err illegal_transition)
      × (cancel c j s ≡ err illegal_transition)
unfolding begin_attempt finish_attempt cancel allowed status_eq
settled_action-stays c required to_status i j x s h = ground arith
