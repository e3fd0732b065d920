-- ===== src/Execution/Service/Ends.antt =====
-- The ends of attempts keep the history too, and so every sequence of moves does.
use supply_response.Base.{
  ◌≡◌, refl, ◌∙◌, ap, sym, subst, String, true, false, not, ◌&&◌, ◌||◌, Option, some, List, ◌∷◌,
  ◌++◌, find, All, str_eq, str_eq_refl, arith, &&-true,
}
use supply_response.Base.Result.{ok, >>=-eq-ok, guard-eq-ok, ok-injective}
use supply_response.Execution.Records.{
  ExecutionStatus, planned, in_progress, completed, failed, cancelled, allowed, status_eq,
  ExecutionAttempt, illegal_transition, stale, ActionRows, get_attempt, update_attempt, replace,
  is_final,
}
use supply_response.Execution.Service.{Call, record_move, finish_attempt, finished}
use supply_response.Execution.Service.History.{
  Settled, Running, Numbered, WellKept, moved, record_move-moved, Chain-moved,
}
use supply_response.Execution.Service.Moves.{newest}

-- Rows whose newest attempt has ended and whose status has moved.
unfoldable pub ended :
    Call
    → ExecutionStatus
    → Option String
    → Option String
    → ExecutionAttempt
    → List ExecutionAttempt
    → ActionRows
    → ActionRows
unfolding moved
ended c to_status attempt_id error_code a older s =
    moved c to_status attempt_id error_code (record s { attempts = a ∷ older })

Running-final :
    (st : ExecutionStatus) (xs : List ExecutionAttempt)
    → is_final st ≡ true
    → All Settled xs
    → Running st xs
unfolding is_final
Running-final planned xs h k = k
Running-final in_progress xs h k = absurd (ground arith)
Running-final completed xs h k = k
Running-final failed xs h k = k
Running-final cancelled xs h k = k

final_settled : (st : ExecutionStatus) → is_final st ≡ true → status_eq st in_progress ≡ false
unfolding is_final status_eq
final_settled st h = ground arith

update_attempt-replace :
    (b : ExecutionAttempt) (s r : ActionRows)
    → update_attempt b s ≡ ok r
    → (r ≡ record s { attempts = replace b s.attempts }) × (is_final b.status ≡ true)
unfolding update_attempt
update_attempt-replace b s r e = ground arith

replace-newest :
    (a b : ExecutionAttempt) (older : List ExecutionAttempt)
    → b.attempt_id ≡ a.attempt_id
    → replace b (a ∷ older) ≡ b ∷ older
unfolding replace
replace-newest a b older k = rw (k, str_eq_refl) refl

-- The update of the newest attempt.
pub update_attempt-newest :
    (a b : ExecutionAttempt) (older : List ExecutionAttempt) (s r : ActionRows)
    → s.attempts ≡ a ∷ older
    → b.attempt_id ≡ a.attempt_id
    → update_attempt b s ≡ ok r
    → (r ≡ record s { attempts = b ∷ older }) × (is_final b.status ≡ true)
update_attempt-newest a b older s r h k e =
    let (same, final) = update_attempt-replace b s r e in
    (
      same
          ∙ ap (λ (xs : List ExecutionAttempt). record s { attempts = xs })
              (ap (replace b) h ∙ replace-newest a b older k),
      final,
    )

-- Ending the newest attempt keeps the history.
pub ended-WellKept :
    (c : Call) (to_status : ExecutionStatus) (i x : Option String) (a b : ExecutionAttempt)
    (older : List ExecutionAttempt) (s : ActionRows)
    → WellKept s
    → s.attempts ≡ a ∷ older
    → All Settled older
    → allowed s.action.status to_status ≡ true
    → is_final to_status ≡ true
    → b.status ≡ to_status
    → b.attempt_number ≡ a.attempt_number
    → b.action_id ≡ a.action_id
    → b.decision_id ≡ a.decision_id
    → WellKept (ended c to_status i x b older s)
unfolding ended moved
ended-WellKept c to_status i x a b older s w h settled k final st num act dec =
    let numbered = subst (Numbered s.action.action_id s.action.decision_id) h w.numbered in
    record {
      chain = Chain-moved c to_status i x s w.chain k;
      running =
          Running-final to_status (b ∷ older) final
            (ap (λ t. status_eq t in_progress) st ∙ final_settled to_status final, settled);
      numbered = (num ∙ numbered.0, act ∙ numbered.1, dec ∙ numbered.2, numbered.3);
      others = w.others;
    }

get_attempt-find :
    (i : String) (s : ActionRows) (a : ExecutionAttempt)
    → get_attempt i s ≡ ok a
    → find (λ b. str_eq b.attempt_id i) (s.attempts ++ s.other_attempts) ≡ some a
unfolding get_attempt
get_attempt-find i s a e = ground arith

pub finish_attempt-WellKept :
    (c : Call) (i : String) (to_status : ExecutionStatus) (x : Option String) (s r : ActionRows)
    → WellKept s
    → finish_attempt c i to_status x s ≡ ok r
    → WellKept r
unfolding finish_attempt
finish_attempt-WellKept c i to_status x s r w e =
    let (permitted, e₁) = guard-eq-ok (allowed s.action.status to_status) illegal_transition _ e in
    let (a, got, e₂) = >>=-eq-ok (get_attempt i s) _ e₁ in
    let (mine, e₃) =
      guard-eq-ok (str_eq a.action_id s.action.action_id && status_eq a.status in_progress)
        illegal_transition _ e₂ in
    let (_, e₄) = guard-eq-ok (not (status_eq to_status completed) || c.is_current) stale _ e₃ in
    let (own, runs) =
      &&-true (str_eq a.action_id s.action.action_id) (status_eq a.status in_progress) mine in
    let (older, is_newest, _, settled) =
      newest (λ b. str_eq b.attempt_id i) s a w own runs (get_attempt-find i s a got) in
    let (updated, done, e₅) = >>=-eq-ok (update_attempt (finished c to_status x a) s) _ e₄ in
    let (same, final) =
      update_attempt-newest a (finished c to_status x a) older s updated is_newest refl done in
    let rows : ActionRows = record s { attempts = finished c to_status x a ∷ older } in
    let known = record_move-moved c to_status (some i) x rows w.chain permitted in
    let result =
      ok-injective (sym known ∙ ap (record_move c s.action to_status (some i) x) (sym same) ∙ e₅)
        (λ q. q) in
    subst WellKept (sym result) (
      unfold ended in
      ended-WellKept c to_status (some i) x a (finished c to_status x a) older s w is_newest settled
        permitted final refl refl refl refl)
