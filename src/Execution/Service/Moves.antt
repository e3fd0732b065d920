-- ===== src/Execution/Service/Moves.antt =====
-- The moves of an action keep its history, and a completed or cancelled action has none.
use supply_response.Base.{
  ◌≡◌, refl, ◌∙◌, ap, sym, subst, String, Bool, true, false, none, some, List, [], ◌∷◌, ◌++◌, find,
  All, str_eq, str_eq_refl, if◌then◌else◌, arith, Bool-cases, inl, inr,
}
use supply_response.Base.Result.{ok, guard-eq-ok, ok-injective}
use supply_response.Execution.Records.{
  ExecutionStatus, planned, in_progress, completed, failed, cancelled, allowed, status_eq,
  ExecutionAttempt, illegal_transition, stale, ActionRows, insert_attempt,
}
use supply_response.Execution.Service.{Call, read_again, begin_attempt, new_attempt}
use supply_response.Execution.Service.History.{
  Settled, Running, WellKept, moved, record_move-moved, Chain-moved, status_eq_refl, status_eq-≡,
  ==_refl,
}

-- What a new attempt leaves.
unfoldable pub begun : Call → ActionRows → ActionRows
unfolding moved
begun c s =
    moved (read_again c) in_progress (some c.new_attempt_id) none
      (record s { attempts = new_attempt c s ∷ s.attempts })

Settled-before :
    (st : ExecutionStatus) (xs : List ExecutionAttempt)
    → allowed st in_progress ≡ true
    → Running st xs
    → All Settled xs
unfolding allowed
Settled-before planned xs h k = k
Settled-before failed xs h k = k
Settled-before in_progress xs h k = absurd (ground arith)
Settled-before completed xs h k = k
Settled-before cancelled xs h k = k

pub begun-WellKept :
    (c : Call) (s : ActionRows)
    → WellKept s
    → allowed s.action.status in_progress ≡ true
    → WellKept (begun c s)
unfolding moved begun
begun-WellKept c s w k = record {
  chain =
      Chain-moved (read_again c) in_progress (some c.new_attempt_id) none
        (record s { attempts = new_attempt c s ∷ s.attempts }) w.chain k;
  running = (refl, Settled-before s.action.status s.attempts k w.running);
  numbered = (refl, refl, refl, w.numbered);
  others = w.others;
}

some-injective {ℓ} : {A : Type ℓ} {a b : A} → some a ≡ some b → a ≡ b
some-injective {a = a} e = ap (λ o. elim o [ none ↦ a | some x ↦ x ]) e

insert_attempt-new :
    (c : Call) (s : ActionRows)
    → insert_attempt (new_attempt c s) s ≡ ok (record s { attempts = new_attempt c s ∷ s.attempts })
unfolding insert_attempt
insert_attempt-new c s = rw (str_eq_refl, ==_refl) refl

-- An action whose history is well kept begins an attempt exactly as asked: from the required
-- status, if it allows it and the approval is current, with a new attempt of the next number.
pub begin_attempt-begun :
    (c : Call) (required : ExecutionStatus) (s : ActionRows)
    → WellKept s
    → s.action.status ≡ required
    → allowed required in_progress ≡ true
    → c.is_current ≡ true
    → begin_attempt c required s ≡ ok (begun c s, new_attempt c s)
unfolding begin_attempt begun
begin_attempt-begun c required s w same k current =
    let permitted = ap (λ t. allowed t in_progress) same ∙ k in
    let rows : ActionRows = record s { attempts = new_attempt c s ∷ s.attempts } in
    rw
      (
        ap (λ t. status_eq t required) same ∙ status_eq_refl required,
        permitted,
        current,
        insert_attempt-new c s,
        record_move-moved (read_again c) in_progress (some c.new_attempt_id) none rows w.chain
            permitted,
      )
      refl

begin_attempt-allowed :
    (c : Call) (required : ExecutionStatus) (s : ActionRows) {r : ActionRows × ExecutionAttempt}
    → begin_attempt c required s ≡ ok r
    → (s.action.status ≡ required)
      × (allowed s.action.status in_progress ≡ true)
      × (c.is_current ≡ true)
unfolding begin_attempt
begin_attempt-allowed c required s e =
    let (at, e₁) = guard-eq-ok (status_eq s.action.status required) illegal_transition _ e in
    let (permitted, e₂) =
      guard-eq-ok (allowed s.action.status in_progress) illegal_transition _ e₁ in
    let (current, _) = guard-eq-ok c.is_current stale _ e₂ in
    (status_eq-≡ s.action.status required at, permitted, current)

pub begin_attempt-WellKept :
    (c : Call) (required : ExecutionStatus) (s r : ActionRows) (a : ExecutionAttempt)
    → WellKept s
    → begin_attempt c required s ≡ ok (r, a)
    → WellKept r
begin_attempt-WellKept c required s r a w e =
    let (at, permitted, current) = begin_attempt-allowed c required s e in
    let known =
      begin_attempt-begun c required s w at (ap (λ t. allowed t in_progress) (sym at) ∙ permitted)
        current in
    subst WellKept (sym (ok-injective (sym known ∙ e) (λ p. p.0))) (begun-WellKept c s w permitted)

-- A search that passes the settled attempts.
find-Settled :
    (p : ExecutionAttempt → Bool) (xs ys : List ExecutionAttempt) (a : ExecutionAttempt)
    → All Settled xs
    → status_eq a.status in_progress ≡ true
    → find p (xs ++ ys) ≡ some a
    → find p ys ≡ some a
find-Settled p [] ys a h k e = e
find-Settled p (x ∷ xs) ys a h k e = elim (Bool-cases (p x)) [
  | inl t ↦ absurd (ground (arith, t, e, k, h.0))
  | inr f ↦
      find-Settled p xs ys a h.1 k (ap (λ b. if b then some x else find p (xs ++ ys)) (sym f) ∙ e)
]

not_other :
    (p : ExecutionAttempt → Bool) (i : String) (ys : List ExecutionAttempt) (a : ExecutionAttempt)
    → All (λ y. str_eq y.action_id i ≡ false) ys
    → str_eq a.action_id i ≡ true
    → find p ys ≡ some a
    → ⊥
not_other p i [] a h k e = ground (arith, e)
not_other p i (y ∷ ys) a h k e = elim (Bool-cases (p y)) [
  | inl t ↦ ground (arith, t, e, k, h.0)
  | inr f ↦ not_other p i ys a h.1 k (ap (λ b. if b then some y else find p ys) (sym f) ∙ e)
]

-- The running attempt of an action is its newest.
pub newest :
    (p : ExecutionAttempt → Bool) (s : ActionRows) (a : ExecutionAttempt)
    → WellKept s
    → str_eq a.action_id s.action.action_id ≡ true
    → status_eq a.status in_progress ≡ true
    → find p (s.attempts ++ s.other_attempts) ≡ some a
    → (older : List ExecutionAttempt) × (s.attempts ≡ a ∷ older) × (p a ≡ true) × All Settled older
newest p s a w own runs e = go s.action.status s.attempts w.running e
  where
    go :
        (st : ExecutionStatus) (xs : List ExecutionAttempt)
        → Running st xs
        → find p (xs ++ s.other_attempts) ≡ some a
        → (older : List ExecutionAttempt) × (xs ≡ a ∷ older) × (p a ≡ true) × All Settled older
    go in_progress [] h f = absurd h
    go in_progress (x ∷ xs) h f = elim (Bool-cases (p x)) [
      | inl t ↦
          let same : x ≡ a =
            some-injective
              (ap (λ b. if b then some x else find p (xs ++ s.other_attempts)) (sym t) ∙ f) in
          (xs, ap (λ y. y ∷ xs) same, ap p (sym same) ∙ t, h.1)
      | inr g ↦ absurd (
          not_other p s.action.action_id s.other_attempts a w.others own (
            find-Settled p xs s.other_attempts a h.1 runs
              (ap (λ b. if b then some x else find p (xs ++ s.other_attempts)) (sym g) ∙ f)))
    ]
    go planned xs h f = absurd (
        not_other p s.action.action_id s.other_attempts a w.others own
          (find-Settled p xs s.other_attempts a h runs f))
    go failed xs h f = absurd (
        not_other p s.action.action_id s.other_attempts a w.others own
          (find-Settled p xs s.other_attempts a h runs f))
    go completed xs h f = absurd (
        not_other p s.action.action_id s.other_attempts a w.others own
          (find-Settled p xs s.other_attempts a h runs f))
    go cancelled xs h f = absurd (
        not_other p s.action.action_id s.other_attempts a w.others own
          (find-Settled p xs s.other_attempts a h runs f))
