-- ===== src/Execution/Mail/Opening.antt =====
-- What `get` keeps of the rows of a supplier email.
use supply_response.Base.{
  ℕ, ◌≡◌, refl, sym, subst, String, ◌&&◌, Option, none, some, is_none, List, [], ◌∷◌, ◌==◌, arith,
  All, All-map, eq_iff, str_eq_refl,
}
use supply_response.Base.Result.{
  ok, ◌>>◌, guard, Ensures, Ensures-bind, Ensures-guard, Ensures-then, Ensures-ok,
}
use supply_response.Domain.OutboundMail.{
  SupplierEmailRevision, SupplierEmailDelivery, validate_revision, is_valid_revision, lowered,
  validation_error, value_error, integrity_error, immutable_conflict,
}
use supply_response.Execution.Mail.Rows.{
  MailRows, get_current, insert_initial, insert_rows, starts, with_first, require_action_binding,
}
use supply_response.Execution.Mail.Guards.{Settings, Call, require_draft}
use supply_response.Execution.Actions.{PlanRows, list_actions}
use supply_response.Domain.Common.{Instant}
use supply_response.Execution.Mail.Editing.{
  open_email, first_draft, first_revision, first_delivery, opened, initial_content,
}
use supply_response.Execution.Mail.Delivery.{Kept, Sound, Stored}
use supply_response.Execution.Mail.Keeps.{get_current-Sound}
use supply_response.Execution.Mail.Calls.{Answers}

-- What a first revision is.
abbrev First : String → SupplierEmailRevision → Type 0
First decision_id r =
    (r.revision ≡ 1)
    × (is_none r.reviewed_by ≡ is_none r.reviewed_at)
    × (r.decision_id ≡ decision_id)

first_revision-First :
    (settings : Settings) (c : Call) (decision_id : String)
    → Ensures (First decision_id) (first_revision settings c decision_id)
unfolding first_revision validate_revision
first_revision-First settings c decision_id =
    let P = First decision_id in
    Ensures-bind P (require_draft c decision_id) _ (λ a _.
      Ensures-bind P (initial_content c.decision (list_actions decision_id c.plan)) _ (λ content _.
        let q = first_draft settings c decision_id a content in
        Ensures-guard P (is_valid_revision q) validation_error (ok (lowered settings.lower q))
          (λ _. (refl, refl, refl))))

not-Stored-nil : (q r : SupplierEmailRevision) → Stored [] q → Stored (r ∷ []) q
not-Stored-nil q r s = cc (s.0)

First-Sound :
    (qs : List SupplierEmailRevision) (decision_id : String) (r : SupplierEmailRevision)
    (now : Instant)
    → All (Stored []) qs
    → First decision_id r
    → Sound qs (first_delivery r decision_id now) r [] 0
First-Sound qs decision_id r now none_stored f = ground (
  arith,
  str_eq_refl r.email_id,
  eq_iff r.decision_id decision_id,
  f.0,
  f.1,
  f.2,
  All-map (Stored []) (Stored (r ∷ [])) qs (λ q. not-Stored-nil q r) none_stored,
)

abbrev Inserted : SupplierEmailRevision → SupplierEmailDelivery → MailRows → MailRows → Type 0
Inserted r d s t = t ≡ with_first r d s

insert_initial-Inserted :
    (plan : PlanRows) (r : SupplierEmailRevision) (d : SupplierEmailDelivery) (s : MailRows)
    → Ensures (Inserted r d s) (insert_initial plan r d s)
unfolding insert_initial
insert_initial-Inserted plan r d s =
    let P = Inserted r d s in
    Ensures-guard P (r.revision == 1 && is_none r.reviewed_by) value_error
      (guard (starts d r) integrity_error >> insert_rows plan r d s)
      (λ _. Ensures-guard P (starts d r) integrity_error (insert_rows plan r d s) (λ _.
        Ensures-bind P (get_current s)
          (λ current.
            guard (is_none current) immutable_conflict
            >> (require_action_binding plan r >> ok (with_first r d s)))
          (λ current _.
            Ensures-guard P (is_none current) immutable_conflict
              (require_action_binding plan r >> ok (with_first r d s))
              (λ _. Ensures-then P (require_action_binding plan r) (ok (with_first r d s)) refl))))

abbrev unopened_rows : MailRows
unopened_rows = record { delivery = none; revisions = [] }

-- A first call leaves a draft.
open_email-first :
    (settings : Settings) (qs : List SupplierEmailRevision) (c : Call) (decision_id : String)
    → All (Stored []) qs
    → Ensures (Answers qs 0) (opened settings c decision_id unopened_rows none)
open_email-first settings qs c decision_id none_stored =
    let P = Answers qs 0 in
    Ensures-bind P (first_revision settings c decision_id) _ (λ r e.
      let d = first_delivery r decision_id c.now in
      Ensures-bind P (insert_initial c.plan r d unopened_rows) _ (λ s f.
        let rows =
          Ensures-ok (Inserted r d unopened_rows) (insert_initial c.plan r d unopened_rows) s
            (insert_initial-Inserted c.plan r d unopened_rows) f in
        let first =
          Ensures-ok (First decision_id) (first_revision settings c decision_id) r
            (first_revision-First settings c decision_id) e in
        subst (λ q. Kept qs q.delivery q.revisions 0) (sym rows)
          (First-Sound qs decision_id r c.now none_stored first)))

module _ (settings : Settings) (qs : List SupplierEmailRevision) (c : Call)
    (decision_id : String) where
  -- `get` keeps the rows, whether it finds an email or not.
  pub open_email-Kept :
      (d : Option SupplierEmailDelivery) (rs : List SupplierEmailRevision) (held : ℕ)
      → Kept qs d rs held
      → Ensures
          (Answers qs held)
          (open_email settings c decision_id (record { delivery = d; revisions = rs }))
  unfolding open_email
  open_email-Kept none [] held k =
      subst (λ n. Ensures (Answers qs n) (opened settings c decision_id unopened_rows none))
        (sym k.0) (open_email-first settings qs c decision_id k.1)
  open_email-Kept none (r ∷ rs) held k = absurd k
  open_email-Kept (some d) [] held k = absurd k
  open_email-Kept (some d) (r ∷ rs) held k = rw (get_current-Sound qs d r rs held k) k
