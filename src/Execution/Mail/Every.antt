-- ===== src/Execution/Mail/Every.antt =====
-- What every call keeps of the rows, whether the email has been opened or not.
use supply_response.Base.{
  ℕ, suc, ◌≤◌, ◌≡◌, String, Bool, true, false, ◌&&◌, Option, none, some, List, [], ◌∷◌, arith,
}
use supply_response.Base.Result.{
  ok, err, Ensures, Ensures-bind, Ensures-guard, Ensures-then, Ensures-ok,
}
use supply_response.Domain.Finance.{IdentitySnapshot}
use supply_response.Domain.OutboundMail.{
  SupplierEmailRevision, SupplierEmailDelivery, integrity_error, send_disabled, state_error,
}
use supply_response.Execution.Mail.Rows.{get_current}
use supply_response.Execution.Mail.Updates.{claim_send, is_claim}
use supply_response.Execution.Mail.Guards.{Settings, Call, require_actor, require_draft}
use supply_response.Execution.Mail.Editing.{save}
use supply_response.Execution.Mail.Reviewing.{review}
use supply_response.Execution.Mail.Sending.{
  prepare_send, prepare_read, prepared, send_records, Submission, taken, unsure, refused,
  finish_send, transition, ProviderMessage, check_send_status,
}
use supply_response.Execution.Mail.Delivery.{Kept, Stored, weight}
use supply_response.Execution.Mail.Keeps.{KeptBy, claim_send-Kept}
use supply_response.Execution.Mail.Calls.{
  Answers, Prepares, prepare_send-Prepares, save-Kept, review-Kept, finish_send-Kept,
  check_send_status-refuses,
}

Kept-le :
    (qs : List SupplierEmailRevision) (d : Option SupplierEmailDelivery)
    (rs : List SupplierEmailRevision) (held held' : ℕ)
    → held' ≤ held
    → Kept qs d rs held
    → Kept qs d rs held'
Kept-le qs none [] held held' h k = (omega (arith, k.0), k.1)
Kept-le qs none (r ∷ rs) held held' h k = absurd k
Kept-le qs (some d) [] held held' h k = absurd k
Kept-le qs (some d) (r ∷ rs) held held' h k = ground (
  arith, k.once, k.email, k.decision, k.numbered, k.no_provider, k.newest, k.unreviewed,
  k.unconfirmed, k.stored,
)

module _ (settings : Settings) (qs : List SupplierEmailRevision) (c : Call)
    (decision_id : String) where
  pub save-Rows :
      (revision : ℕ) (subject body : String) (actor : IdentitySnapshot)
      (d : Option SupplierEmailDelivery) (rs : List SupplierEmailRevision) (held : ℕ)
      → Kept qs d rs held
      → Ensures (Answers qs held) (
          save settings c decision_id revision subject body actor
            (record { delivery = d; revisions = rs }))
  unfolding save get_current
  save-Rows revision subject body actor none rs held k =
      Ensures-then (Answers qs held) (require_actor settings actor) _
        (Ensures-bind (Answers qs held) (require_draft c decision_id) _ (λ _ _. tt))
  save-Rows revision subject body actor (some d) [] held k = absurd k
  save-Rows revision subject body actor (some d) (r ∷ rs) held k =
      save-Kept settings qs d r rs held k c decision_id revision subject body actor

  pub review-Rows :
      (revision : ℕ) (actor : IdentitySnapshot) (d : Option SupplierEmailDelivery)
      (rs : List SupplierEmailRevision) (held : ℕ)
      → Kept qs d rs held
      → Ensures
          (Answers qs held)
          (review settings c decision_id revision actor (record { delivery = d; revisions = rs }))
  unfolding review get_current
  review-Rows revision actor none rs held k =
      Ensures-then (Answers qs held) (require_actor settings actor) _
        (Ensures-bind (Answers qs held) (require_draft c decision_id) _ (λ _ _. tt))
  review-Rows revision actor (some d) [] held k = absurd k
  review-Rows revision actor (some d) (r ∷ rs) held k =
      review-Kept settings qs d r rs held k c decision_id revision actor

  pub check-Rows :
      (provider : String → Option ProviderMessage) (actor : IdentitySnapshot)
      (d : Option SupplierEmailDelivery) (rs : List SupplierEmailRevision) (held : ℕ)
      → Kept qs d rs held
      → Ensures
          (λ _. ⊥)
          (check_send_status settings c provider decision_id actor
            (record { delivery = d; revisions = rs }))
  unfolding check_send_status get_current
  check-Rows provider actor none rs held k =
      Ensures-guard (λ _. ⊥) (settings.mail_send_enabled && settings.has_graph_mail) send_disabled
        (err state_error) (λ _. tt)
  check-Rows provider actor (some d) [] held k = absurd k
  check-Rows provider actor (some d) (r ∷ rs) held k =
      check_send_status-refuses settings qs d r rs held k c provider decision_id actor

  pub finish-Rows :
      (i : String) (a : Submission) (d : Option SupplierEmailDelivery)
      (rs : List SupplierEmailRevision) (held held' : ℕ)
      → held' ≤ held
      → held' ≤ weight (some a)
      → Kept qs d rs held
      → Ensures (Answers qs held') (finish_send c i a (record { delivery = d; revisions = rs }))
  unfolding finish_send transition get_current
  finish-Rows i taken none rs held held' h g k = tt
  finish-Rows i (unsure x) none rs held held' h g k = tt
  finish-Rows i (refused x) none rs held held' h g k = tt
  finish-Rows i a (some d) [] held held' h g k = absurd k
  finish-Rows i a (some d) (r ∷ rs) held held' h g k =
      finish_send-Kept settings qs d r rs held k c i a held'
        (Kept-le qs (some d) (r ∷ rs) held held' h k) g

pub claim-Rows :
    (qs : List SupplierEmailRevision) (contended : Bool) (e : SupplierEmailDelivery) (n : ℕ)
    (d : Option SupplierEmailDelivery) (rs : List SupplierEmailRevision) (held : ℕ)
    → Kept qs d rs held
    → Ensures
        (λ p. p.0 ≡ true → KeptBy qs (suc held) p)
        (claim_send contended e n (record { delivery = d; revisions = rs }))
unfolding claim_send
claim-Rows qs contended e n none rs held k =
    Ensures-guard (λ p. p.0 ≡ true → KeptBy qs (suc held) p) (is_claim e n) integrity_error
      (ok (false, record { delivery = none; revisions = rs })) (λ _ x. cc)
claim-Rows qs contended e n (some d) [] held k = absurd k
claim-Rows qs contended e n (some d) (r ∷ rs) held k =
    claim_send-Kept qs d r rs held k contended e n

-- A content that is prepared is stored.
pub prepare-Rows :
    (settings : Settings) (qs : List SupplierEmailRevision) (c : Call) (decision_id : String)
    (revision : ℕ) (actor : IdentitySnapshot) (d : Option SupplierEmailDelivery)
    (rs : List SupplierEmailRevision) (held : ℕ)
    → Kept qs d rs held
    → Ensures (Prepares rs) (
        prepare_send settings c decision_id revision actor
          (record { delivery = d; revisions = rs }))
unfolding prepare_send send_records get_current
prepare-Rows settings qs c decision_id revision actor none rs held k =
    let P = Prepares rs in
    Ensures-guard P (settings.mail_send_enabled && settings.has_graph_mail) send_disabled
      (prepare_read settings c decision_id revision actor
        (record { delivery = none; revisions = rs }))
      (λ _.
        Ensures-bind P
          (send_records settings c decision_id revision actor
            (record { delivery = none; revisions = rs }))
          (λ current. ok (prepared c current))
          (λ current e. absurd (
            Ensures-ok (λ _. ⊥)
              (send_records settings c decision_id revision actor
                (record { delivery = none; revisions = rs }))
              current
              (Ensures-then (λ _. ⊥) (require_actor settings actor) _
                (Ensures-bind (λ _. ⊥) (require_draft c decision_id) _ (λ _ _. tt)))
              e)))
prepare-Rows settings qs c decision_id revision actor (some d) [] held k = absurd k
prepare-Rows settings qs c decision_id revision actor (some d) (r ∷ rs) held k =
    prepare_send-Prepares settings qs d r rs held k c decision_id revision actor

pub Kept-Stored :
    (qs : List SupplierEmailRevision) (q : SupplierEmailRevision) (d : Option SupplierEmailDelivery)
    (rs : List SupplierEmailRevision) (held : ℕ)
    → Stored rs q
    → Kept qs d rs held
    → Kept (q ∷ qs) d rs held
Kept-Stored qs q none [] held s k = (k.0, (s, k.1))
Kept-Stored qs q none (r ∷ rs) held s k = absurd k
Kept-Stored qs q (some d) [] held s k = absurd k
Kept-Stored qs q (some d) (r ∷ rs) held s k = ground (
  arith, k.once, k.email, k.decision, k.numbered, k.no_provider, k.newest, k.unreviewed,
  k.unconfirmed, k.stored, s.0, s.1,
)
