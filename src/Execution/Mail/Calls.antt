-- ===== src/Execution/Mail/Calls.antt =====
-- What each call on a supplier email keeps of its rows.
use supply_response.Base.{
  ℕ, ◌≤◌, ◌≡◌, refl, ◌∙◌, ap, sym, subst, String, true, not, ◌&&◌, Option, none, some, is_some,
  is_none, List, [], ◌∷◌, ◌==◌, arith, ==_iff,
}
use supply_response.Base.Result.{
  ok, Ensures, Ensures-bind, Ensures-guard, Ensures-then, Ensures-ok, if_split,
}
use supply_response.Domain.Finance.{IdentitySnapshot}
use supply_response.Domain.OutboundMail.{
  SupplierEmailSendStatus, draft, submitting, accepted, failed, uncertain, SupplierEmailRevision,
  SupplierEmailDelivery, MailError, validate_revision, is_valid_revision, lowered, validation_error,
  revision_conflict, is_revision, send_disabled, from_records, state_error,
}
use supply_response.Execution.Mail.Rows.{Current, send_status_eq, append_revision}
use supply_response.Execution.Mail.Updates.{
  same_identity, mark_reviewed, update_delivery_state, is_text, status_in,
}
use supply_response.Execution.Mail.Guards.{Settings, Call, Answer, require_actor, require_draft}
use supply_response.Execution.Mail.Editing.{save, edit_of}
use supply_response.Execution.Mail.Reviewing.{
  review, review_current, first_review, reviewed_again, with_review, with_reviewed_revision,
}
use supply_response.Execution.Mail.Sending.{
  Submission, taken, unsure, refused, finish_send, transition, move_row, check_delivery,
  check_enabled, Prepared, settled, to_claim, prepare_send, prepare_read, prepared, claim_of,
  ProviderMessage, check_send_status, moved_to, send_records,
}
use supply_response.Execution.Mail.Delivery.{Kept, Sound, Stored, allowance, weight, is_unconfirmed}
use supply_response.Execution.Mail.Keeps.{
  rows_of, get_current-Sound, KeptBy, append_revision-Kept, mark_reviewed-Kept,
  update_delivery_state-Kept,
}

-- The rows of an answer.
abbrev pub Answers : List SupplierEmailRevision → ℕ → Answer → Type 0
Answers qs held a = Kept qs a.1.delivery a.1.revisions held

-- The validation of a revision changes its addresses only.
abbrev pub SameReview : SupplierEmailRevision → SupplierEmailRevision → Type 0
SameReview r q =
    (q.revision ≡ r.revision)
    × (q.reviewed_by ≡ r.reviewed_by)
    × (q.reviewed_at ≡ r.reviewed_at)
    × (q.decision_id ≡ r.decision_id)

pub validate_revision-SameReview :
    (lower : String → String) (r : SupplierEmailRevision)
    → Ensures (SameReview r) (validate_revision lower r)
unfolding validate_revision
validate_revision-SameReview lower r =
    Ensures-guard (SameReview r) (is_valid_revision r) validation_error (ok (lowered lower r))
      (λ _. (refl, refl, refl, refl))

validated-unreviewed :
    (lower : String → String) (r q : SupplierEmailRevision)
    → validate_revision lower r ≡ ok q
    → is_none r.reviewed_by ≡ is_none r.reviewed_at
    → is_none q.reviewed_by ≡ is_none q.reviewed_at
validated-unreviewed lower r q e u =
    let same =
      Ensures-ok (SameReview r) (validate_revision lower r) q (validate_revision-SameReview lower r)
        e in
    ap is_none same.1 ∙ u ∙ sym (ap is_none same.2)

module _ (settings : Settings) (qs : List SupplierEmailRevision) (d : SupplierEmailDelivery)
    (r : SupplierEmailRevision) (rs : List SupplierEmailRevision) (held : ℕ)
    (k : Sound qs d r rs held) where
  pub save-Kept :
      (c : Call) (decision_id : String) (revision : ℕ) (subject body : String)
      (actor : IdentitySnapshot)
      → Ensures
          (Answers qs held)
          (save settings c decision_id revision subject body actor (rows_of d r rs))
  unfolding save
  save-Kept c decision_id revision subject body actor =
      Ensures-then (Answers qs held) (require_actor settings actor) _ (
        Ensures-bind (Answers qs held) (require_draft c decision_id) _ (λ _ _.
          rw (get_current-Sound qs d r rs held k) (
            Ensures-bind (Answers qs held)
              (validate_revision settings.lower (edit_of settings c revision subject body actor r))
              _
              (λ q e.
                Ensures-bind (Answers qs held)
                  (append_revision c.plan c.contended q revision (rows_of d r rs)) _
                  (λ w f. Ensures-guard (Answers qs held) w.0 _ _ (λ _.
                    Ensures-ok (KeptBy qs held) _ w
                      (append_revision-Kept qs d r rs held k c.plan c.contended q revision (
                        validated-unreviewed settings.lower
                          (edit_of settings c revision subject body actor r) q e refl))
                      f))))))

  pub review-Kept :
      (c : Call) (decision_id : String) (revision : ℕ) (actor : IdentitySnapshot)
      → Ensures (Answers qs held) (review settings c decision_id revision actor (rows_of d r rs))
  unfolding review review_current
  review-Kept c decision_id revision actor =
      Ensures-then (Answers qs held) (require_actor settings actor) _ (
        Ensures-bind (Answers qs held) (require_draft c decision_id) _ (λ _ _.
          rw (get_current-Sound qs d r rs held k) (
            Ensures-guard (Answers qs held) (r.revision == revision) _ _ (λ at.
              let P = Ensures {E = MailError} (Answers qs held) in
              let current : Current = (r, d) in
              if_split P (is_some r.reviewed_by)
                (reviewed_again revision actor current (rows_of d r rs))
                (first_review c revision actor current (rows_of d r rs))
                (λ _.
                  Ensures-guard (Answers qs held)
                    (same_identity r.reviewed_by (some actor)
                      && is_revision d.reviewed_revision revision)
                    state_error (ok (from_records r d, rows_of d r rs)) (λ _. k))
                (λ open_row.
                  Ensures-bind (Answers qs held)
                    (mark_reviewed c.contended (with_review r actor c.now)
                      (with_reviewed_revision d revision c.now) revision (rows_of d r rs))
                    _
                    (λ w e. Ensures-guard (Answers qs held) w.0 _ _ (λ _.
                      Ensures-ok (KeptBy qs held) _ w
                        (mark_reviewed-Kept qs d r rs held k c.contended actor c.now revision
                          ((==_iff r.revision revision).0 at) open_row)
                        e)))))))

  transition-Kept :
      (c : Call) (correlation_id : String) (expected : List SupplierEmailSendStatus)
      (status : SupplierEmailSendStatus) (code : Option String) (held' : ℕ)
      → Sound qs d r rs held'
      → held' ≤ allowance status
      → is_unconfirmed status ≡ true
      → Ensures
          (Answers qs held')
          (transition c correlation_id expected status code (rows_of d r rs))
  unfolding transition
  transition-Kept c correlation_id expected status code held' s h u =
      rw (get_current-Sound qs d r rs held k) (
        if_split (Ensures {E = MailError} (Answers qs held'))
          (not (is_text d.correlation_id correlation_id)) (ok (from_records r d, rows_of d r rs))
          (move_row c correlation_id expected status code (rows_of d r rs) (r, d)) (λ _. s)
          (λ _.
            Ensures-bind (Answers qs held')
              (update_delivery_state c.contended (moved_to status code c.now d) correlation_id
                expected (rows_of d r rs))
              _
              (λ w e.
                Ensures-ok (KeptBy qs held') _ w
                  (update_delivery_state-Kept qs d r rs held k c.contended status code c.now
                    correlation_id expected held' s h u)
                  e)))

  check_delivery-refuses :
      (c : Call) (provider : String → Option ProviderMessage)
      → Ensures (λ _. ⊥) (check_delivery c provider (r, d) (rows_of d r rs))
  unfolding status_in send_status_eq
  check_delivery-refuses c provider = rw k.no_provider (ground (arith, k.unconfirmed))

  check_enabled-refuses :
      (c : Call) (provider : String → Option ProviderMessage) (decision_id : String)
      (actor : IdentitySnapshot)
      → Ensures (λ _. ⊥) (check_enabled settings c provider decision_id actor (rows_of d r rs))
  check_enabled-refuses c provider decision_id actor =
      let P : Answer → Type 0 = λ _. ⊥ in
      let s = rows_of d r rs in
      rw (get_current-Sound qs d r rs held k) (
        Ensures-bind P (send_records settings c decision_id r.revision actor s)
          (λ _. check_delivery c provider (r, d) s) (λ _ _. check_delivery-refuses c provider))

  pub check_send_status-refuses :
      (c : Call) (provider : String → Option ProviderMessage) (decision_id : String)
      (actor : IdentitySnapshot)
      → Ensures (λ _. ⊥) (check_send_status settings c provider decision_id actor (rows_of d r rs))
  unfolding check_send_status
  check_send_status-refuses c provider decision_id actor =
      Ensures-guard (λ _. ⊥) (settings.mail_send_enabled && settings.has_graph_mail) send_disabled
        (check_enabled settings c provider decision_id actor (rows_of d r rs))
        (λ _. check_enabled-refuses c provider decision_id actor)

  -- The provider's answer: a refusal sets the delivery free, any other keeps it taken.
  pub finish_send-Kept :
      (c : Call) (correlation_id : String) (a : Submission) (held' : ℕ)
      → Sound qs d r rs held'
      → held' ≤ weight (some a)
      → Ensures (Answers qs held') (finish_send c correlation_id a (rows_of d r rs))
  unfolding finish_send
  finish_send-Kept c i taken held' s h =
      transition-Kept c i (submitting ∷ []) accepted none held' s h refl
  finish_send-Kept c i (unsure x) held' s h =
      transition-Kept c i (submitting ∷ []) uncertain (some x) held' s h refl
  finish_send-Kept c i (refused x) held' s h =
      transition-Kept c i (submitting ∷ []) failed (some x) held' s h refl

-- What a call to `send` has read: the current rows, of which the revision is reviewed.
abbrev Read : SupplierEmailDelivery → SupplierEmailRevision → Current → Type 0
Read d r current = (current ≡ (r, d)) × (is_some r.reviewed_by ≡ true)

-- What it prepares is stored, and reviewed.
abbrev pub Prepares : List SupplierEmailRevision → Prepared → Type 0
Prepares rs (settled current) = Unit
Prepares rs (to_claim content claim) = Stored rs content

module _ (settings : Settings) (qs : List SupplierEmailRevision) (d : SupplierEmailDelivery)
    (r : SupplierEmailRevision) (rs : List SupplierEmailRevision) (held : ℕ)
    (k : Sound qs d r rs held) (c : Call) (decision_id : String) (revision : ℕ)
    (actor : IdentitySnapshot) where
  send_records-Read :
      Ensures (Read d r) (send_records settings c decision_id revision actor (rows_of d r rs))
  unfolding send_records
  send_records-Read =
      let P = Read d r in
      Ensures-then P (require_actor settings actor) _ (
        Ensures-bind P (require_draft c decision_id) _ (λ _ _.
          rw (get_current-Sound qs d r rs held k) (
            Ensures-guard P (r.revision == revision) revision_conflict _ (λ _.
              Ensures-guard P
                (is_some r.reviewed_by
                  && is_some r.reviewed_at
                  && is_revision d.reviewed_revision revision)
                state_error (ok (r, d)) (λ h. (refl, ground arith))))))

  pub prepare_send-Prepares :
      Ensures
        (Prepares (r ∷ rs))
        (prepare_send settings c decision_id revision actor (rows_of d r rs))
  unfolding prepare_send
  prepare_send-Prepares =
      let P = Prepares (r ∷ rs) in
      let s = rows_of d r rs in
      Ensures-guard P (settings.mail_send_enabled && settings.has_graph_mail) send_disabled
        (prepare_read settings c decision_id revision actor s)
        (λ _.
          Ensures-bind P (send_records settings c decision_id revision actor s)
            (λ current. ok (prepared c current))
            (λ current e.
              let known =
                Ensures-ok (Read d r) (send_records settings c decision_id revision actor s) current
                  send_records-Read e in
              subst (λ x. P (prepared c x)) (sym known.0)
                (if_split P (status_in d.send_status (draft ∷ failed ∷ []))
                  (to_claim r (claim_of c d)) (settled (r, d)) (λ _. (ground arith, known.1))
                  (λ _. tt))))
