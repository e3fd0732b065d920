-- ===== src/Execution/Mail/Once.antt =====
-- However calls on a supplier email overlap, the provider holds one message of it at most.
use supply_response.Base.{
  ℕ, suc, ◌+◌, ◌≤◌, ◌≡◌, refl, sym, subst, String, Bool, true, false, Option, none, some, is_some,
  List, [], ◌∷◌, map, All, get_elem?, All-get_elem?, get_elem?-map, ◌==◌, arith, Bool-cases, inl,
  inr,
}
use supply_response.Base.Result.{ok, Ensures-guard, Ensures-ok}
use supply_response.Domain.Finance.{IdentitySnapshot}
use supply_response.Domain.OutboundMail.{
  SupplierEmailSendStatus, draft, submitting, accepted, sent_confirmed, failed, uncertain,
  SupplierEmailRevision, SupplierEmailDelivery, integrity_error,
}
use supply_response.Execution.Mail.Rows.{MailRows}
use supply_response.Execution.Mail.Updates.{claim_send, is_claim, may_claim}
use supply_response.Execution.Mail.Guards.{Settings, Call, Answer}
use supply_response.Execution.Mail.Editing.{open_email, save}
use supply_response.Execution.Mail.Reviewing.{review}
use supply_response.Execution.Mail.Sending.{
  prepare_send, to_claim, Submission, taken, unsure, refused, finish_send, ProviderMessage,
  check_send_status,
}
use supply_response.Execution.Mail.Delivery.{
  World, Handed, Step, opening, saving, reviewing, preparing, claiming, answering, checking,
  Reachable, unopened, after, Kept, Stored, allowance, weight, not_refused, awaits, report,
  is_pending,
}
use supply_response.Execution.Mail.Keeps.{rows_of, KeptBy, claim_send-open}
use supply_response.Execution.Mail.Opening.{open_email-Kept}
use supply_response.Execution.Mail.Calls.{Answers, Prepares}
use supply_response.Execution.Mail.Every.{
  save-Rows, review-Rows, check-Rows, finish-Rows, claim-Rows, prepare-Rows, Kept-Stored,
}

allowance-le-one : (status : SupplierEmailSendStatus) → allowance status ≤ 1
allowance-le-one draft = omega arith
allowance-le-one submitting = omega arith
allowance-le-one accepted = omega arith
allowance-le-one sent_confirmed = omega arith
allowance-le-one failed = omega arith
allowance-le-one uncertain = omega arith

weight-le-one : (a : Submission) → weight (some a) ≤ 1
weight-le-one taken = omega arith
weight-le-one (unsure x) = omega arith
weight-le-one (refused x) = omega arith

pending-weight :
    (i : String) (a : Submission) (h : Handed) (n : ℕ)
    → is_pending i h ≡ true
    → weight (some a) + n + 1 ≡ weight h.answer + n + weight (some a)
pending-weight i a h n p = ground arith

-- An answer counts for the message that awaited it.
not_refused-report :
    (i : String) (a : Submission) (hs : List Handed)
    → awaits i hs ≡ true
    → not_refused (report i a hs) + 1 ≡ not_refused hs + weight (some a)
unfolding not_refused awaits report
not_refused-report i a [] e = cc
not_refused-report i a (h ∷ hs) e = elim (Bool-cases (is_pending i h)) [
  | inl p ↦ rw p (pending-weight i a h (not_refused hs) p)
  | inr n ↦ rw n (ground (arith, not_refused-report i a hs))
]

-- The contents that wait to be sent.
abbrev contents : World → List SupplierEmailRevision
contents w = map (λ p. p.0) w.waiting

abbrev pub KeptWorld : World → Type 0
KeptWorld w = Kept (contents w) w.rows.delivery w.rows.revisions (not_refused w.handed)

abbrev pub newest_of : List SupplierEmailRevision → Option SupplierEmailRevision
newest_of [] = none
newest_of (r ∷ rs) = some r

abbrev pub allowance_of : Option SupplierEmailDelivery → ℕ
allowance_of none = 0
allowance_of (some d) = allowance d.send_status

Kept-allowance :
    (qs : List SupplierEmailRevision) (d : Option SupplierEmailDelivery)
    (rs : List SupplierEmailRevision) (held : ℕ)
    → Kept qs d rs held
    → (held ≤ allowance_of d) × (held ≤ 1)
Kept-allowance qs none [] held k = omega (arith, k.0)
Kept-allowance qs none (r ∷ rs) held k = absurd k
Kept-allowance qs (some d) [] held k = absurd k
Kept-allowance qs (some d) (r ∷ rs) held k = omega (arith, allowance-le-one d.send_status, k.once)

module _ (settings : Settings) (decision_id : String) where
  Step-KeptWorld : {w w' : World} → Step settings decision_id w w' → KeptWorld w → KeptWorld w'
  unfolding not_refused
  Step-KeptWorld {w} (opening c a h e) k = subst KeptWorld (sym e) (
      Ensures-ok (Answers (contents w) (not_refused w.handed))
        (open_email settings c decision_id w.rows) a
        (open_email-Kept settings (contents w) c decision_id w.rows.delivery w.rows.revisions
          (not_refused w.handed) k)
        h)
  Step-KeptWorld {w} (saving c n s b actor a h e) k = subst KeptWorld (sym e) (
      Ensures-ok (Answers (contents w) (not_refused w.handed))
        (save settings c decision_id n s b actor w.rows) a
        (save-Rows settings (contents w) c decision_id n s b actor w.rows.delivery w.rows.revisions
          (not_refused w.handed) k)
        h)
  Step-KeptWorld {w} (reviewing c n actor a h e) k = subst KeptWorld (sym e) (
      Ensures-ok (Answers (contents w) (not_refused w.handed))
        (review settings c decision_id n actor w.rows) a
        (review-Rows settings (contents w) c decision_id n actor w.rows.delivery w.rows.revisions
          (not_refused w.handed) k)
        h)
  Step-KeptWorld {w} (preparing c n actor q claim h e) k = subst KeptWorld (sym e) (
      Kept-Stored (contents w) q w.rows.delivery w.rows.revisions (not_refused w.handed)
        (Ensures-ok (Prepares w.rows.revisions) (prepare_send settings c decision_id n actor w.rows)
          (to_claim q claim)
          (prepare-Rows settings (contents w) c decision_id n actor w.rows.delivery w.rows.revisions
            (not_refused w.handed) k)
          h)
        k)
  Step-KeptWorld {w} (claiming contended i content claim rows h g e) k = subst KeptWorld (sym e) (
      subst (λ n. Kept (contents w) rows.delivery rows.revisions n) (omega arith)
        (Ensures-ok (λ p. p.0 ≡ true → KeptBy (contents w) (suc (not_refused w.handed)) p)
          (claim_send contended claim content.revision w.rows) (true, rows)
          (claim-Rows (contents w) contended claim content.revision w.rows.delivery w.rows.revisions
            (not_refused w.handed) k)
          g refl))
  Step-KeptWorld {w} (answering c i s a h g e) k =
      let held' = not_refused (report i s w.handed) in
      let counted = not_refused-report i s w.handed h in
      let bound =
        Kept-allowance (contents w) w.rows.delivery w.rows.revisions (not_refused w.handed) k in
      let light = weight-le-one s in
      subst KeptWorld (sym e) (
        Ensures-ok (Answers (contents w) held') (finish_send c i s w.rows) a
          (finish-Rows settings (contents w) c decision_id i s w.rows.delivery w.rows.revisions
            (not_refused w.handed) held' (omega arith) (omega arith) k)
          g)
  Step-KeptWorld {w} (checking c p actor a h e) k = absurd (
      Ensures-ok (λ _. ⊥) (check_send_status settings c p decision_id actor w.rows) a
        (check-Rows settings (contents w) c decision_id p actor w.rows.delivery w.rows.revisions
          (not_refused w.handed) k)
        h)

  pub Reachable-KeptWorld : {w : World} → Reachable settings decision_id w → KeptWorld w
  unfolding not_refused
  Reachable-KeptWorld unopened = (refl, tt)
  Reachable-KeptWorld (after r s) = Step-KeptWorld s (Reachable-KeptWorld r)

-- Whatever calls on a supplier email are made, and however they overlap, the messages that were
-- handed to the provider and that it has not refused are one at most; and none, before the email is
-- opened and while its delivery is a draft or has failed.
pub Reachable-once :
    (settings : Settings) (decision_id : String) (w : World)
    → Reachable settings decision_id w
    → (not_refused w.handed ≤ allowance_of w.rows.delivery) × (not_refused w.handed ≤ 1)
Reachable-once settings decision_id w r =
    Kept-allowance (contents w) w.rows.delivery w.rows.revisions (not_refused w.handed)
      (Reachable-KeptWorld settings decision_id r)

-- Whatever has been called before, `check_send_status` raises: no delivery is ever confirmed.
pub check_send_status-unavailable :
    (settings : Settings) (decision_id : String) (w : World)
    → Reachable settings decision_id w
    → (c : Call) (provider : String → Option ProviderMessage) (actor : IdentitySnapshot)
    → ¬ ((a : Answer) × (check_send_status settings c provider decision_id actor w.rows ≡ ok a))
check_send_status-unavailable settings decision_id w r c provider actor (a, e) =
    Ensures-ok (λ _. ⊥) (check_send_status settings c provider decision_id actor w.rows) a
      (check-Rows settings (contents w) c decision_id provider actor w.rows.delivery
        w.rows.revisions (not_refused w.handed) (Reachable-KeptWorld settings decision_id r))
      e

Kept-All :
    (qs : List SupplierEmailRevision) (d : Option SupplierEmailDelivery)
    (rs : List SupplierEmailRevision) (held : ℕ)
    → Kept qs d rs held
    → All (Stored rs) qs
Kept-All qs none [] held k = k.1
Kept-All qs none (r ∷ rs) held k = absurd k
Kept-All qs (some d) [] held k = absurd k
Kept-All qs (some d) (r ∷ rs) held k = k.stored

claimed_content :
    (qs : List SupplierEmailRevision) (contended : Bool) (q : SupplierEmailRevision)
    (claim : SupplierEmailDelivery) (d : Option SupplierEmailDelivery)
    (rs : List SupplierEmailRevision) (held : ℕ) (rows : MailRows)
    → Kept qs d rs held
    → Stored rs q
    → claim_send contended claim q.revision (record { delivery = d; revisions = rs })
      ≡ ok (true, rows)
    → (newest_of rs ≡ some q) × (is_some q.reviewed_by ≡ true)
unfolding claim_send may_claim
claimed_content qs contended q claim none rs held rows k s e = absurd (
    Ensures-ok (λ p. p.0 ≡ true → ⊥)
      (claim_send contended claim q.revision (record { delivery = none; revisions = rs }))
      (true, rows)
      (Ensures-guard (λ p. p.0 ≡ true → ⊥) (is_claim claim q.revision) integrity_error
        (ok (false, record { delivery = none; revisions = rs })) (λ _ x. cc))
      e refl)
claimed_content qs contended q claim (some d) [] held rows k s e = absurd k
claimed_content qs contended q claim (some d) (r ∷ rs) held rows k s e =
    let open_row =
      Ensures-ok (λ p. p.0 ≡ true → may_claim claim q.revision d ≡ true)
        (claim_send contended claim q.revision (rows_of d r rs)) (true, rows)
        (claim_send-open d r rs contended claim q.revision) e refl in
    let same : (r.revision == q.revision) ≡ true = ground (arith, k.newest) in (rw same at s.0, s.1)

-- Whatever has been called before: when a prepared `send` claims the delivery, what it hands to the
-- provider is the newest revision of the email as it is stored, and that is reviewed.
pub claim_send-content :
    (settings : Settings) (decision_id : String) (w : World)
    → Reachable settings decision_id w
    → (i : ℕ) (content : SupplierEmailRevision) (claim : SupplierEmailDelivery) (contended : Bool)
      (rows : MailRows)
    → get_elem? w.waiting i ≡ some (content, claim)
    → claim_send contended claim content.revision w.rows ≡ ok (true, rows)
    → (newest_of w.rows.revisions ≡ some content) × (is_some content.reviewed_by ≡ true)
claim_send-content settings decision_id w r i content claim contended rows at e =
    let k = Reachable-KeptWorld settings decision_id r in
    claimed_content (contents w) contended content claim w.rows.delivery w.rows.revisions
      (not_refused w.handed) rows k
      (All-get_elem? (Stored w.rows.revisions) (contents w) i content
        (get_elem?-map (λ p. p.0) w.waiting i (content, claim) at)
        (Kept-All (contents w) w.rows.delivery w.rows.revisions (not_refused w.handed) k))
      e
