-- ===== src/Execution/Mail/Delivery.antt =====
-- The supplier email of one decision under calls that overlap: a `send` reads its rows, claims the
-- delivery in a later step, when other calls may have changed it, and records the provider's answer
-- in another. Every other call is one step.
use supply_response.Base.{
  ℕ, suc, ◌+◌, ◌≤◌, ◌≡◌, String, Bool, true, false, ◌&&◌, Option, none, some, is_some, is_none,
  List, [], ◌∷◌, ◌==◌, str_eq, if◌then◌else◌, All, get_elem?, length, find,
}
use supply_response.Base.Result.{ok}
use supply_response.Domain.Finance.{IdentitySnapshot}
use supply_response.Domain.OutboundMail.{
  SupplierEmailSendStatus, draft, sent_confirmed, failed, SupplierEmailRevision,
  SupplierEmailDelivery,
}
use supply_response.Execution.Mail.Rows.{MailRows}
use supply_response.Execution.Mail.Updates.{claim_send, is_text}
use supply_response.Execution.Mail.Guards.{Settings, Call, Answer}
use supply_response.Execution.Mail.Editing.{open_email, save}
use supply_response.Execution.Mail.Reviewing.{review}
use supply_response.Execution.Mail.Sending.{
  Submission, refused, to_claim, prepare_send, finish_send, ProviderMessage, check_send_status,
}

-- A message that was handed to the provider, and its answer, once there is one.
pub record Handed : Type 0 where
  pub content : SupplierEmailRevision
  pub correlation_id : Option String
  pub answer : Option Submission

pub record World : Type 0 where
  pub rows : MailRows
  pub waiting : List (SupplierEmailRevision × SupplierEmailDelivery)
  pub handed : List Handed

abbrev pub is_pending : String → Handed → Bool
is_pending correlation_id h = is_text h.correlation_id correlation_id && is_none h.answer

-- Whether an answer to the message is awaited.
unfoldable pub awaits : String → List Handed → Bool
awaits correlation_id [] = false
awaits correlation_id (h ∷ hs) =
    if is_pending correlation_id h then true else awaits correlation_id hs

-- The answer to the message that awaits it.
unfoldable pub report : String → Submission → List Handed → List Handed
report correlation_id a [] = []
report correlation_id a (h ∷ hs) =
    if is_pending correlation_id h
    then record h { answer = some a } ∷ hs
    else h ∷ report correlation_id a hs

-- The messages that the provider has not refused, as a number.
abbrev pub weight : Option Submission → ℕ
weight (some (refused code)) = 0
weight _ = 1

unfoldable pub not_refused : List Handed → ℕ
not_refused [] = 0
not_refused (h ∷ hs) = weight h.answer + not_refused hs

module _ (settings : Settings) (decision_id : String) where
  pub data Step (w w' : World) : Type 0 where
    opening :
        (c : Call) (a : Answer)
        → open_email settings c decision_id w.rows ≡ ok a
        → w' ≡ record w { rows = a.1 }
        → Step w w'
    saving :
        (c : Call) (revision : ℕ) (subject body : String) (actor : IdentitySnapshot) (a : Answer)
        → save settings c decision_id revision subject body actor w.rows ≡ ok a
        → w' ≡ record w { rows = a.1 }
        → Step w w'
    reviewing :
        (c : Call) (revision : ℕ) (actor : IdentitySnapshot) (a : Answer)
        → review settings c decision_id revision actor w.rows ≡ ok a
        → w' ≡ record w { rows = a.1 }
        → Step w w'
    preparing :
        (c : Call) (revision : ℕ) (actor : IdentitySnapshot) (content : SupplierEmailRevision)
        (claim : SupplierEmailDelivery)
        → prepare_send settings c decision_id revision actor w.rows ≡ ok (to_claim content claim)
        → w' ≡ record w { waiting = (content, claim) ∷ w.waiting }
        → Step w w'
    claiming :
        (contended : Bool) (i : ℕ) (content : SupplierEmailRevision) (claim : SupplierEmailDelivery)
        (rows : MailRows)
        → get_elem? w.waiting i ≡ some (content, claim)
        → claim_send contended claim content.revision w.rows ≡ ok (true, rows)
        → w' ≡ record w {
          rows = rows;
          handed =
              record { content = content; correlation_id = claim.correlation_id; answer = none }
              ∷ w.handed;
        }
        → Step w w'
    answering :
        (c : Call) (correlation_id : String) (provided : Submission) (a : Answer)
        → awaits correlation_id w.handed ≡ true
        → finish_send c correlation_id provided w.rows ≡ ok a
        → w' ≡ record w { rows = a.1; handed = report correlation_id provided w.handed }
        → Step w w'
    checking :
        (c : Call) (provider : String → Option ProviderMessage) (actor : IdentitySnapshot)
        (a : Answer)
        → check_send_status settings c provider decision_id actor w.rows ≡ ok a
        → w' ≡ record w { rows = a.1 }
        → Step w w'

  pub data Reachable : World → Type 0 where
    unopened :
        Reachable
          (record { rows = record { delivery = none; revisions = [] }; waiting = []; handed = [] })
    after : {w w' : World} → Reachable w → Step w w' → Reachable w'

-- The numbers of the revisions: 1 for the first, and on.
abbrev pub Numbered : List SupplierEmailRevision → Type 0
Numbered [] = Unit
Numbered (r ∷ rs) = (r.revision ≡ suc (length rs)) × Numbered rs

-- A review that is in effect is one of the newest revision.
abbrev pub review_holds : Option ℕ → SupplierEmailRevision → Bool
review_holds none r = true
review_holds (some n) r = n == r.revision && is_some r.reviewed_by && is_some r.reviewed_at

-- How many messages the provider may hold, by the status of the delivery.
abbrev pub allowance : SupplierEmailSendStatus → ℕ
allowance draft = 0
allowance failed = 0
allowance _ = 1

abbrev pub is_unconfirmed : SupplierEmailSendStatus → Bool
is_unconfirmed sent_confirmed = false
is_unconfirmed _ = true

-- A revision is stored as it is, and is reviewed.
abbrev pub Stored : List SupplierEmailRevision → SupplierEmailRevision → Type 0
Stored rs q = (find (λ r. r.revision == q.revision) rs ≡ some q) × (is_some q.reviewed_by ≡ true)

-- What holds of a delivery, the newest revision and the older ones, with the number of messages that
-- the provider holds, and the contents that wait to be sent.
pub record Sound (qs : List SupplierEmailRevision) (d : SupplierEmailDelivery)
    (r : SupplierEmailRevision) (rs : List SupplierEmailRevision) (held : ℕ) : Type 0 where
  pub email : str_eq r.email_id d.email_id ≡ true
  pub decision : str_eq r.decision_id d.decision_id ≡ true
  pub numbered : Numbered (r ∷ rs)
  pub no_provider : d.provider_message_id ≡ none
  pub newest : review_holds d.reviewed_revision r ≡ true
  pub unreviewed : is_none r.reviewed_by ≡ is_none r.reviewed_at
  pub unconfirmed : is_unconfirmed d.send_status ≡ true
  pub once : held ≤ allowance d.send_status
  pub stored : All (Stored (r ∷ rs)) qs

abbrev pub Kept :
    List SupplierEmailRevision
    → Option SupplierEmailDelivery
    → List SupplierEmailRevision
    → ℕ
    → Type 0
Kept qs none [] held = (held ≡ 0) × All (Stored []) qs
Kept qs none (r ∷ rs) held = ⊥
Kept qs (some d) [] held = ⊥
Kept qs (some d) (r ∷ rs) held = Sound qs d r rs held
