-- ===== src/Execution/Mail/Keeps.antt =====
-- What each write of the email's rows keeps.
use supply_response.Base.{
  ℕ, suc, ◌≤◌, ◌≡◌, ap, subst, String, Bool, true, false, not, ◌&&◌, ◌||◌, Option, none, some,
  is_some, is_none, List, [], ◌∷◌, eq_iff, str_eq_refl, ◌==◌, if◌then◌else◌, Bool-cases, inl, inr,
  arith, All-map, any, find, length,
}
use supply_response.Base.Result.{ok, ◌>>◌, Ensures, Ensures-guard, Ensures-then, if_split}
use supply_response.Domain.Common.{Instant}
use supply_response.Domain.OutboundMail.{
  SupplierEmailSendStatus, SupplierEmailRevision, SupplierEmailDelivery, MailError, integrity_error,
}
use supply_response.Execution.Actions.{PlanRows}
use supply_response.Execution.Mail.Rows.{
  MailRows, get_current, checked_current, send_status_eq, editable, append_revision,
  require_action_binding, back_to_draft, append_after, appended, follows,
}
use supply_response.Execution.Mail.Updates.{
  mark_reviewed, claim_send, is_claim, may_claim, update_delivery_state, status_in, revision_eq,
  delivery_eq, set_reviewed, is_text, set_open_row, mark_after, review_matches, is_open_row,
  update_where, same_row,
}
use supply_response.Execution.Mail.Delivery.{
  Kept, Sound, Numbered, Stored, allowance, is_unconfirmed,
}
use supply_response.Domain.Finance.{IdentitySnapshot}
use supply_response.Execution.Mail.Reviewing.{with_review, with_reviewed_revision}
use supply_response.Execution.Mail.Sending.{moved_to}

abbrev pub rows_of :
    SupplierEmailDelivery → SupplierEmailRevision → List SupplierEmailRevision → MailRows
rows_of d r rs = record { delivery = some d; revisions = r ∷ rs }

-- Sound rows are read as their newest revision and their delivery.
pub get_current-Sound :
    (qs : List SupplierEmailRevision) (d : SupplierEmailDelivery) (r : SupplierEmailRevision)
    (rs : List SupplierEmailRevision) (held : ℕ)
    → Sound qs d r rs held
    → get_current (rows_of d r rs) ≡ ok (some (r, d))
unfolding get_current checked_current
get_current-Sound qs d r rs held k = rw (k.email, k.decision) (ground (arith, k.newest))

-- The writes' results.
abbrev pub KeptBy : List SupplierEmailRevision → ℕ → Bool × MailRows → Type 0
KeptBy qs held p = Kept qs p.1.delivery p.1.revisions held

find-le :
    (n : ℕ) (rs : List SupplierEmailRevision) (q : SupplierEmailRevision)
    → find (λ r. r.revision == n) rs ≡ some q
    → Numbered rs
    → n ≤ length rs
find-le n [] q e h = cc
find-le n (r ∷ rs) q e h = ground (arith, find-le n rs q, h.0, h.1)

Stored-append :
    (q r : SupplierEmailRevision) (rs : List SupplierEmailRevision) (p : SupplierEmailRevision)
    → Numbered (r ∷ rs)
    → q.revision ≡ suc (suc (length rs))
    → Stored (r ∷ rs) p
    → Stored (q ∷ r ∷ rs) p
Stored-append q r rs p h n s =
    let bound = find-le p.revision (r ∷ rs) p s.0 h in
    let other : (q.revision == p.revision) ≡ false = ground arith in (rw other s.0, s.1)

abbrev is_reviewed : Option SupplierEmailRevision → Bool
is_reviewed none = false
is_reviewed (some r) = is_some r.reviewed_by

Stored-marked :
    (r : SupplierEmailRevision) (rs : List SupplierEmailRevision) (p : SupplierEmailRevision)
    (actor : IdentitySnapshot) (now : Instant)
    → is_some r.reviewed_by ≡ false
    → Stored (r ∷ rs) p
    → Stored (with_review r actor now ∷ rs) p
Stored-marked r rs p actor now h s = elim (Bool-cases (r.revision == p.revision)) [
  | inl same ↦
      let e : some r ≡ some p = rw same at s.0 in
      let f : is_some r.reviewed_by ≡ is_some p.reviewed_by = ap is_reviewed e in
      absurd (ground (arith, f, s.1))
  | inr other ↦ (
    rw other (let e : find (λ q. q.revision == p.revision) rs ≡ some p = rw other at s.0 in e),
    s.1,
  )
]

module _ (qs : List SupplierEmailRevision) (d : SupplierEmailDelivery) (r : SupplierEmailRevision)
    (rs : List SupplierEmailRevision) (held : ℕ) (k : Sound qs d r rs held) where
  appended-Sound :
      (q : SupplierEmailRevision) (expected : ℕ)
      → is_none q.reviewed_by ≡ is_none q.reviewed_at
      → r.revision ≡ expected
      → editable d ≡ true
      → follows q r expected ≡ true
      → Sound qs (back_to_draft d q.edited_at) q (r ∷ rs) held
  unfolding editable send_status_eq follows back_to_draft
  appended-Sound q expected u n open_to h = ground (
    arith,
    eq_iff q.email_id r.email_id,
    eq_iff q.decision_id r.decision_id,
    eq_iff r.email_id d.email_id,
    eq_iff r.decision_id d.decision_id,
    k.once,
    k.numbered,
    k.email,
    k.decision,
    All-map (Stored (r ∷ rs)) (Stored (q ∷ r ∷ rs)) qs
        (λ p. Stored-append q r rs p k.numbered (ground arith)) k.stored,
  )

  pub append_revision-Kept :
      (plan : PlanRows) (contended : Bool) (q : SupplierEmailRevision) (expected : ℕ)
      → is_none q.reviewed_by ≡ is_none q.reviewed_at
      → Ensures (KeptBy qs held) (append_revision plan contended q expected (rows_of d r rs))
  unfolding append_revision
  append_revision-Kept plan true q expected u = k
  append_revision-Kept plan false q expected u =
      let P = Ensures {E = MailError} (KeptBy qs held) in
      let s = rows_of d r rs in
      rw (get_current-Sound qs d r rs held k) (
        if_split P (not (r.revision == expected) || not (editable d)) (ok (false, s))
          (append_after plan q expected s (r, d)) (λ h. k)
          (λ h.
            Ensures-guard (KeptBy qs held) (follows q r expected) _
              (require_action_binding plan q >> ok (true, appended q d s))
              (λ g.
                Ensures-then (KeptBy qs held) (require_action_binding plan q)
                  (ok (true, appended q d s))
                  (appended-Sound q expected u (ground arith) (ground arith) g))))

  marked-Sound :
      (actor : IdentitySnapshot) (now : Instant)
      → is_some r.reviewed_by ≡ false
      → Sound qs (with_reviewed_revision d r.revision now) (with_review r actor now) rs held
  marked-Sound actor now open_row = ground (
    arith,
    k.email,
    k.decision,
    k.numbered,
    k.no_provider,
    k.unconfirmed,
    k.once,
    All-map (Stored (r ∷ rs)) (Stored (with_review r actor now ∷ rs)) qs
        (λ p. Stored-marked r rs p actor now open_row) k.stored,
  )

  unreviewed-is_open_row :
      (actor : IdentitySnapshot) (now : Instant)
      → is_some r.reviewed_at ≡ false
      → is_open_row (with_review r actor now) r ≡ true
  unreviewed-is_open_row actor now h = ground (arith, str_eq_refl r.email_id)

  pub mark_reviewed-Kept :
      (contended : Bool) (actor : IdentitySnapshot) (now : Instant) (n : ℕ)
      → r.revision ≡ n
      → is_some r.reviewed_by ≡ false
      → Ensures (KeptBy qs held) (
          mark_reviewed contended
            (with_review r actor now)
            (with_reviewed_revision d n now)
            n
            (rows_of d r rs))
  unfolding mark_reviewed set_reviewed
  mark_reviewed-Kept true actor now n at open_row = k
  mark_reviewed-Kept false actor now n at open_row =
      let P = Ensures {E = MailError} (KeptBy qs held) in
      let s = rows_of d r rs in
      let q = with_review r actor now in
      let e = with_reviewed_revision d n now in
      rw (get_current-Sound qs d r rs held k) (
        if_split P (not (r.revision == n)) (ok (false, s)) _ (λ h. k)
          (λ h.
            if_split P (is_some r.reviewed_at) (ok (revision_eq r q && delivery_eq d e, s))
              (mark_after q e n s (r, d)) (λ g. k)
              (λ g.
                Ensures-guard (KeptBy qs held) (review_matches q e n (r, d) (some now)) _
                  (ok (set_open_row q e s))
                  (λ m.
                    if_split (KeptBy qs held) (any (is_open_row q) (r ∷ rs))
                      (true, record { delivery = some e; revisions = set_reviewed q (r ∷ rs) })
                      (false, s)
                      (λ o. rw (unreviewed-is_open_row actor now g) (
                        subst (λ x. Sound qs (with_reviewed_revision d x now) q rs held) at
                          (marked-Sound actor now open_row)))
                      (λ o. k)))))

  pub update_where-Kept :
      (contended : Bool) (test : SupplierEmailDelivery → Bool) (e : SupplierEmailDelivery)
      (held' : ℕ)
      → Sound qs d r rs held'
      → (test d ≡ true → Sound qs e r rs held')
      → KeptBy qs held' (update_where contended test e (some d) (rows_of d r rs))
  update_where-Kept true test e held' h g = h
  update_where-Kept false test e held' h g =
      if_split (KeptBy qs held') (test d) (true, rows_of e r rs) (false, rows_of d r rs) g (λ x. h)

  claimed-Sound :
      (e : SupplierEmailDelivery) (n : ℕ)
      → is_claim e n ≡ true
      → may_claim e n d ≡ true
      → Sound qs e r rs (suc held)
  unfolding is_claim may_claim editable send_status_eq
  claimed-Sound e n h g = ground (
    arith,
    eq_iff d.email_id e.email_id,
    eq_iff d.decision_id e.decision_id,
    k.email,
    k.decision,
    k.numbered,
    k.no_provider,
    k.unconfirmed,
    k.once,
    k.newest,
  )

  -- A claim that succeeds takes one more message.
  pub claim_send-Kept :
      (contended : Bool) (e : SupplierEmailDelivery) (n : ℕ)
      → Ensures
          (λ p. p.0 ≡ true → KeptBy qs (suc held) p)
          (claim_send contended e n (rows_of d r rs))
  unfolding claim_send
  claim_send-Kept true e n =
      Ensures-guard (λ p. p.0 ≡ true → KeptBy qs (suc held) p) (is_claim e n) integrity_error
        (ok (false, rows_of d r rs)) (λ _ x. cc)
  claim_send-Kept false e n =
      let P : Bool × MailRows → Type 0 = λ p. p.0 ≡ true → KeptBy qs (suc held) p in
      Ensures-guard P (is_claim e n) integrity_error
        (ok (if may_claim e n d then (true, rows_of e r rs) else (false, rows_of d r rs)))
        (λ h.
          if_split P (may_claim e n d) (true, rows_of e r rs) (false, rows_of d r rs)
            (λ g _. claimed-Sound e n h g) (λ _ x. cc))

  pub moved-Sound :
      (status : SupplierEmailSendStatus) (code : Option String) (now : Instant) (held' : ℕ)
      → held' ≤ allowance status
      → is_unconfirmed status ≡ true
      → Sound qs (moved_to status code now d) r rs held'
  unfolding moved_to
  moved-Sound status code now held' h u =
      ground (arith, k.email, k.decision, k.numbered, k.no_provider, k.newest)

  pub update_delivery_state-Kept :
      (contended : Bool) (status : SupplierEmailSendStatus) (code : Option String) (now : Instant)
      (correlation_id : String) (expected : List SupplierEmailSendStatus) (held' : ℕ)
      → Sound qs d r rs held'
      → held' ≤ allowance status
      → is_unconfirmed status ≡ true
      → Ensures (KeptBy qs held') (
          update_delivery_state contended
            (moved_to status code now d)
            correlation_id
            expected
            (rows_of d r rs))
  unfolding update_delivery_state moved_to
  update_delivery_state-Kept contended status code now correlation_id expected held' s h u =
      let e = moved_to status code now d in
      let test : SupplierEmailDelivery → Bool = λ row.
        same_row e row
        && is_text row.correlation_id correlation_id
        && status_in row.send_status expected in
      Ensures-guard (KeptBy qs held')
        (is_text d.correlation_id correlation_id && any (λ st. true) expected) integrity_error
        (ok (update_where contended test e (some d) (rows_of d r rs)))
        (λ _.
          update_where-Kept contended test e held' s (λ _. moved-Sound status code now held' h u))

-- A claim that succeeds has found the row open to it.
pub claim_send-open :
    (d : SupplierEmailDelivery) (r : SupplierEmailRevision) (rs : List SupplierEmailRevision)
    (contended : Bool) (e : SupplierEmailDelivery) (n : ℕ)
    → Ensures (λ p. p.0 ≡ true → may_claim e n d ≡ true) (claim_send contended e n (rows_of d r rs))
unfolding claim_send
claim_send-open d r rs true e n =
    Ensures-guard (λ p. p.0 ≡ true → may_claim e n d ≡ true) (is_claim e n) integrity_error
      (ok (false, rows_of d r rs)) (λ _ x. cc)
claim_send-open d r rs false e n =
    let P : Bool × MailRows → Type 0 = λ p. p.0 ≡ true → may_claim e n d ≡ true in
    Ensures-guard P (is_claim e n) integrity_error
      (ok (if may_claim e n d then (true, rows_of e r rs) else (false, rows_of d r rs)))
      (λ h.
        if_split P (may_claim e n d) (true, rows_of e r rs) (false, rows_of d r rs) (λ g _. g)
          (λ _ x. cc))
