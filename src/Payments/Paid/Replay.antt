-- ===== src/Payments/Paid/Replay.antt =====
-- A status update that is delivered again (backend/app/services/payments/service.py).
use book_point.Base.{◌≡◌, refl, sym, ◌∙◌, ◌⊎◌, ap, true, not, ◌&&◌, inl, inr, Bool-cases}
use book_point.Base.Int.{ℤ}
use book_point.Models.{Database, Payment, PaymentStatus}
use book_point.Payments.Rows.{update_payment}
use book_point.Payments.Status.{
  StatusChange, StatusUpdate, announce_change, is_paid, mark_payment_status, resolve_payment,
  resolve_payment_for_status_update, same_status, update_resolved, update_status, with_status,
  write_status,
}
use book_point.Payments.Transaction.{Post, finish}
use book_point.Payments.Paid.Resolve.{resolve_payment-update}
use book_point.Payments.Paid.Webhook.{Writes, write_status-Post}
use book_point.Results.{Result, ok, err, Result-cases}

same_status_refl : (status : PaymentStatus) → same_status status status ≡ true
same_status_refl PaymentStatus.pending = refl
same_status_refl PaymentStatus.requires_action = refl
same_status_refl PaymentStatus.succeeded = refl
same_status_refl PaymentStatus.failed = refl
same_status_refl PaymentStatus.canceled = refl
same_status_refl PaymentStatus.refunded = refl

-- What an update that ends without an error has done: nothing, at any time, or the write.
module _ (status : PaymentStatus) (now : ℤ) (payment : Payment) (db db' : Database)
    (p : Payment) where
  abbrev Unchanged : Type 0
  Unchanged =
      (p ≡ payment)
      × (db' ≡ db)
      × ((later : ℤ) → update_status status later payment db ≡ (ok payment, db))

  abbrev Written : Type 0
  Written =
      (p ≡ with_status status now payment)
      × (db'.payments ≡ update_payment payment.id (with_status status now) db.payments)

  update_status-eq-ok : update_status status now payment db ≡ (ok p, db') → Unchanged ⊎ Written
  update_status-eq-ok q = elim (Bool-cases (same_status payment.status status)) [
    | inl y ↦
        let q' : (Result.ok payment, db) ≡ (ok p, db') = rw y at q in
        inl ((cc), (cc), λ later. rw y refl)
    | inr n ↦ elim (Bool-cases (is_paid payment.status && not (is_paid status))) [
      | inl y ↦
          let q' : (Result.ok payment, db) ≡ (ok p, db') = rw (n, y) at q in
          inl ((cc), (cc), λ later. rw (n, y) refl)
      | inr m ↦ inr (
          by_result (write_status status now payment db) (write_status-Post status now payment db)
            (rw (n, m) at q))
    ]
  ]
    where
      by_result :
          (r : Result (StatusChange × Database))
          → Post
              (Writes (update_payment payment.id (with_status status now) db.payments) db.next_id)
              r
          → finish db (elim r [
            | ok (a, db1) ↦ announce_change status (with_status status now payment) a db1
            | err e ↦ err e
          ])
            ≡ (ok p, db')
          → Written
      by_result (err e) post r = let absurdly = ap (λ (x : Result Payment × Database). x.0) r in cc
      by_result (ok (a, db1)) (e, l) r =
          let p_is = ap (λ (x : Result Payment × Database). x.0) r in
          ((cc), sym (ap (λ (x : Result Payment × Database). x.1.payments) r) ∙ e)

-- If `mark_payment_status` gives a payment, then the same update at any later time gives the same
-- payment and leaves the database as it is.
pub mark_payment_status-replayed :
    (u : StatusUpdate) (now later : ℤ) (db db' : Database) (p : Payment)
    → mark_payment_status u now db ≡ (ok p, db')
    → mark_payment_status u later db' ≡ (ok p, db')
unfolding mark_payment_status resolve_payment_for_status_update
mark_payment_status-replayed u now later db db' p q =
    elim (Result-cases (
      resolve_payment db.payments u.provider_name u.provider_checkout_session_id
        u.provider_payment_intent_id)) [
          | inl (e, r) ↦
              let q' : (err e, db) ≡ (Result.ok p, db') = rw r at q in
              let absurdly = ap (λ (x : Result Payment × Database). x.0) q' in cc
          | inr (payment, r) ↦
              again payment r (update_status-eq-ok u.status now payment db db' p (rw r at q))
        ]
  where
    again :
        (payment : Payment)
        → resolve_payment db.payments u.provider_name u.provider_checkout_session_id
            u.provider_payment_intent_id
          ≡ ok payment
        → Unchanged u.status now payment db db' p ⊎ Written u.status now payment db db' p
        → update_resolved u.status later
            (resolve_payment db'.payments u.provider_name u.provider_checkout_session_id
              u.provider_payment_intent_id)
            db'
          ≡ (ok p, db')
    again payment r (inl (p_is, db_is, same)) = rw (p_is, db_is) (rw r (same later))
    again payment r (inr (p_is, payments_are)) =
        let r' =
          resolve_payment-update payment.id (with_status u.status now)
            (λ x. (refl, refl, refl, refl)) db.payments u.provider_name
            u.provider_checkout_session_id u.provider_payment_intent_id refl r in
        rw (payments_are, p_is) (rw (r', same_status_refl u.status) refl)
