-- ===== src/Payments/Paid/Webhook.antt =====
-- What `mark_payment_status` writes (backend/app/services/payments/service.py).
use book_point.Appointments.Booking.{update_appointment}
use book_point.Base.{
  ℕ, ◌≤◌, ◌≡◌, refl, ◌∙◌, Bool, false, not, ◌&&◌, Option, none, some, inl, inr, List, In, arith,
  Bool-cases,
}
use book_point.Base.Int.{ℤ}
use book_point.Base.Text.{Text, codes}
use book_point.Models.{Appointment, Database, Payment, PaymentStatus, ProviderEarning}
use book_point.Payments.Earnings.{ensure_earning_for_payment}
use book_point.Payments.Earnings.Sound.{Ensured, ensure-Ensured}
use book_point.Payments.Paid.{Kept, Kept-refl, Kept-update, Distinct, Distinct-eq}
use book_point.Payments.Paid.Resolve.{In-of_resolve}
use book_point.Payments.Rows.{update_payment}
use book_point.Payments.Status.{
  StatusUpdate, announce_change, cancel_pending_payment_appointment, confirm, follow_status,
  is_paid, mark_payment_status, resolve_payment, resolve_payment_for_status_update, same_status,
  update_status, with_status, write_status, is_pending_payment,
}
use book_point.Payments.Transaction.{Post, ◌>>=◌, or_raise, bind-Post, pure, transact-Post}
use book_point.Repositories.{get_appointment}
use book_point.Results.{ok, appointment_not_found, Result-cases}

-- The earning is ensured without a write to the payments.
ensure_earning-payments :
    (payment : Payment) (appointment : Appointment) (db db' : Database) (e : ProviderEarning)
    (created : Bool)
    → ensure_earning_for_payment payment appointment db ≡ ok ((e, created), db')
    → (db'.payments ≡ db.payments) × (db.next_id ≤ db'.next_id)
unfolding Ensured
ensure_earning-payments payment appointment db db' e created q =
    by_case (ensure-Ensured payment appointment db db' e created q)
  where
    by_case :
        Ensured payment appointment db db' e
        → (db'.payments ≡ db.payments) × (db.next_id ≤ db'.next_id)
    by_case (inl (found, db_is)) = rw db_is (refl, omega arith)
    by_case (inr (fee, within, e_is, db_is)) = rw db_is (refl, omega arith)

-- The payments are these, and no id has been freed.
abbrev pub Writes : List Payment → ℕ → Database → Type 0
Writes payments n db = (db.payments ≡ payments) × (n ≤ db.next_id)

module _ (payments : List Payment) (n : ℕ) where
  pub ensure_earning-Post :
      (payment : Payment) (appointment : Appointment) (db : Database)
      → Writes payments n db
      → Post (Writes payments n) (ensure_earning_for_payment payment appointment db)
  ensure_earning-Post payment appointment db (e, l) =
      elim (Result-cases (ensure_earning_for_payment payment appointment db)) [
        | inl (x, r) ↦ rw r tt
        | inr (((a, b), db'), r) ↦
            let (same, grown) = ensure_earning-payments payment appointment db db' a b r in
            rw r (same ∙ e, omega arith)
      ]

  pub cancel-Post :
      (a : Appointment) (reason : Text) (db : Database)
      → Writes payments n db
      → Post (Writes payments n) (cancel_pending_payment_appointment a reason db)
  unfolding cancel_pending_payment_appointment
  cancel-Post a reason db h = elim (Bool-cases (is_pending_payment a.status)) [
    | inl y ↦ rw y h
    | inr m ↦ rw m h
  ]

  cancelled-Post :
      (payment : Payment) (appointment : Appointment) (db : Database)
      → Writes payments n db
      → Post (Writes payments n) (follow_status PaymentStatus.failed payment appointment db)
  cancelled-Post payment appointment db h =
      bind-Post (Writes payments n) (Writes payments n)
        (cancel_pending_payment_appointment appointment
          (codes "Auto-cancelled due to unsuccessful payment."))
        (λ c. pure (record { earning_created = false; auto_cancelled = c })) db
        (cancel-Post appointment (codes "Auto-cancelled due to unsuccessful payment.") db h)
        (λ a db' p. p)

  follow_status-Post :
      (status : PaymentStatus) (payment : Payment) (appointment : Appointment) (db : Database)
      → Writes payments n db
      → Post (Writes payments n) (follow_status status payment appointment db)
  follow_status-Post PaymentStatus.succeeded payment appointment db h =
      let confirmed = record db {
        appointments = update_appointment appointment.id confirm db.appointments;
      } in
      bind-Post (Writes payments n) (Writes payments n)
        (ensure_earning_for_payment payment (confirm appointment))
        (λ x. pure (record { earning_created = x.1; auto_cancelled = false })) confirmed
        (ensure_earning-Post payment (confirm appointment) confirmed h) (λ a db' p. p)
  follow_status-Post PaymentStatus.failed payment appointment db h =
      cancelled-Post payment appointment db h
  follow_status-Post PaymentStatus.canceled payment appointment db h =
      cancelled-Post payment appointment db h
  follow_status-Post PaymentStatus.pending payment appointment db h = h
  follow_status-Post PaymentStatus.requires_action payment appointment db h = h
  follow_status-Post PaymentStatus.refunded payment appointment db h = h

pub write_status-Post :
    (status : PaymentStatus) (now : ℤ) (payment : Payment) (db : Database)
    → Post
        (Writes (update_payment payment.id (with_status status now) db.payments) db.next_id)
        (write_status status now payment db)
write_status-Post status now payment db =
    by_lookup (get_appointment db.appointments payment.appointment_id)
  where
    written : Database
    written = record db {
      payments = update_payment payment.id (with_status status now) db.payments;
    }

    by_lookup :
        (o : Option Appointment)
        → Post (Writes written.payments db.next_id) (
            (or_raise o appointment_not_found
                >>= follow_status status (with_status status now payment))
              written)
    by_lookup none = tt
    by_lookup (some a) =
        follow_status-Post written.payments db.next_id status (with_status status now payment) a
          written (refl, omega arith)

-- A call that reaches the table rewrites one payment, and none that is paid as not paid.
pub update_status-Kept :
    (status : PaymentStatus) (now : ℤ) (payment : Payment) (db : Database)
    → Distinct db.payments
    → In payment db.payments
    → let db' = (update_status status now payment db).1 in
      Kept db.payments db'.payments × (db.next_id ≤ db'.next_id)
update_status-Kept status now payment db d i =
    elim (Bool-cases (same_status payment.status status)) [
      | inl y ↦ rw y (Kept-refl db.payments, omega arith)
      | inr n ↦ elim (Bool-cases (is_paid payment.status && not (is_paid status))) [
        | inl y ↦ rw (n, y) (Kept-refl db.payments, omega arith)
        | inr m ↦
            rw (n, m)
              (transact-Post (Writes payments' db.next_id)
                (λ db'. Kept db.payments db'.payments × (db.next_id ≤ db'.next_id))
                (write_status status now payment
                  >>= announce_change status (with_status status now payment))
                db (Kept-refl db.payments, omega arith) (λ db' (e, l). (rw e (rewritten m), l))
                (bind-Post (Writes payments' db.next_id) (Writes payments' db.next_id)
                  (write_status status now payment)
                  (announce_change status (with_status status now payment)) db
                  (write_status-Post status now payment db) (λ a db' p. p)))
      ]
    ]
  where
    payments' : List Payment
    payments' = update_payment payment.id (with_status status now) db.payments

    rewritten :
        (is_paid payment.status && not (is_paid status)) ≡ false
        → Kept db.payments (update_payment payment.id (with_status status now) db.payments)
    rewritten m = Kept-update payment.id (with_status status now) db.payments (λ q j e.
        let same : q ≡ payment = Distinct-eq db.payments q payment d j i e in
        (refl, refl, rw same (ground arith)))

pub mark_payment_status-Kept :
    (u : StatusUpdate) (now : ℤ) (db : Database)
    → Distinct db.payments
    → let db' = (mark_payment_status u now db).1 in
      Kept db.payments db'.payments × (db.next_id ≤ db'.next_id)
unfolding mark_payment_status resolve_payment_for_status_update
mark_payment_status-Kept u now db d =
    elim (Result-cases (
      resolve_payment db.payments u.provider_name u.provider_checkout_session_id
        u.provider_payment_intent_id)) [
          | inl (e, r) ↦ rw r (Kept-refl db.payments, omega arith)
          | inr (p, r) ↦ rw r (
              update_status-Kept u.status now p db d (
                In-of_resolve db.payments u.provider_name u.provider_checkout_session_id
                  u.provider_payment_intent_id r))
        ]
