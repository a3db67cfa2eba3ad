-- ===== src/Payments/Expiry.antt =====
-- `expire_pending_payments` of backend/app/services/payments/service.py.
use book_point.Base.{ℕ, ◌+◌, Bool, not, Option, none, some, List, [], ◌∷◌, if◌then◌else◌}
use book_point.Base.Int.{ℤ, ◌-ℤ◌}
use book_point.Base.Text.{codes}
use book_point.Models.{
  Appointment, Database, Effect, Payment, PaymentStatus, booking_auto_canceled_payment_timeout,
  booking_canceled, count, event, notify, payment_failed,
}
use book_point.Payments.Rows.{get_payment, is_open_payment, list_expired_pending, update_payment}
use book_point.Payments.Status.{cancel_pending_payment_appointment}
use book_point.Payments.Transaction.{Tx, ◌>>=◌, ◌>>◌, modify, pure, transact}
use book_point.Repositories.{get_appointment}
use book_point.Results.{Result, err, ok}
use book_point.Time.{minutes}

pub record ExpiryCounts : Type 0 where
  pub checked : ℕ
  pub expired : ℕ
  pub auto_canceled_appointments : ℕ
  pub failed : ℕ

abbrev pub announce_timeout : ℕ → List Effect → List Effect
announce_timeout k log =
    event booking_auto_canceled_payment_timeout k
    ∷ count payment_failed
    ∷ notify booking_auto_canceled_payment_timeout k
    ∷ notify booking_canceled k
    ∷ log

abbrev pub cancel_payment : Payment → Payment
cancel_payment p = record p { status = PaymentStatus.canceled; paid_at = none }

-- The transaction of one payment: whether its appointment was cancelled too.
abbrev pub expire_payment : Payment → Appointment → Tx Bool
expire_payment payment appointment = do
  modify (λ db. record db { payments = update_payment payment.id cancel_payment db.payments })
  cancelled ←
      cancel_pending_payment_appointment appointment
        (codes "Auto-cancelled due to payment timeout.")
  modify (λ db. record db {
    log = if cancelled then announce_timeout appointment.id db.log else db.log;
  })
  pure cancelled

abbrev pub count_expired : ExpiryCounts → Result Bool × Database → ExpiryCounts × Database
count_expired counts (ok cancelled, db) = (
  record counts {
    expired = counts.expired + 1;
    auto_canceled_appointments = counts.auto_canceled_appointments + (if cancelled then 1 else 0);
  },
  db,
)
count_expired counts (err e, db) = (record counts { failed = counts.failed + 1 }, db)

abbrev pub expire_found : ExpiryCounts → Option Payment → Database → ExpiryCounts × Database
expire_found counts none db = (counts, db)
expire_found counts (some payment) db =
    if not (is_open_payment payment.status)
    then (counts, db)
    else elim (get_appointment db.appointments payment.appointment_id) [
      | none ↦ (counts, db)
      | some appointment ↦ count_expired counts (transact (expire_payment payment appointment) db)
    ]

-- An iteration of the loop.
unfoldable pub expire_stale : Payment → ExpiryCounts × Database → ExpiryCounts × Database
unfolding cancel_pending_payment_appointment
expire_stale stale (counts, db) =
    expire_found (record counts { checked = counts.checked + 1 }) (get_payment db.payments stale.id)
      db

unfoldable pub expire_all : List Payment → ExpiryCounts × Database → ExpiryCounts × Database
unfolding expire_stale
expire_all [] s = s
expire_all (p ∷ stale) s = expire_all stale (expire_stale p s)

-- `expire_pending_payments`, from the minutes that a payment may stay open.
unfoldable pub expire_pending_payments : ℕ → ℤ → Database → ExpiryCounts × Database
unfolding expire_all list_expired_pending
expire_pending_payments expiration_minutes now db =
    expire_all (list_expired_pending db.payments (now -ℤ minutes expiration_minutes))
      (record { checked = 0; expired = 0; auto_canceled_appointments = 0; failed = 0 }, db)
