-- ===== src/Payments/Paid/Operations.antt =====
-- What the expiry of backend/app/services/payments/service.py does to the rows of the payments.
use book_point.Base.{
  ℕ, ◌+◌, ◌≤◌, ◌≡◌, refl, Bool, true, inl, inr, List, [], ◌∷◌, In, In-of_first, ◌==◌, arith,
  Bool-cases, Option-cases, if◌then◌else◌,
}
use book_point.Base.Int.{ℤ, ◌-ℤ◌}
use book_point.Base.Text.{codes}
use book_point.Models.{Appointment, Database, Payment}
use book_point.Payments.Expiry.{
  ExpiryCounts, cancel_payment, count_expired, expire_all, expire_payment, expire_pending_payments,
  expire_stale, announce_timeout,
}
use book_point.Payments.Paid.{
  IsKeyed, Kept, Kept-refl, Kept-trans, Kept-update, Distinct, Distinct-eq, Distinct-Kept,
  below-Kept,
}
use book_point.Payments.Paid.Webhook.{Writes, cancel-Post}
use book_point.Payments.Rows.{get_payment, is_open_payment, list_expired_pending, update_payment}
use book_point.Payments.Status.{cancel_pending_payment_appointment}
use book_point.Payments.Transaction.{bind-Post, transact-Post, transact}
use book_point.Repositories.{get_appointment}
use book_point.Results.{Result, ok, err}
use book_point.Time.{minutes}

-- The rows are kept, and no id has been freed.
abbrev pub Evolves : Database → Database → Type 0
Evolves db db' = Kept db.payments db'.payments × (db.next_id ≤ db'.next_id)

pub Evolves-refl : (db : Database) → Evolves db db
Evolves-refl db = (Kept-refl db.payments, omega arith)

pub Evolves-trans : (a b c : Database) → Evolves a b → Evolves b c → Evolves a c
Evolves-trans a b c (h, l) (k, m) = (Kept-trans a.payments b.payments c.payments h k, omega arith)

pub Evolves-IsKeyed : (db db' : Database) → Evolves db db' → IsKeyed db → IsKeyed db'
Evolves-IsKeyed db db' (h, l) k = record {
  below = below-Kept db.next_id db'.next_id db.payments db'.payments l h k.below;
  distinct = Distinct-Kept db.payments db'.payments h k.distinct;
}

-- The expiry cancels an open payment, and its commit writes no other.
expire_payment-Evolves :
    (payment : Payment) (appointment : Appointment) (db : Database)
    → Distinct db.payments
    → In payment db.payments
    → is_open_payment payment.status ≡ true
    → Evolves db (transact (expire_payment payment appointment) db).1
expire_payment-Evolves payment appointment db d i e =
    transact-Post P (Evolves db) (expire_payment payment appointment) db (Evolves-refl db)
      (λ db' (p, l). (rw p kept, l))
      (bind-Post P P
        (cancel_pending_payment_appointment appointment
          (codes "Auto-cancelled due to payment timeout."))
        log_it written
        (cancel-Post payments' db.next_id appointment
          (codes "Auto-cancelled due to payment timeout.") written (refl, omega arith))
        (λ c db' p. p))
  where
    payments' : List Payment
    payments' = update_payment payment.id cancel_payment db.payments

    written : Database
    written = record db { payments = payments' }

    P : Database → Type 0
    P = Writes payments' db.next_id

    log_it : Bool → Database → Result (Bool × Database)
    log_it c db' =
        ok (c, record db' { log = if c then announce_timeout appointment.id db'.log else db'.log })

    kept : Kept db.payments payments'
    kept = Kept-update payment.id cancel_payment db.payments (λ q j own.
        let same : q ≡ payment = Distinct-eq db.payments q payment d j i own in
        (refl, refl, rw same (ground arith)))

count_expired-Evolves :
    (counts : ExpiryCounts) (r : Result Bool) (db db' : Database)
    → Evolves db db'
    → Evolves db (count_expired counts (r, db')).1
count_expired-Evolves counts (ok c) db db' h = h
count_expired-Evolves counts (err e) db db' h = h

expire_stale-Evolves :
    (stale : Payment) (counts : ExpiryCounts) (db : Database)
    → Distinct db.payments
    → Evolves db (expire_stale stale (counts, db)).1
unfolding expire_stale
expire_stale-Evolves stale counts db d = elim (Option-cases (get_payment db.payments stale.id)) [
  | inl e ↦ rw (expire_stale, e) (Evolves-refl db)
  | inr (p, e) ↦ elim (Bool-cases (is_open_payment p.status)) [
    | inr n ↦ rw (expire_stale, e, n) (Evolves-refl db)
    | inl y ↦ elim (Option-cases (get_appointment db.appointments p.appointment_id)) [
      | inl a ↦ rw (expire_stale, e, y, a) (Evolves-refl db)
      | inr (a, found) ↦
          rw (expire_stale, e, y, found)
            (count_expired-Evolves (record counts { checked = counts.checked + 1 })
              (transact (expire_payment p a) db).0 db (transact (expire_payment p a) db).1
              (expire_payment-Evolves p a db d (In-of_first (λ q. q.id == stale.id) db.payments e).0
                y))
    ]
  ]
]

expire_all-Evolves :
    (stale : List Payment) (counts : ExpiryCounts) (db : Database)
    → Distinct db.payments
    → Evolves db (expire_all stale (counts, db)).1
unfolding expire_all
expire_all-Evolves [] counts db d = Evolves-refl db
expire_all-Evolves (p ∷ stale) counts db d =
    let (counts', db') = expire_stale p (counts, db) in
    let here = expire_stale-Evolves p counts db d in
    Evolves-trans db db' (expire_all stale (counts', db')).1 here
      (expire_all-Evolves stale counts' db' (Distinct-Kept db.payments db'.payments here.0 d))

pub expire_pending_payments-Evolves :
    (expiration_minutes : ℕ) (now : ℤ) (db : Database)
    → Distinct db.payments
    → Evolves db (expire_pending_payments expiration_minutes now db).1
unfolding expire_pending_payments
expire_pending_payments-Evolves expiration_minutes now db d =
    expire_all-Evolves (list_expired_pending db.payments (now -ℤ minutes expiration_minutes))
      (record { checked = 0; expired = 0; auto_canceled_appointments = 0; failed = 0 }) db d
