-- ===== src/Appointments/Cancelled.antt =====
-- What a cancellation leaves (backend/app/services/appointment_service.py).
use book_point.Appointments.Apart.{IsConsistent}
use book_point.Appointments.Booking.{update_appointment}
use book_point.Appointments.Cancel.{
  cancel_appointment, cancel_found, cancelled, commit_cancellation, is_cancelled, is_over,
  refund_after,
}
use book_point.Appointments.Release.{Eased-refl, Eased-update, IsBooked-Eased}
use book_point.Base.{
  ℕ, ◌≡◌, refl, sym, ◌∙◌, true, false, true≢false, Option, none, some, inl, inr, ◌==◌, In,
  In-of_first, first-map, Bool-cases, Option-cases, arith, if◌then◌else◌,
}
use book_point.Base.Int.{ℤ, pos}
use book_point.Base.Text.{Text}
use book_point.Models.{Appointment, Database, Payment, Provider, is_reschedulable}
use book_point.Payments.Paid.{IsKeyed}
use book_point.Payments.Paid.Operations.{Evolves, Evolves-IsKeyed}
use book_point.Payments.Paid.Refunding.{create_refund-Evolves}
use book_point.Payments.RefundPolicy.{calculate_refund_amount}
use book_point.Payments.Refunds.{
  RefundProvider, create_refund, process_refund_for_cancellation, refund_latest,
}
use book_point.Payments.Refunds.Balance.{IsCovered, create_refund-IsCovered}
use book_point.Payments.Rows.{get_latest_payment_for_appointment}
use book_point.Repositories.{get_appointment, get_provider}
use book_point.Results.{ok}
use book_point.Appointments.Refunded.{
  refund_latest-outcome, process_refund-bookings, SameBookings, create_refund-bookings,
  In-of_latest, get_payment_of_In,
}

-- What every operation on the payments keeps, and the cancellation too.
abbrev pub Sound : Database → Type 0
Sound db = IsConsistent db × IsKeyed db × IsCovered db

Sound-of_bookings :
    (db db' : Database)
    → SameBookings db db'
    → Evolves db db'
    → IsConsistent db
    → IsKeyed db
    → IsCovered db'
    → Sound db'
Sound-of_bookings db db' (d, a, l) e c k covered = (
  rw (d, a)
      (IsBooked-Eased db.directory db.next_id db'.next_id db.appointments db.appointments l
        (Eased-refl db.appointments) c),
  Evolves-IsKeyed db db' e k,
  covered,
)

create_refund-Sound :
    (provider : RefundProvider) (payment : Payment) (amount_minor now : ℤ) (db : Database)
    → In payment db.payments
    → Sound db
    → Sound (create_refund provider payment amount_minor now db).1
create_refund-Sound provider payment amount_minor now db i (c, k, r) =
    Sound-of_bookings db (create_refund provider payment amount_minor now db).1
      (create_refund-bookings provider payment amount_minor now db)
      (create_refund-Evolves provider payment amount_minor now db) c k
      (create_refund-IsCovered provider payment amount_minor now db
        (get_payment_of_In db.payments payment k.distinct i) r)

refund_latest-Sound :
    (provider : RefundProvider) (a : Appointment) (now : ℤ) (o : Option Payment) (db : Database)
    → ((z : Payment) → o ≡ some z → In z db.payments)
    → Sound db
    → Sound (refund_latest provider a now o db).1
refund_latest-Sound provider a now none db i h = h
refund_latest-Sound provider a now (some p) db i h =
    refund_latest-outcome Sound provider a now p db h (
      create_refund-Sound provider p (pos (calculate_refund_amount db a p now)) now db (i p refl) h)

commit_cancellation-Sound :
    (notes : Option Text) (a : Appointment) (db : Database)
    → Sound db
    → Sound (commit_cancellation notes a db)
unfolding commit_cancellation
commit_cancellation-Sound notes a db (c, k, r) = (
  IsBooked-Eased db.directory db.next_id db.next_id db.appointments
      (update_appointment a.id (cancelled notes) db.appointments) (omega arith)
      (Eased-update a.id (cancelled notes) db.appointments
        (λ b i e. (refl, refl, refl, refl, refl, λ h. absurd (true≢false (sym h)))))
      c,
  record { below = k.below; distinct = k.distinct },
  record { fresh = r.fresh; covered = r.covered },
)

refund_after-Sound :
    (provider : RefundProvider) (notes : Option Text) (a : Appointment) (now : ℤ) (db : Database)
    → Sound db
    → Sound (refund_after provider notes a now db).1
unfolding process_refund_for_cancellation
refund_after-Sound provider notes a now db h =
    let db1 = commit_cancellation notes a db in
    refund_latest-Sound provider (cancelled notes a) now
      (get_latest_payment_for_appointment db1.payments a.id) db1
      (λ z. In-of_latest db1.payments a.id) (commit_cancellation-Sound notes a db h)

-- From a `Sound` database `cancel_appointment` leaves a `Sound` one on every branch, whatever the
-- refund provider answers: the appointments are consistent, the payments have distinct ids below
-- the next one, and the succeeded refunds of each payment are within its amount.
pub cancel_appointment-Sound :
    (provider : RefundProvider) (k : ℕ) (notes : Option Text) (now : ℤ) (db : Database)
    → Sound db
    → Sound (cancel_appointment provider k notes now db).1
unfolding cancel_appointment
cancel_appointment-Sound provider k notes now db h = by_row (get_appointment db.appointments k)
  where
    by_row : (o : Option Appointment) → Sound (cancel_found provider notes now o db).1
    by_row none = h
    by_row (some a) = elim (Option-cases (get_provider db.directory a.provider_id)) [
      | inl e ↦ rw (cancel_found, e) h
      | inr (p, e) ↦ elim (Bool-cases (is_cancelled a.status)) [
        | inl y ↦ rw (cancel_found, e, y) h
        | inr n ↦ elim (Bool-cases (is_over a.status)) [
          | inl y ↦ rw (cancel_found, e, n, y) h
          | inr m ↦ rw (cancel_found, e, n, m) (refund_after-Sound provider notes a now db h)
        ]
      ]
    ]

-- A pending or confirmed appointment that the id finds, of a provider that exists, is cancelled,
-- whatever the refund provider answers: the call gives the cancelled row, and the id finds that row
-- in the table.
pub cancel_appointment-cancels :
    (provider : RefundProvider) (k : ℕ) (notes : Option Text) (now : ℤ) (db : Database)
    (a : Appointment) (p : Provider)
    → get_appointment db.appointments k ≡ some a
    → get_provider db.directory a.provider_id ≡ some p
    → is_reschedulable a.status ≡ true
    → let (result, db') = cancel_appointment provider k notes now db in
      (result ≡ ok (cancelled notes a))
      × (get_appointment db'.appointments k ≡ some (cancelled notes a))
unfolding cancel_appointment commit_cancellation
cancel_appointment-cancels provider k notes now db a p e f active =
    let live : is_cancelled a.status ≡ false = ground arith in
    let not_over : is_over a.status ≡ false = ground arith in
    rw (cancel_appointment, e, cancel_found, f, live, not_over) (refl, row)
  where
    row :
        get_appointment (refund_after provider notes a now db).1.appointments k
        ≡ some (cancelled notes a)
    row =
        let (d, same, n) =
          process_refund-bookings provider (cancelled notes a) now
            (commit_cancellation notes a db) in
        let own : a.id ≡ k = ground (arith, (In-of_first (λ b. b.id == k) db.appointments e).1) in
        let changed =
          first-map (λ b. b.id == k) (λ b. if b.id == a.id then cancelled notes b else b)
            db.appointments (λ b. ground arith) in
        rw same (changed ∙ rw e (ground arith))
