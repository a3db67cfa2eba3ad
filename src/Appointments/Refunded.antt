-- ===== src/Appointments/Refunded.antt =====
-- What the refund of a cancellation does to the bookings
-- (backend/app/services/payments/refund_service.py).
use book_point.Base.{
  ℕ, ◌≤◌, ◌≡◌, refl, sym, subst, Bool, true, false, not, Option, none, some, inl, inr, List, [],
  ◌∷◌, ◌==◌, In, All_of_In, ltb, ◌||◌, Bool-cases, Option-cases, arith, if◌then◌else◌, ◌&&◌, leb,
}
use book_point.Base.Int.{ℤ, eq_ℤ, ltb_ℤ, pos, pos_part}
use book_point.Base.Text.{Text}
use book_point.Models.{Appointment, Database, Payment, Refund, PaymentStatus}
use book_point.Payments.Earnings.{apply_refund_adjustment_for_payment}
use book_point.Payments.Paid.{Distinct}
use book_point.Payments.RefundPolicy.{calculate_refund_amount, is_refundable}
use book_point.Payments.Refunds.{
  RefundProvider, commit_refund_failed, commit_refund_succeeded, create_refund, new_refund,
  open_refund, process_refund_for_cancellation, refund_latest, settle_payment, succeed_refund,
}
use book_point.Payments.Refunds.Outcomes.{create_refund-outcome}
use book_point.Payments.Rows.{
  get_earning_of_payment, get_latest_payment_for_appointment, get_payment, later_payment,
  update_refund, update_payment, sum_succeeded_amount_for_payment,
}
use book_point.Results.{ok}

-- The bookings are as before, and no id has been freed.
abbrev pub SameBookings : Database → Database → Type 0
SameBookings db db' =
    (db'.directory ≡ db.directory)
    × (db'.appointments ≡ db.appointments)
    × (db.next_id ≤ db'.next_id)

pub adjustment-bookings :
    (k amount : ℕ) (db : Database)
    → SameBookings db (apply_refund_adjustment_for_payment k amount db)
unfolding apply_refund_adjustment_for_payment
adjustment-bookings k amount db = elim (Option-cases (get_earning_of_payment db.earnings k)) [
  | inl e ↦ rw e (refl, refl, omega arith)
  | inr (a, e) ↦ rw e (refl, refl, omega arith)
]

pub settle_payment-bookings :
    (r : Refund) (o : Option Payment) (db : Database) → SameBookings db (settle_payment r o db)
settle_payment-bookings r none db = (refl, refl, omega arith)
settle_payment-bookings r (some p) db = adjustment-bookings p.id r.amount_minor (record db {
  payments =
      if leb p.amount_minor (sum_succeeded_amount_for_payment db.refunds p.id)
      then update_payment p.id (λ p. record p { status = PaymentStatus.refunded }) db.payments
      else db.payments;
})

pub create_refund-bookings :
    (provider : RefundProvider) (payment : Payment) (amount_minor now : ℤ) (db : Database)
    → SameBookings db (create_refund provider payment amount_minor now db).1
unfolding open_refund commit_refund_failed commit_refund_succeeded
create_refund-bookings provider payment amount_minor now db =
    create_refund-outcome payment amount_minor now db (SameBookings db) provider
      (refl, refl, omega arith) (λ w. (refl, refl, omega arith))
      (λ reference w. succeeded reference) (λ w. (refl, refl, omega arith))
  where
    new : Refund
    new = new_refund db.next_id payment (pos_part amount_minor)

    opened : Database
    opened = open_refund payment (pos_part amount_minor) db

    succeeded :
        (reference : Text)
        → SameBookings db (commit_refund_succeeded (some reference) now new opened)
    succeeded reference =
        let db1 = record opened {
          refunds = update_refund new.id (succeed_refund (some reference) now) opened.refunds;
        } in
        let (d, a, n) = settle_payment-bookings new (get_payment opened.payments payment.id) db1 in
        (d, a, omega arith)

-- The latest payment is one of the table's, which its id finds.
pub In-of_latest :
    (payments : List Payment) (k : ℕ) {p : Payment}
    → get_latest_payment_for_appointment payments k ≡ some p
    → In p payments
unfolding get_latest_payment_for_appointment
In-of_latest [] k e = cc
In-of_latest (x ∷ payments) k {p} e = elim (Bool-cases (x.appointment_id == k)) [
  | inr n ↦ inr (In-of_latest payments k (rw n at e))
  | inl y ↦
      among (get_latest_payment_for_appointment payments k) (λ z r. In-of_latest payments k r)
        (rw y at e)
]
  where
    among :
        (o : Option Payment)
        → ((z : Payment) → o ≡ some z → In z payments)
        → later_payment x o ≡ some p
        → In p (x ∷ payments)
    among none ih q = let x_is : x ≡ p = cc in inl (sym x_is)
    among (some z) ih q =
        either
          (ltb_ℤ z.created_at x.created_at || (eq_ℤ z.created_at x.created_at && ltb z.id x.id))
          (ih z refl) q
      where
        either :
            (b : Bool)
            → In z payments
            → (if b then some x else some z) ≡ some p
            → In p (x ∷ payments)
        either true i r = let x_is : x ≡ p = cc in inl (sym x_is)
        either false i r = let z_is : z ≡ p = cc in inr (subst (λ w. In w payments) z_is i)

pub get_payment_of_In :
    (payments : List Payment) (p : Payment)
    → Distinct payments
    → In p payments
    → get_payment payments p.id ≡ some p
get_payment_of_In [] p d i = absurd i
get_payment_of_In (x ∷ payments) p d (inl e) = rw e (ground arith)
get_payment_of_In (x ∷ payments) p d (inr i) =
    let other = All_of_In (λ q. (q.id == x.id) ≡ false) payments d.0 p i in
    let differs : (x.id == p.id) ≡ false = ground arith in
    rw differs (get_payment_of_In payments p d.1 i)

pub refund_latest-outcome :
    (P : Database → Type 0) (provider : RefundProvider) (a : Appointment) (now : ℤ) (p : Payment)
    (db : Database)
    → P db
    → P (create_refund provider p (pos (calculate_refund_amount db a p now)) now db).1
    → P (refund_latest provider a now (some p) db).1
refund_latest-outcome P provider a now p db h k =
    by_tests (is_refundable p.status) (calculate_refund_amount db a p now == 0)
  where
    by_tests :
        (allowed zero : Bool)
        → P
            (if not allowed
              then (ok tt, db)
              else if zero
              then (ok tt, db)
              else create_refund provider p (pos (calculate_refund_amount db a p now)) now db).1
    by_tests false zero = h
    by_tests true true = h
    by_tests true false = k

pub process_refund-bookings :
    (provider : RefundProvider) (a : Appointment) (now : ℤ) (db : Database)
    → SameBookings db (process_refund_for_cancellation provider a now db).1
unfolding process_refund_for_cancellation
process_refund-bookings provider a now db =
    by_payment (get_latest_payment_for_appointment db.payments a.id)
  where
    by_payment : (o : Option Payment) → SameBookings db (refund_latest provider a now o db).1
    by_payment none = (refl, refl, omega arith)
    by_payment (some p) =
        refund_latest-outcome (SameBookings db) provider a now p db (refl, refl, omega arith)
          (create_refund-bookings provider p (pos (calculate_refund_amount db a p now)) now db)
