-- ===== src/Discovery/Apart.antt =====
-- A public booking (backend/app/services/discovery_service.py) keeps the appointments apart, whatever
-- its steps answer.
use book_point.Appointments.Apart.{IsConsistent, create_appointment-IsConsistent}
use book_point.Appointments.Booking.{create_appointment}
use book_point.Appointments.Release.{Eased-refl, IsBooked-Eased}
use book_point.Base.{ℕ, ◌≡◌, refl, Option, none, some, inl, inr, Bool-cases, arith}
use book_point.Base.Int.{ℤ}
use book_point.Base.Text.{Text, codes, eq_text}
use book_point.Customers.Resolve.{resolve_or_create_customer}
use book_point.Customers.Unique.{Harmless, SameBookings, resolve_or_create_customer-Resolved}
use book_point.Discovery.Booking.{
  BookingContext, DiscoveryBookingCreate, book, book_checked, booking_request, check_booking,
  checkout_booking, create_public_booking, summarize,
}
use book_point.Models.{Appointment, BookingChannel, Customer, Database, Payment, Service}
use book_point.Payments.Checkout.{
  CheckoutProvider, checkout_of, checkout_service, create_checkout_session_for_appointment,
  is_empty, new_payment, open_session, upper_currency,
}
use book_point.Payments.Policy.{required_amount_minor}
use book_point.Payments.RefundPolicy.{service_of}
use book_point.Payments.Transaction.{Post, ◌>>=◌, bind-Post, pure, transact-Post}
use book_point.Results.{Result, Result-cases, ok, err}

Same-refl : (db : Database) → SameBookings db db
Same-refl db = (refl, refl, omega arith)

IsConsistent-Same : (db db' : Database) → SameBookings db db' → IsConsistent db → IsConsistent db'
IsConsistent-Same db db' (d, a, n) h =
    rw (d, a)
      (IsBooked-Eased db.directory db.next_id db'.next_id db.appointments db.appointments n
        (Eased-refl db.appointments) h)

open_session-Same :
    (provider : CheckoutProvider) (payment : Payment) (before db : Database)
    → SameBookings before db
    → Post (SameBookings before) (open_session provider payment db)
open_session-Same provider payment before db (d, a, n) = elim (Result-cases (provider payment)) [
  | inl (e, q) ↦ rw q tt
  | inr (session, q) ↦ rw q (d, a, omega arith)
]

checkout_of-Same :
    (provider : CheckoutProvider) (appointment : Appointment) (service : Service) (now : ℤ)
    (db : Database) (amount : Result ℕ)
    → SameBookings db (checkout_of provider appointment service now db amount).1
checkout_of-Same provider appointment service now db (err e) = Same-refl db
checkout_of-Same provider appointment service now db (ok amount_minor) =
    elim (Bool-cases (is_empty (upper_currency service.currency))) [
      | inl y ↦ rw y (Same-refl db)
      | inr n ↦
          let payment = new_payment db.next_id appointment service amount_minor now in
          let P = SameBookings db in
          rw n (
            transact-Post P P (open_session provider payment >>= λ p. pure (some p)) db
              (Same-refl db) (λ _ h. h)
              (bind-Post P P (open_session provider payment) (λ p. pure (some p)) db
                (open_session-Same provider payment db db (Same-refl db)) (λ p db' h. h)))
    ]

checkout_service-Same :
    (provider : CheckoutProvider) (name : Text) (appointment : Appointment)
    (service : Option Service) (now : ℤ) (db : Database)
    → SameBookings db (checkout_service provider name appointment service now db).1
checkout_service-Same provider name appointment none now db = Same-refl db
checkout_service-Same provider name appointment (some service) now db =
    elim (Bool-cases service.requires_payment) [
      | inr n ↦ simp n (Same-refl db)
      | inl y ↦ elim (Bool-cases (eq_text name (codes "mock"))) [
        | inr m ↦ simp (y, m) (Same-refl db)
        | inl k ↦
            simp (y, k)
              (checkout_of-Same provider appointment service now db (required_amount_minor service))
      ]
    ]

pub create_checkout-Same :
    (provider : CheckoutProvider) (name : Text) (appointment : Appointment) (now : ℤ)
    (db : Database)
    → SameBookings db (create_checkout_session_for_appointment provider name appointment now db).1
unfolding create_checkout_session_for_appointment
create_checkout-Same provider name appointment now db =
    checkout_service-Same provider name appointment (service_of db appointment) now db

summarize-after :
    (context : BookingContext) (appointment : Appointment) (customer : Customer)
    (r : Result (Option Payment) × Database)
    → (summarize context appointment customer r).1 ≡ r.1
unfolding summarize
summarize-after context appointment customer (ok p, db) = refl
summarize-after context appointment customer (err e, db) = refl

-- The checkout and the summary leave the appointment that was made.
pub checkout_booking-Same :
    (context : BookingContext) (service : Service) (now : ℤ) (customer : Customer)
    (r : Result Appointment × Database)
    → SameBookings r.1 (checkout_booking context service now customer r).1
unfolding checkout_booking
checkout_booking-Same context service now customer (err e, db) = Same-refl db
checkout_booking-Same context service now customer (ok appointment, db) =
    elim (Bool-cases service.requires_payment) [
      | inl y ↦
          rw
            (
              y,
              summarize-after context appointment customer (
                  create_checkout_session_for_appointment context.checkout (codes "mock")
                    appointment now db),
            )
            (create_checkout-Same context.checkout (codes "mock") appointment now db)
      | inr n ↦ rw (n, summarize-after context appointment customer (ok none, db)) (Same-refl db)
    ]

module _ (context : BookingContext) (payload : DiscoveryBookingCreate)
    (booking_channel : BookingChannel) where
  book-IsConsistent :
      (service : Service) (start now : ℤ) (r : Result Customer × Database)
      → IsConsistent r.1
      → IsConsistent (book context payload booking_channel service start now r).1
  unfolding book
  book-IsConsistent service start now (err e, db) h = h
  book-IsConsistent service start now (ok customer, db) h =
      let request = booking_request payload booking_channel service start customer in
      let made = create_appointment context.zones request db in
      IsConsistent-Same made.1 (checkout_booking context service now customer made).1
        (checkout_booking-Same context service now customer made)
        (create_appointment-IsConsistent context.zones request db h)

  book_checked-IsConsistent :
      (now : ℤ) (checked : Result (Service × ℤ)) (db : Database)
      → Harmless context.meanwhile
      → IsConsistent db
      → IsConsistent (book_checked context payload booking_channel now checked db).1
  unfolding book_checked
  book_checked-IsConsistent now (err e) db harmless h = h
  book_checked-IsConsistent now (ok (service, start)) db harmless h =
      let resolved =
        resolve_or_create_customer context.meanwhile payload.organization_id payload.customer_name
          payload.customer_phone payload.customer_email payload.preferred_language db in
      let (same, _, _) =
        resolve_or_create_customer-Resolved context.meanwhile payload.organization_id
          payload.customer_name payload.customer_phone payload.customer_email
          payload.preferred_language db harmless in
      book-IsConsistent service start now resolved (IsConsistent-Same db resolved.1 same h)

  -- From a consistent database `create_public_booking` leaves a consistent one on every branch and
  -- whatever the checkout provider answers, as long as other requests leave the bookings
  -- (`Harmless`).
  pub create_public_booking-IsConsistent :
      (now : ℤ) (db : Database)
      → Harmless context.meanwhile
      → IsConsistent db
      → IsConsistent (create_public_booking context payload booking_channel now db).1
  unfolding create_public_booking
  create_public_booking-IsConsistent now db harmless h =
      book_checked-IsConsistent now (check_booking db.directory payload now) db harmless h
