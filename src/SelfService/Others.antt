-- ===== src/SelfService/Others.antt =====
-- What a request to backend/app/services/customer_self_service_booking_service.py does to the
-- bookings of other customers.
use book_point.Appointments.Apart.{IsConsistent}
use book_point.Appointments.Booking.{moved_appointment, reschedule_appointment, update_appointment}
use book_point.Appointments.Cancel.{
  cancel_appointment, cancel_found, cancelled, commit_cancellation, is_cancelled, is_over,
}
use book_point.Appointments.Cancelled.{Sound}
use book_point.Appointments.Move.{reschedule_appointment-IsConsistent}
use book_point.Appointments.Refunded.{process_refund-bookings}
use book_point.Base.{
  ℕ, ◌≡◌, refl, sym, ◌∙◌, ap, subst, false, Option, some, inl, inr, List, [], ◌∷◌, ◌==◌, ==_iff,
  Bool-cases, Option-cases, In-of_first, arith, if◌then◌else◌,
}
use book_point.Base.Int.{ℤ}
use book_point.Base.Text.{Text}
use book_point.Models.{Appointment, Database, is_reschedulable}
use book_point.Payments.Refunds.{RefundProvider}
use book_point.Repositories.{get_appointment, get_provider}
use book_point.Results.{Result-cases, ok, >>=-eq-ok, eq_of_ok, or_raise-eq-ok, require-eq-ok}
use book_point.Time.{Datetime, Zones, ensure_aware_utc}
use book_point.Appointments.Booking.{check_interval}

-- A change of one row leaves the rows of other ids.
update_other :
    (j k : ℕ) (f : Appointment → Appointment) (rows : List Appointment)
    → ¬ (j ≡ k)
    → ((a : Appointment) → a.id ≡ j → (f a).id ≡ j)
    → get_appointment (update_appointment j f rows) k ≡ get_appointment rows k
update_other j k f [] other own = refl
update_other j k f (a ∷ rows) other own = elim (Bool-cases (a.id == j)) [
  | inl y ↦
      let before : a.id ≡ j = (==_iff a.id j).0 y in
      let after : (f a).id ≡ j = own a before in
      let was : (a.id == k) ≡ false = ground arith in
      let is : ((f a).id == k) ≡ false = ground arith in
      rw (y, is, was) (update_other j k f rows other own)
  | inr n ↦ rw n (ap (λ o. if a.id == k then some a else o) (update_other j k f rows other own))
]

pub cancel_appointment-leaves_others :
    (provider : RefundProvider) (j k : ℕ) (notes : Option Text) (now : ℤ) (db : Database)
    → ¬ (j ≡ k)
    → get_appointment (cancel_appointment provider j notes now db).1.appointments k
      ≡ get_appointment db.appointments k
unfolding cancel_appointment commit_cancellation
cancel_appointment-leaves_others provider j k notes now db other =
    elim (Option-cases (get_appointment db.appointments j)) [
      | inl e ↦ rw e refl
      | inr (a, found) ↦ elim (Option-cases (get_provider db.directory a.provider_id)) [
        | inl e ↦ rw (found, cancel_found, e) refl
        | inr (p, e) ↦ elim (Bool-cases (is_cancelled a.status)) [
          | inl y ↦ rw (found, cancel_found, e, y) refl
          | inr n ↦ elim (Bool-cases (is_over a.status)) [
            | inl y ↦ rw (found, cancel_found, e, n, y) refl
            | inr m ↦
                let (_, same, _) =
                  process_refund-bookings provider (cancelled notes a) now
                    (commit_cancellation notes a db) in
                let own : a.id ≡ j =
                  (==_iff a.id j).0 (In-of_first (λ x. x.id == j) db.appointments found).1 in
                rw (found, cancel_found, e, n, m)
                  (ap (λ rows. get_appointment rows k) same
                    ∙ update_other a.id k (cancelled notes) db.appointments
                        (λ q. other (sym own ∙ q)) (λ _ i. i))
          ]
        ]
      ]
    ]

moved_appointment-id :
    (zones : Zones) (db : Database) (j : ℕ) (start : Datetime) (a : Appointment)
    → moved_appointment zones db j start ≡ ok a
    → a.id ≡ j
unfolding moved_appointment
moved_appointment-id zones db j start a e =
    let (begins, _, h₁) = >>=-eq-ok (ensure_aware_utc start) _ e in
    let (row, found, h₂) = or_raise-eq-ok (get_appointment db.appointments j) _ _ h₁ in
    let (_, h₃) = require-eq-ok (is_reschedulable row.status) _ _ h₂ in
    let (provider, _, h₄) = or_raise-eq-ok (get_provider db.directory row.provider_id) _ _ h₃ in
    let (_, h₅) = require-eq-ok provider.is_active _ _ h₄ in
    let (_, _, h₆) =
      >>=-eq-ok
        (check_interval zones db.directory db.appointments row.provider_id row.location_id
          row.service_id (some row.id) begins)
        _ h₅ in
    subst (λ (t : Appointment). t.id ≡ j) (eq_of_ok h₆)
      ((==_iff row.id j).0 (In-of_first (λ x. x.id == j) db.appointments found).1)

pub reschedule_appointment-leaves_others :
    (zones : Zones) (j k : ℕ) (start : Datetime) (db : Database)
    → ¬ (j ≡ k)
    → get_appointment (reschedule_appointment zones j start db).1.appointments k
      ≡ get_appointment db.appointments k
unfolding reschedule_appointment
reschedule_appointment-leaves_others zones j k start db other =
    elim (Result-cases (moved_appointment zones db j start)) [
      | inl (e, q) ↦ rw q refl
      | inr (a, q) ↦
          let own = moved_appointment-id zones db j start a q in
          rw q
            (update_other a.id k (λ _. a) db.appointments (λ r. other (sym own ∙ r)) (λ _ _. refl))
    ]

pub reschedule_appointment-Sound :
    (zones : Zones) (j : ℕ) (start : Datetime) (db : Database)
    → Sound db
    → Sound (reschedule_appointment zones j start db).1
unfolding reschedule_appointment
reschedule_appointment-Sound zones j start db (c, keyed, r) =
    elim (Result-cases (moved_appointment zones db j start)) [
      | inl (e, q) ↦ rw q (c, keyed, r)
      | inr (a, q) ↦
          let kept : IsConsistent (reschedule_appointment zones j start db).1 =
            reschedule_appointment-IsConsistent zones j start db c in
          (
            kept,
            rw q (record { below = keyed.below; distinct = keyed.distinct }),
            rw q (record { fresh = r.fresh; covered = r.covered }),
          )
    ]
