-- ===== src/Appointments/Tests.antt =====
-- Bookings, moves and cancellations on the sample of the tests.
use book_point.Appointments.Apart.{IsConsistent, create_appointment-IsConsistent}
use book_point.Appointments.Booking.{check_interval, create_appointment, reschedule_appointment}
use book_point.Appointments.Cancel.{cancel_appointment, cancelled}
use book_point.Appointments.Cancelled.{Sound, cancel_appointment-Sound, cancel_appointment-cancels}
use book_point.Appointments.Move.{reschedule_appointment-IsConsistent}
use book_point.Base.{◌≡◌, refl, arith, Bool, true, false, none, some}
use book_point.Base.Int.{pos, ◌+ℤ◌, ◌-ℤ◌}
use book_point.Base.Text.{codes}
use book_point.Payments.Refunds.{mock_refund_provider}
use book_point.Payments.Rows.{sum_succeeded_amount_for_payment}
use book_point.Repositories.{get_appointment}
use book_point.Results.{Result, ok, err, overlapping_appointment}
use book_point.Samples.{appointment, at_minute, database, payload, provider, zones}
use book_point.Scheduling.Slots.{get_available_slots}
use book_point.Scheduling.Slots.Window.{window_fuel}
use book_point.Time.{as_utc, aware}

database-IsConsistent : IsConsistent database
database-IsConsistent = (omega arith, refl, tt, tt)

create_appointment-IsConsistent_example : IsConsistent (create_appointment zones payload database).1
create_appointment-IsConsistent_example =
    create_appointment-IsConsistent zones payload database database-IsConsistent

reschedule_appointment-IsConsistent_example :
    IsConsistent (reschedule_appointment zones 7 (aware (at_minute 605)) database).1
reschedule_appointment-IsConsistent_example =
    reschedule_appointment-IsConsistent zones 7 (aware (at_minute 605)) database
      database-IsConsistent

database-Sound : Sound database
unfolding sum_succeeded_amount_for_payment
database-Sound = (
  database-IsConsistent,
  record { below = (omega arith, tt); distinct = (tt, tt) },
  record { fresh = tt; covered = λ k p e. omega arith },
)

cancel_appointment-Sound_example :
    Sound (cancel_appointment (mock_refund_provider (codes "a")) 7 none (pos 0) database).1
cancel_appointment-Sound_example =
    cancel_appointment-Sound (mock_refund_provider (codes "a")) 7 none (pos 0) database
      database-Sound

cancel_appointment-cancels_example :
    let (result, db') =
      cancel_appointment (mock_refund_provider (codes "a")) 7 none (pos 0) database in
    (result ≡ ok (cancelled none appointment))
    × (get_appointment db'.appointments 7 ≡ some (cancelled none appointment))
cancel_appointment-cancels_example =
    cancel_appointment-cancels (mock_refund_provider (codes "a")) 7 none (pos 0) database
      appointment provider refl refl refl

abbrev is_ok : {A : Type 0} → Result A → Bool
is_ok (ok a) = true
is_ok (err e) = false

booked : is_ok (create_appointment zones payload database).0 ≡ true
unfolding create_appointment check_interval get_available_slots window_fuel as_utc ◌+ℤ◌ ◌-ℤ◌
booked = refl

-- The booking that stands at 9:05 blocks 9:35, whose buffer begins at 9:30.
refused :
    (create_appointment zones
      (record payload { start_datetime = aware (at_minute 575) })
      database).0
    ≡ err overlapping_appointment
unfolding create_appointment check_interval as_utc ◌+ℤ◌ ◌-ℤ◌
refused = refl

moved : is_ok (reschedule_appointment zones 7 (aware (at_minute 605)) database).0 ≡ true
unfolding reschedule_appointment get_available_slots window_fuel as_utc ◌+ℤ◌ ◌-ℤ◌
moved = refl
