-- ===== src/Appointments/Cancel.antt =====
-- `cancel_appointment` of backend/app/services/appointment_service.py.
use book_point.Appointments.Booking.{announce, update_appointment}
use book_point.Base.{ℕ, Bool, true, false, Option, none, some, if◌then◌else◌}
use book_point.Base.Int.{ℤ}
use book_point.Base.Text.{Text, or_text}
use book_point.Models.{Appointment, AppointmentStatus, Database, booking_canceled}
use book_point.Payments.Refunds.{RefundProvider, process_refund_for_cancellation}
use book_point.Repositories.{get_appointment, get_provider}
use book_point.Results.{Result, appointment_not_found, err, not_cancellable, ok, provider_not_found}

abbrev pub is_cancelled : AppointmentStatus → Bool
is_cancelled AppointmentStatus.cancelled = true
is_cancelled _ = false

-- COMPLETED and NO_SHOW
abbrev pub is_over : AppointmentStatus → Bool
is_over AppointmentStatus.completed = true
is_over AppointmentStatus.no_show = true
is_over _ = false

abbrev pub cancelled : Option Text → Appointment → Appointment
cancelled notes a = record a { status = AppointmentStatus.cancelled; notes = or_text notes a.notes }

-- The commit of the cancellation, with its effects.
unfoldable pub commit_cancellation : Option Text → Appointment → Database → Database
commit_cancellation notes a db = record db {
  appointments = update_appointment a.id (cancelled notes) db.appointments;
  log = announce booking_canceled a.id db.log;
}

-- An exception of the refund is logged and dropped, so only its database is kept.
abbrev pub refund_after :
    RefundProvider → Option Text → Appointment → ℤ → Database → Result Appointment × Database
refund_after provider notes a now db = (
  ok (cancelled notes a),
  (process_refund_for_cancellation provider (cancelled notes a) now
      (commit_cancellation notes a db)).1,
)

abbrev pub cancel_found :
    RefundProvider → Option Text → ℤ → Option Appointment → Database → Result Appointment × Database
cancel_found provider notes now none db = (err appointment_not_found, db)
cancel_found provider notes now (some a) db = elim (get_provider db.directory a.provider_id) [
  | none ↦ (err provider_not_found, db)
  | some p ↦
      if is_cancelled a.status
      then (ok a, db)
      else if is_over a.status
      then (err not_cancellable, db)
      else refund_after provider notes a now db
]

unfoldable pub cancel_appointment :
    RefundProvider → ℕ → Option Text → ℤ → Database → Result Appointment × Database
unfolding process_refund_for_cancellation commit_cancellation
cancel_appointment provider appointment_id notes now db =
    cancel_found provider notes now (get_appointment db.appointments appointment_id) db
