-- ===== src/SelfService.antt =====
-- backend/app/services/customer_self_service_booking_service.py. The column `booking_access_token` is
-- drawn at random when a row is made and never changes: `tokens` gives the token of each id.
pub mod Guarded
pub mod Others
pub mod Requests
pub mod Tests
use book_point.Appointments.Booking.{reschedule_appointment}
use book_point.Appointments.Cancel.{cancel_appointment, is_cancelled}
use book_point.Base.{
  ℕ, Bool, true, false, ◌&&◌, Option, none, some, List, [], ◌∷◌, ltb, if◌then◌else◌,
}
use book_point.Base.Int.{ℤ, ltb_ℤ}
use book_point.Base.Text.{Text, eq_text, strip}
use book_point.Customers.Resolve.{is_empty_text}
use book_point.Models.{Appointment, Database}
use book_point.Payments.Refunds.{RefundProvider}
use book_point.Payments.Summary.{PaymentSummary, get_customer_payment_summary}
use book_point.Repositories.{get_appointment}
use book_point.Results.{
  Result, ok, err, ◌>>=◌, ◌>>◌, or_raise, raise_if, require, already_cancelled, booking_not_found,
  start_not_in_future, token_not_ascii,
}
use book_point.Time.{Datetime, Zones, aware, ensure_aware_utc}

abbrev pub Tokens : Type 0
Tokens = ℕ → Text

abbrev pub is_ascii : Text → Bool
is_ascii [] = true
is_ascii (c ∷ s) = ltb c 128 && is_ascii s

-- `_get_booking_or_404`; `secrets.compare_digest` refuses text that is not ASCII.
unfoldable pub get_booking_or_404 : Tokens → List Appointment → ℕ → Text → Result Appointment
unfolding strip
get_booking_or_404 tokens appointments booking_id access_token = do
  raise_if (is_empty_text (strip access_token)) booking_not_found
  appointment ← or_raise (get_appointment appointments booking_id) booking_not_found
  require (is_ascii (tokens appointment.id) && is_ascii access_token) token_not_ascii
  require (eq_text (tokens appointment.id) access_token) booking_not_found
  ok appointment

-- `_build_summary`, without the names of the rows that the appointment refers to.
abbrev pub BookingSummary : Type 0
BookingSummary = Appointment × PaymentSummary

unfoldable pub build_summary : ℕ → Database → Appointment → Result BookingSummary
unfolding get_customer_payment_summary
build_summary expiration_minutes db appointment = do
  payment ← get_customer_payment_summary expiration_minutes db appointment
  ok (appointment, payment)

-- The summary of what a handler of the appointment service gives.
unfoldable pub summarize_result :
    ℕ → Result Appointment × Database → Result BookingSummary × Database
unfolding build_summary
summarize_result expiration_minutes (err e, db) = (err e, db)
summarize_result expiration_minutes (ok appointment, db) =
    (build_summary expiration_minutes db appointment, db)

unfoldable pub get_booking : Tokens → ℕ → ℕ → Text → Database → Result BookingSummary
unfolding get_booking_or_404 build_summary
get_booking tokens expiration_minutes booking_id access_token db = do
  appointment ← get_booking_or_404 tokens db.appointments booking_id access_token
  build_summary expiration_minutes db appointment

unfoldable pub cancel_opened :
    RefundProvider → ℕ → ℤ → Result Appointment → Database → Result BookingSummary × Database
unfolding cancel_appointment summarize_result
cancel_opened provider expiration_minutes now (err e) db = (err e, db)
cancel_opened provider expiration_minutes now (ok appointment) db =
    if is_cancelled appointment.status
    then (err already_cancelled, db)
    else summarize_result expiration_minutes
        (cancel_appointment provider appointment.id none now db)

unfoldable pub cancel_booking :
    Tokens → RefundProvider → ℕ → ℕ → Text → ℤ → Database → Result BookingSummary × Database
unfolding get_booking_or_404 cancel_opened
cancel_booking tokens provider expiration_minutes booking_id access_token now db =
    cancel_opened provider expiration_minutes now
      (get_booking_or_404 tokens db.appointments booking_id access_token) db

-- The checks of a reschedule: the row, and the new start in UTC.
unfoldable pub check_reschedule :
    Tokens → List Appointment → ℕ → Text → Datetime → ℤ → Result (Appointment × ℤ)
unfolding get_booking_or_404 ensure_aware_utc
check_reschedule tokens appointments booking_id access_token scheduled_start now = do
  appointment ← get_booking_or_404 tokens appointments booking_id access_token
  start ← ensure_aware_utc scheduled_start
  require (ltb_ℤ now start) start_not_in_future
  ok (appointment, start)

unfoldable pub reschedule_checked :
    Zones → ℕ → Result (Appointment × ℤ) → Database → Result BookingSummary × Database
unfolding reschedule_appointment summarize_result
reschedule_checked zones expiration_minutes (err e) db = (err e, db)
reschedule_checked zones expiration_minutes (ok (appointment, start)) db =
    summarize_result expiration_minutes
      (reschedule_appointment zones appointment.id (aware start) db)

unfoldable pub reschedule_booking :
    Tokens → Zones → ℕ → ℕ → Text → Datetime → ℤ → Database → Result BookingSummary × Database
unfolding check_reschedule reschedule_checked
reschedule_booking tokens zones expiration_minutes booking_id access_token scheduled_start now db =
    reschedule_checked zones expiration_minutes
      (check_reschedule tokens db.appointments booking_id access_token scheduled_start now) db
