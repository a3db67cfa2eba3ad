-- ===== src/Payments/Status.antt =====
-- `mark_payment_status` of backend/app/services/payments/service.py.
use book_point.Base.{Bool, true, false, not, ◌&&◌, Option, none, some, List, [], ◌∷◌, if◌then◌else◌}
use book_point.Appointments.Booking.{update_appointment}
use book_point.Base.Int.{ℤ}
use book_point.Base.Text.{Text, codes, eq_text, or_text}
use book_point.Models.{
  Appointment, AppointmentStatus, Database, Effect, EffectKind, Payment, PaymentStatus,
  booking_canceled, count, earning_created, event, notify, payment_confirmed, payment_failed,
}
use book_point.Payments.Earnings.{ensure_earning_for_payment}
use book_point.Payments.Rows.{get_by_checkout_session_id, get_by_payment_intent_id, update_payment}
use book_point.Payments.Transaction.{Tx, ◌>>=◌, ◌>>◌, gets, modify, or_raise, pure, transact}
use book_point.Repositories.{get_appointment}
use book_point.Results.{
  Result, appointment_not_found, err, ok, payment_identifier_required, payment_not_found,
}

-- The name of the provider, the new status, and what identifies the payment.
pub record StatusUpdate : Type 0 where
  pub provider_name : Text
  pub status : PaymentStatus
  pub provider_checkout_session_id : Option Text
  pub provider_payment_intent_id : Option Text

abbrev pub known_by : Text → Option Payment → Result Payment
known_by provider_name none = err payment_not_found
known_by provider_name (some p) =
    if eq_text p.provider_name provider_name then ok p else err payment_not_found

-- An identifier that is empty counts as absent.
abbrev pub resolve_by_intent : List Payment → Text → Option Text → Result Payment
resolve_by_intent payments provider_name none = err payment_identifier_required
resolve_by_intent payments provider_name (some []) = err payment_identifier_required
resolve_by_intent payments provider_name (some (c ∷ t)) =
    known_by provider_name (get_by_payment_intent_id payments (c ∷ t))

abbrev pub resolve_payment : List Payment → Text → Option Text → Option Text → Result Payment
resolve_payment payments provider_name none intent = resolve_by_intent payments provider_name intent
resolve_payment payments provider_name (some []) intent =
    resolve_by_intent payments provider_name intent
resolve_payment payments provider_name (some (c ∷ t)) intent =
    known_by provider_name (get_by_checkout_session_id payments (c ∷ t))

-- `_resolve_payment_for_status_update`
unfoldable pub resolve_payment_for_status_update : List Payment → StatusUpdate → Result Payment
resolve_payment_for_status_update payments u =
    resolve_payment payments u.provider_name u.provider_checkout_session_id
      u.provider_payment_intent_id

abbrev pub same_status : PaymentStatus → PaymentStatus → Bool
same_status PaymentStatus.pending PaymentStatus.pending = true
same_status PaymentStatus.requires_action PaymentStatus.requires_action = true
same_status PaymentStatus.succeeded PaymentStatus.succeeded = true
same_status PaymentStatus.failed PaymentStatus.failed = true
same_status PaymentStatus.canceled PaymentStatus.canceled = true
same_status PaymentStatus.refunded PaymentStatus.refunded = true
same_status _ _ = false

-- SUCCEEDED and REFUNDED: the money has come in.
abbrev pub is_paid : PaymentStatus → Bool
is_paid PaymentStatus.succeeded = true
is_paid PaymentStatus.refunded = true
is_paid _ = false

-- `_cancel_pending_payment_appointment`, on the row: what becomes of it, and whether it is cancelled.
abbrev pub is_pending_payment : AppointmentStatus → Bool
is_pending_payment AppointmentStatus.pending_payment = true
is_pending_payment _ = false

abbrev pub cancel_with : Text → Appointment → Appointment
cancel_with reason_note a = record a {
  status = AppointmentStatus.cancelled;
  notes = or_text a.notes (some reason_note);
}

unfoldable pub cancel_pending_payment_appointment : Appointment → Text → Tx Bool
cancel_pending_payment_appointment appointment reason_note =
    if not (is_pending_payment appointment.status) then pure false else (do
      modify (λ db. record db {
        appointments = update_appointment appointment.id (cancel_with reason_note) db.appointments;
      })
      pure true)

abbrev pub awaits_payment : AppointmentStatus → Bool
awaits_payment AppointmentStatus.pending_payment = true
awaits_payment AppointmentStatus.pending = true
awaits_payment _ = false

abbrev pub confirm : Appointment → Appointment
confirm a = if awaits_payment a.status then record a { status = AppointmentStatus.confirmed } else a

-- Whether an earning was created, and whether the appointment was cancelled.
pub record StatusChange : Type 0 where
  pub earning_created : Bool
  pub auto_cancelled : Bool

-- The part of the transaction that depends on the status, of the updated payment.
abbrev pub follow_status : PaymentStatus → Payment → Appointment → Tx StatusChange
follow_status PaymentStatus.succeeded payment appointment = do
  modify
      (λ db. record db { appointments = update_appointment appointment.id confirm db.appointments })
  (_, created) ← ensure_earning_for_payment payment (confirm appointment)
  pure (record { earning_created = created; auto_cancelled = false })
follow_status PaymentStatus.failed payment appointment = do
  cancelled ←
      cancel_pending_payment_appointment appointment
        (codes "Auto-cancelled due to unsuccessful payment.")
  pure (record { earning_created = false; auto_cancelled = cancelled })
follow_status PaymentStatus.canceled payment appointment = do
  cancelled ←
      cancel_pending_payment_appointment appointment
        (codes "Auto-cancelled due to unsuccessful payment.")
  pure (record { earning_created = false; auto_cancelled = cancelled })
follow_status _ payment appointment =
    pure (record { earning_created = false; auto_cancelled = false })

abbrev pub paid_at_of : PaymentStatus → ℤ → Option ℤ
paid_at_of PaymentStatus.succeeded now = some now
paid_at_of _ now = none

abbrev pub with_status : PaymentStatus → ℤ → Payment → Payment
with_status status now p = record p { status = status; paid_at = paid_at_of status now }

abbrev pub write_status : PaymentStatus → ℤ → Payment → Tx StatusChange
write_status status now payment = do
  modify (λ db. record db {
    payments = update_payment payment.id (with_status status now) db.payments;
  })
  appointments ← gets (λ db. db.appointments)
  appointment ← or_raise (get_appointment appointments payment.appointment_id) appointment_not_found
  follow_status status (with_status status now payment) appointment

-- The effects after the commit, the latest first.
abbrev pub announce_earning : Bool → Payment → List Effect → List Effect
announce_earning true p log =
    event earning_created p.id ∷ notify earning_created p.appointment_id ∷ log
announce_earning false p log = log

abbrev pub announce_payment : EffectKind → Payment → List Effect → List Effect
announce_payment kind p log = event kind p.id ∷ count kind ∷ notify kind p.appointment_id ∷ log

abbrev pub announce_status : PaymentStatus → Payment → List Effect → List Effect
announce_status PaymentStatus.succeeded p log = announce_payment payment_confirmed p log
announce_status PaymentStatus.failed p log = announce_payment payment_failed p log
announce_status PaymentStatus.canceled p log = announce_payment payment_failed p log
announce_status _ p log = log

abbrev pub announce_cancelled : Bool → Payment → List Effect → List Effect
announce_cancelled true p log = notify booking_canceled p.appointment_id ∷ log
announce_cancelled false p log = log

abbrev pub announce_change : PaymentStatus → Payment → StatusChange → Tx Payment
announce_change status payment change = do
  modify (λ db. record db {
    log =
        announce_cancelled change.auto_cancelled payment
          (announce_status status payment (announce_earning change.earning_created payment db.log));
  })
  pure payment

abbrev pub update_status : PaymentStatus → ℤ → Payment → Database → Result Payment × Database
update_status status now payment db =
    if same_status payment.status status
    then (ok payment, db)
    else if is_paid payment.status && not (is_paid status)
    then (ok payment, db)
    else transact
        (do
          change ← write_status status now payment
          announce_change status (with_status status now payment) change)
        db

abbrev pub update_resolved :
    PaymentStatus → ℤ → Result Payment → Database → Result Payment × Database
update_resolved status now (err e) db = (err e, db)
update_resolved status now (ok payment) db = update_status status now payment db

unfoldable pub mark_payment_status : StatusUpdate → ℤ → Database → Result Payment × Database
unfolding resolve_payment_for_status_update ensure_earning_for_payment
    cancel_pending_payment_appointment
mark_payment_status u now db =
    update_resolved u.status now (resolve_payment_for_status_update db.payments u) db
