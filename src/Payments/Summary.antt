-- ===== src/Payments/Summary.antt =====
-- `get_customer_payment_summary` of backend/app/services/payments/service.py.
use book_point.Base.{
  ℕ, Bool, true, false, not, Option, none, some, List, [], ◌∷◌, ltb, ◌==◌, if◌then◌else◌,
}
use book_point.Base.Int.{ℤ, ◌+ℤ◌}
use book_point.Base.Text.{Text, upper}
use book_point.Models.{Appointment, Database, Payment, PaymentStatus, Refund, RefundStatus, Service}
use book_point.Payments.Policy.{required_amount_minor}
use book_point.Payments.RefundPolicy.{service_of}
use book_point.Payments.Rows.{get_latest_payment_for_appointment, is_open_payment}
use book_point.Results.{Result, ok, ◌>>=◌}
use book_point.Time.{minutes}

pub record PaymentSummary : Type 0 where
  pub payment_required : Bool
  pub payment_status : Option PaymentStatus
  pub amount_due_minor : Option ℕ
  pub currency : Option Text
  pub checkout_url : Option Text
  pub checkout_session_id : Option Text
  pub provider_name : Option Text
  pub expires_at : Option ℤ
  pub refund_status : Option RefundStatus
  pub refund_amount_minor : Option ℕ
  pub refund_processed_at : Option ℤ

-- The refund of the highest id, which is the one created last.
abbrev pub later_refund : Refund → Option Refund → Option Refund
later_refund r none = some r
later_refund r (some s) = if ltb s.id r.id then some r else some s

unfoldable pub get_latest_refund_for_payment : List Refund → ℕ → Option Refund
get_latest_refund_for_payment [] k = none
get_latest_refund_for_payment (r ∷ refunds) k =
    let latest = get_latest_refund_for_payment refunds k in
    if r.payment_id == k then later_refund r latest else latest

-- `_pending_expires_at`, of a setting in minutes.
unfoldable pub pending_expires_at : ℕ → Payment → ℤ
pending_expires_at expiration_minutes payment = payment.created_at +ℤ minutes expiration_minutes

abbrev pub free_summary : PaymentSummary
free_summary = record {
  payment_required = false;
  payment_status = none;
  amount_due_minor = none;
  currency = none;
  checkout_url = none;
  checkout_session_id = none;
  provider_name = none;
  expires_at = none;
  refund_status = none;
  refund_amount_minor = none;
  refund_processed_at = none;
}

-- `service.currency.upper() if service.currency else None`
abbrev pub upper_or_none : Option Text → Option Text
upper_or_none none = none
upper_or_none (some []) = none
upper_or_none (some (c ∷ s)) = some (upper (c ∷ s))

abbrev pub unpaid_summary : Service → ℕ → PaymentSummary
unpaid_summary service amount_minor = record free_summary {
  payment_required = true;
  amount_due_minor = some amount_minor;
  currency = upper_or_none service.currency;
}

abbrev pub with_refund : Option Refund → PaymentSummary → PaymentSummary
with_refund none summary = summary
with_refund (some r) summary = record summary {
  refund_status = some r.status;
  refund_amount_minor = some r.amount_minor;
  refund_processed_at = r.processed_at;
}

unfoldable pub payment_summary : ℕ → Payment → PaymentSummary
unfolding pending_expires_at
payment_summary expiration_minutes payment = record {
  payment_required = true;
  payment_status = some payment.status;
  amount_due_minor = some payment.amount_minor;
  currency = some payment.currency;
  checkout_url = if is_open_payment payment.status then payment.provider_checkout_url else none;
  checkout_session_id = payment.provider_checkout_session_id;
  provider_name = some payment.provider_name;
  expires_at =
      if is_open_payment payment.status
      then some (pending_expires_at expiration_minutes payment)
      else none;
  refund_status = none;
  refund_amount_minor = none;
  refund_processed_at = none;
}

unfoldable pub summary_of_latest : ℕ → Database → Service → ℕ → Option Payment → PaymentSummary
unfolding payment_summary get_latest_refund_for_payment
summary_of_latest expiration_minutes db service amount_minor none =
    unpaid_summary service amount_minor
summary_of_latest expiration_minutes db service amount_minor (some payment) =
    with_refund (get_latest_refund_for_payment db.refunds payment.id)
      (payment_summary expiration_minutes payment)

unfoldable pub summary_of_service :
    ℕ → Database → Appointment → Option Service → Result PaymentSummary
unfolding summary_of_latest required_amount_minor get_latest_payment_for_appointment
summary_of_service expiration_minutes db appointment none = ok free_summary
summary_of_service expiration_minutes db appointment (some service) =
    let paid = (do
      amount_minor ← required_amount_minor service
      ok (
          summary_of_latest expiration_minutes db service amount_minor
            (get_latest_payment_for_appointment db.payments appointment.id))) in
    if not service.requires_payment then ok free_summary else paid

unfoldable pub get_customer_payment_summary : ℕ → Database → Appointment → Result PaymentSummary
unfolding summary_of_service
get_customer_payment_summary expiration_minutes db appointment =
    summary_of_service expiration_minutes db appointment (service_of db appointment)
