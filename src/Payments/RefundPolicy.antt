-- ===== src/Payments/RefundPolicy.antt =====
-- The amount that a cancellation returns, `calculate_refund_amount` of
-- backend/app/services/payments/refund_service.py.
pub mod Amount
use book_point.Base.{
  ℕ, suc, ◌+◌, ◌-◌, ◌*◌, min, max, Bool, true, false, not, ◌&&◌, ◌||◌, Option, none, some, List,
  ◌∷◌, ◌++◌, leb, ltb, ◌==◌, if◌then◌else◌,
}
use book_point.Base.Int.{ℤ, pos, pos_part, ◌+ℤ◌, leb_ℤ, ltb_ℤ}
use book_point.Base.Text.{Text, codes, eq_text, or_text}
use book_point.Models.{
  Appointment, CancellationPolicyType, Database, Effect, EffectKind, Payment, PaymentStatus,
  PaymentType, Refund, RefundStatus, Service, count, event, flexible, moderate, notify, strict,
  refund_failed, refund_initiated, refund_succeeded,
}
use book_point.Payments.Earnings.{apply_refund_adjustment_for_payment}
use book_point.Payments.Rounding.{round_half_up}
use book_point.Payments.Rows.{
  get_latest_payment_for_appointment, get_payment, get_refund, sum_succeeded_amount_for_payment,
  update_payment, update_refund,
}
use book_point.Payments.Transaction.{Tx, ◌>>=◌, ◌>>◌, gets, lift, modify, or_raise, pure, transact}
use book_point.Repositories.{get_service}
use book_point.Results.{
  Result, err, negative_refund, ok, refund_exceeds_balance, refund_needs_success, refund_not_found,
  unsupported_provider,
}
use book_point.Time.{as_utc, hours}

abbrev pub moderate_default_window_hours : ℕ
moderate_default_window_hours = 24

abbrev pub strict_default_window_hours : ℕ
strict_default_window_hours = 48

abbrev pub is_refundable : PaymentStatus → Bool
is_refundable PaymentStatus.succeeded = true
is_refundable PaymentStatus.refunded = true
is_refundable _ = false

unfoldable pub get_refundable_remaining_minor : List Refund → Payment → ℕ
get_refundable_remaining_minor refunds payment =
    payment.amount_minor - sum_succeeded_amount_for_payment refunds payment.id

-- `_moderate_late_retained_amount_minor`: the deposit, or a fifth of the amount and at least 1.
abbrev pub retained_of : ℕ → PaymentType → Option ℕ → ℕ
retained_of amount PaymentType.deposit service_deposit = amount
retained_of amount PaymentType.full (some d) = min d amount
retained_of amount PaymentType.full none = max (round_half_up (amount * 20) 100) 1

-- `service.cancellation_window_hours or DEFAULT`
abbrev pub or_window : ℕ → ℕ → ℕ
or_window h default = if h == 0 then default else h

-- `hours_before >= window_hours`
abbrev pub is_early : ℤ → ℤ → ℕ → Bool
is_early now starts_at window_hours = leb_ℤ (now +ℤ hours window_hours) starts_at

-- What a policy returns of a payment, before the balance caps it.
unfoldable pub target_of_policy : CancellationPolicyType → Service → Payment → ℤ → ℤ → ℕ
unfolding round_half_up
target_of_policy flexible service payment now starts_at = payment.amount_minor
target_of_policy moderate service payment now starts_at =
    if is_early now starts_at
      (or_window service.cancellation_window_hours moderate_default_window_hours)
    then payment.amount_minor
    else payment.amount_minor
      - retained_of payment.amount_minor payment.payment_type service.deposit_amount_minor
target_of_policy strict service payment now starts_at =
    if is_early now starts_at
      (or_window service.cancellation_window_hours strict_default_window_hours)
    then round_half_up (payment.amount_minor * 50) 100
    else 0

-- `appointment.service`
abbrev pub service_of : Database → Appointment → Option Service
service_of db a = elim a.service_id [ none ↦ none | some k ↦ get_service db.directory k ]

abbrev pub capped_refund : Option Service → Payment → ℤ → ℤ → ℕ → ℕ
capped_refund none payment now starts_at remaining = 0
capped_refund (some service) payment now starts_at remaining =
    if service.requires_payment
    then min (target_of_policy service.cancellation_policy_type service payment now starts_at)
        remaining
    else 0

unfoldable pub calculate_refund_amount : Database → Appointment → Payment → ℤ → ℕ
unfolding target_of_policy get_refundable_remaining_minor
calculate_refund_amount db appointment payment now =
    if is_refundable payment.status
    then capped_refund (service_of db appointment) payment now (as_utc appointment.start_datetime)
        (get_refundable_remaining_minor db.refunds payment)
    else 0
