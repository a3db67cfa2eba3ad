-- ===== src/Payments/RefundPolicy/Amount.antt =====
-- The amount that a cancellation returns (backend/app/services/payments/refund_service.py).
use book_point.Base.{ℕ, ◌*◌, ◌≤◌, ◌≡◌, true, Option, none, some, arith, if◌then◌else◌}
use book_point.Base.Int.{ℤ, ◌+ℤ◌, ◌≤ℤ◌, int_laws}
use book_point.Models.{
  Appointment, CancellationPolicyType, Database, Payment, Service, flexible, moderate, strict,
}
use book_point.Payments.RefundPolicy.{
  calculate_refund_amount, get_refundable_remaining_minor, is_early, target_of_policy,
  is_refundable, capped_refund, service_of, or_window, moderate_default_window_hours,
  strict_default_window_hours,
}
use book_point.Payments.Rounding.{round_half_up, round_half_up-le}
use book_point.Time.{as_utc, hours}

half_le : (n : ℕ) → round_half_up (n * 50) 100 ≤ n
half_le n = round_half_up-le n 50 100 (omega arith) (omega arith)

target_of_policy-le :
    (policy : CancellationPolicyType) (service : Service) (payment : Payment) (now starts_at : ℤ)
    → target_of_policy policy service payment now starts_at ≤ payment.amount_minor
unfolding target_of_policy
target_of_policy-le flexible service payment now starts_at = omega arith
target_of_policy-le moderate service payment now starts_at = ground arith
target_of_policy-le strict service payment now starts_at =
    ground (arith, half_le payment.amount_minor)

-- The amount of a refund is at most what the payment has left, and at most the payment's amount.
pub calculate_refund_amount-le :
    (db : Database) (appointment : Appointment) (payment : Payment) (now : ℤ)
    → (calculate_refund_amount db appointment payment now
        ≤ get_refundable_remaining_minor db.refunds payment)
      × (calculate_refund_amount db appointment payment now ≤ payment.amount_minor)
unfolding calculate_refund_amount get_refundable_remaining_minor
calculate_refund_amount-le db appointment payment now = ground arith

is_early_mono :
    (earlier later starts_at : ℤ) (window : ℕ)
    → earlier ≤ℤ later
    → is_early later starts_at window ≡ true
    → is_early earlier starts_at window ≡ true
is_early_mono earlier later starts_at window h e =
    let fits : later +ℤ hours window ≤ℤ starts_at = ground arith in
    let fits' : earlier +ℤ hours window ≤ℤ starts_at = omega int_laws in ground arith

target_of_policy_mono :
    (policy : CancellationPolicyType) (service : Service) (payment : Payment)
    (earlier later starts_at : ℤ)
    → earlier ≤ℤ later
    → target_of_policy policy service payment later starts_at
      ≤ target_of_policy policy service payment earlier starts_at
unfolding target_of_policy
target_of_policy_mono flexible service payment earlier later starts_at h = omega arith
target_of_policy_mono moderate service payment earlier later starts_at h = ground (
  arith,
  is_early_mono earlier later starts_at
      (or_window service.cancellation_window_hours moderate_default_window_hours) h,
)
target_of_policy_mono strict service payment earlier later starts_at h = ground (
  arith,
  is_early_mono earlier later starts_at
      (or_window service.cancellation_window_hours strict_default_window_hours) h,
)

-- Under every policy, what a cancellation returns at an earlier time is at least what it returns at
-- a later one.
pub calculate_refund_amount_mono :
    (db : Database) (appointment : Appointment) (payment : Payment) (earlier later : ℤ)
    → earlier ≤ℤ later
    → calculate_refund_amount db appointment payment later
      ≤ calculate_refund_amount db appointment payment earlier
unfolding calculate_refund_amount
calculate_refund_amount_mono db appointment payment earlier later h =
    by_service (service_of db appointment)
  where
    by_service :
        (s : Option Service)
        → (if is_refundable payment.status
            then capped_refund s payment later
                (as_utc appointment.start_datetime)
                (get_refundable_remaining_minor db.refunds payment)
            else 0)
          ≤ (if is_refundable payment.status
              then capped_refund s payment earlier
                  (as_utc appointment.start_datetime)
                  (get_refundable_remaining_minor db.refunds payment)
              else 0)
    by_service none = ground arith
    by_service (some s) = ground (
      arith,
      target_of_policy_mono s.cancellation_policy_type s payment earlier later
          (as_utc appointment.start_datetime) h,
    )
