-- ===== src/Payments/Tests.antt =====
-- The payments on the sample of the tests.
use book_point.Base.{
  ℕ, ◌+◌, ◌*◌, ◌<◌, ◌≤◌, ◌≡◌, ◌↔◌, refl, arith, false, none, some, [], All, length, inl, inr, ◌==◌,
  Bool-cases,
}
use book_point.Base.Int.{pos}
use book_point.Base.Text.{codes}
use book_point.Models.{Database, Payment, PaymentStatus, Payout, CommissionType}
use book_point.Payments.Commission.{calculate_platform_fee_minor}
use book_point.Payments.Commission.Fee.{
  IsConfig, calculate_platform_fee_minor-le, calculate_platform_fee_minor-nearest,
  calculate_platform_fee_minor-ok_iff,
}
use book_point.Payments.Earnings.{apply_refund_adjustment_for_payment, ensure_earning_for_payment}
use book_point.Payments.Earnings.Sound.{
  IsSound, apply_refund_adjustment_for_payment-IsSound, ensure_earning_for_payment-idempotent,
}
use book_point.Payments.Paid.{IsKeyed, RowKept}
use book_point.Payments.Paid.History.{History-Lasts, begins, later, webhook, refund}
use book_point.Payments.Paid.Replay.{mark_payment_status-replayed}
use book_point.Payments.Payouts.{
  PayoutCounts, total_of, create_payout, mock_payout_provider, process_pending_payouts,
}
use book_point.Payments.Payouts.Processed.{process_pending_payouts-ends}
use book_point.Payments.Payouts.Settled.{IsSettled, create_payout-IsSettled}
use book_point.Payments.Payouts.Run.{process_pending_payouts-IsSettled}
use book_point.Payments.RefundPolicy.{calculate_refund_amount, get_refundable_remaining_minor}
use book_point.Payments.Refunds.{create_refund, mock_refund_provider}
use book_point.Payments.RefundPolicy.Amount.{
  calculate_refund_amount-le, calculate_refund_amount_mono,
}
use book_point.Payments.Refunds.Balance.{IsCovered, create_refund-IsCovered}
use book_point.Payments.Rows.{
  get_payment, get_payout, is_pending_payout, newest_payment, list_pending_payouts, list_by_payout,
  sum_succeeded_amount_for_payment,
}
use book_point.Payments.Status.{StatusUpdate, mark_payment_status}
use book_point.Results.{Result, ok}
use book_point.Samples.{
  appointment, at_minute, awaiting, database, earning, paying, payment, pending_payout,
}

database-IsKeyed : IsKeyed database
database-IsKeyed = record { below = (omega arith, tt); distinct = (tt, tt) }

database-IsCovered : IsCovered database
unfolding sum_succeeded_amount_for_payment
database-IsCovered = record { fresh = tt; covered = λ k p e. omega arith }

-- A refund of a quarter of the payment, which the provider accepts.
create_refund-IsCovered_example :
    IsCovered
      (create_refund (mock_refund_provider (codes "a")) payment (pos 2_500) (pos 0) database).1
create_refund-IsCovered_example =
    create_refund-IsCovered (mock_refund_provider (codes "a")) payment (pos 2_500) (pos 0) database
      refl database-IsCovered

calculate_refund_amount-le_example :
    (calculate_refund_amount database appointment payment (pos 0)
      ≤ get_refundable_remaining_minor [] payment)
    × (calculate_refund_amount database appointment payment (pos 0) ≤ 10_000)
calculate_refund_amount-le_example = calculate_refund_amount-le database appointment payment (pos 0)

calculate_refund_amount_mono_example :
    calculate_refund_amount database appointment payment (at_minute 500)
    ≤ calculate_refund_amount database appointment payment (pos 0)
calculate_refund_amount_mono_example =
    calculate_refund_amount_mono database appointment payment (pos 0) (at_minute 500) (omega arith)

calculate_platform_fee_minor-le_example : 1_000 ≤ 10_000
unfolding calculate_platform_fee_minor
calculate_platform_fee_minor-le_example =
    calculate_platform_fee_minor-le (pos 10_000) CommissionType.percentage (some (pos 1_000))
      (some (pos 0)) {fee = 1_000} refl

calculate_platform_fee_minor-nearest_example :
    (20_000 * 1_000 ≤ 2 * (10_000 * 1_000) + 10_000)
    × (2 * (10_000 * 1_000) + 10_000 < 20_000 * 1_000 + 20_000)
unfolding calculate_platform_fee_minor
calculate_platform_fee_minor-nearest_example =
    calculate_platform_fee_minor-nearest 10_000 1_000 0 1_000 (omega arith) (omega arith) refl

calculate_platform_fee_minor-ok_iff_example :
    ((fee : ℕ) × (calculate_platform_fee_minor
          (pos 10_000)
          CommissionType.percentage
          (some (pos 1_000))
          (some (pos 0))
        ≡ ok fee))
    ↔ IsConfig (some (pos 1_000)) (some (pos 0))
calculate_platform_fee_minor-ok_iff_example =
    calculate_platform_fee_minor-ok_iff 10_000 CommissionType.percentage (some (pos 1_000))
      (some (pos 0)) (omega arith)

earnings-IsSound : All IsSound database.earnings
earnings-IsSound = (record { conserved = refl; collectable = omega arith }, tt)

apply_refund_adjustment_for_payment-IsSound_example :
    All IsSound (apply_refund_adjustment_for_payment 8 2_500 database).earnings
apply_refund_adjustment_for_payment-IsSound_example =
    apply_refund_adjustment_for_payment-IsSound 8 2_500 database earnings-IsSound

ensure_earning_for_payment-idempotent_example :
    All IsSound database.earnings
    × (ensure_earning_for_payment payment appointment database ≡ ok ((earning, false), database))
unfolding ensure_earning_for_payment
ensure_earning_for_payment-idempotent_example =
    ensure_earning_for_payment-idempotent payment appointment database database earning false
      earnings-IsSound refl

abbrev paid_update : StatusUpdate
paid_update = record {
  provider_name = codes "mock";
  status = PaymentStatus.succeeded;
  provider_checkout_session_id = some (codes "cs");
  provider_payment_intent_id = none;
}

History-Lasts_example :
    let db =
      (mark_payment_status paid_update
        (pos 0)
        (create_refund
          (mock_refund_provider (codes "a"))
          payment
          (pos 2_500)
          (pos 0)
          database).1).1 in
    IsKeyed db
    × ((k : ℕ) (p : Payment)
        → get_payment database.payments k ≡ some p
        → (p' : Payment) × (get_payment db.payments k ≡ some p') × RowKept p p')
History-Lasts_example =
    History-Lasts database
      (mark_payment_status paid_update (pos 0)
        (create_refund (mock_refund_provider (codes "a")) payment (pos 2_500) (pos 0) database).1).1
      database-IsKeyed
      (later (later begins (refund (mock_refund_provider (codes "a")) payment (pos 2_500) (pos 0)))
        (webhook paid_update (pos 0)))

abbrev after_payment : Result Payment × Database
after_payment = mark_payment_status paid_update (pos 1) awaiting

after_payment_run :
    mark_payment_status paid_update (pos 1) awaiting
    ≡ (ok (record payment { paid_at = some (pos 1) }), after_payment.1)
unfolding mark_payment_status newest_payment calculate_platform_fee_minor
after_payment_run = refl

mark_payment_status-replayed_example :
    mark_payment_status paid_update (pos 2) after_payment.1
    ≡ (ok (record payment { paid_at = some (pos 1) }), after_payment.1)
mark_payment_status-replayed_example =
    mark_payment_status-replayed paid_update (pos 1) (pos 2) awaiting after_payment.1
      (record payment { paid_at = some (pos 1) }) after_payment_run

database-IsSettled : IsSettled database
database-IsSettled = record { linked = (tt, tt); settled = λ k p e. cc }

paying-IsSettled : IsSettled paying
unfolding list_by_payout total_of
paying-IsSettled = record {
  linked = (omega arith, tt);
  settled = λ k p e. elim (Bool-cases (10 == k)) [
    | inl y ↦
        let e' : some pending_payout ≡ some p = rw y at e in
        let p_is : pending_payout ≡ p = cc in rw (y, ← p_is) refl
    | inr n ↦ let e' : none ≡ some p = rw n at e in cc
  ];
}

create_payout-IsSettled_example : IsSettled (create_payout 3 database).1
create_payout-IsSettled_example = create_payout-IsSettled 3 database database-IsSettled

process_pending_payouts-IsSettled_example :
    IsSettled
      (process_pending_payouts (mock_payout_provider (codes "a")) (codes "mock") (pos 0) paying).1
process_pending_payouts-IsSettled_example =
    process_pending_payouts-IsSettled (mock_payout_provider (codes "a")) (codes "mock") (pos 0)
      paying paying-IsSettled

process_pending_payouts-ends_example :
    let (result, db') =
      process_pending_payouts (mock_payout_provider (codes "a")) (codes "mock") (pos 0) paying in
    ((counts : PayoutCounts) × (result ≡ ok counts)
      × (counts.processed ≡ length (list_pending_payouts paying.payouts))
      × (counts.completed + counts.failed ≤ counts.processed))
    × ((k : ℕ) (p : Payout)
        → get_payout db'.payouts k ≡ some p
        → is_pending_payout p.status ≡ false)
process_pending_payouts-ends_example =
    process_pending_payouts-ends (mock_payout_provider (codes "a")) (pos 0) paying
