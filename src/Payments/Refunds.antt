-- ===== src/Payments/Refunds.antt =====
-- backend/app/services/payments/refund_service.py
pub mod Outcomes
pub mod Balance
use book_point.Base.{
  ℕ, suc, ◌+◌, ◌-◌, ◌*◌, min, max, Bool, true, false, not, ◌&&◌, ◌||◌, Option, none, some, List,
  ◌∷◌, ◌++◌, leb, ltb, ◌==◌, if◌then◌else◌,
}
use book_point.Base.Int.{ℤ, pos, pos_part, ◌+ℤ◌, leb_ℤ, ltb_ℤ}
use book_point.Base.Text.{Text, codes, eq_text, or_text}
use book_point.Models.{
  Appointment, CancellationPolicyType, Database, Effect, EffectKind, Payment, PaymentStatus,
  PaymentType, Refund, RefundStatus, Service, count, event, flexible, moderate, notify, strict,
  refund_failed, refund_initiated, refund_succeeded,
}
use book_point.Payments.Earnings.{apply_refund_adjustment_for_payment}
use book_point.Payments.Rounding.{round_half_up}
use book_point.Payments.Rows.{
  get_latest_payment_for_appointment, get_payment, get_refund, sum_succeeded_amount_for_payment,
  update_payment, update_refund,
}
use book_point.Payments.Transaction.{Tx, ◌>>=◌, ◌>>◌, gets, lift, modify, or_raise, pure, transact}
use book_point.Repositories.{get_service}
use book_point.Results.{
  Result, err, negative_refund, ok, refund_exceeds_balance, refund_needs_success, refund_not_found,
  unsupported_provider,
}
use book_point.Time.{as_utc, hours}
use book_point.Payments.RefundPolicy.{
  moderate_default_window_hours, strict_default_window_hours, is_refundable,
  get_refundable_remaining_minor, retained_of, or_window, is_early, target_of_policy, service_of,
  capped_refund, calculate_refund_amount,
}

-- A notification names the appointment of the refund's payment, an event and a log line the refund.
abbrev pub announce_refund : EffectKind → Option Payment → ℕ → List Effect → List Effect
announce_refund kind none k log = log
announce_refund kind (some p) k log = event kind k ∷ count kind ∷ notify kind p.appointment_id ∷ log

abbrev pub is_status : RefundStatus → RefundStatus → Bool
is_status RefundStatus.pending RefundStatus.pending = true
is_status RefundStatus.succeeded RefundStatus.succeeded = true
is_status RefundStatus.failed RefundStatus.failed = true
is_status _ _ = false

-- The payment of a refund that succeeded: REFUNDED once the refunds cover it.
abbrev pub settle_payment : Refund → Option Payment → Database → Database
settle_payment refund none db = db
settle_payment refund (some payment) db =
    let covered =
      leb payment.amount_minor (sum_succeeded_amount_for_payment db.refunds payment.id) in
    let settled = record db {
      payments =
          if covered
          then update_payment payment.id (λ p. record p { status = PaymentStatus.refunded })
              db.payments
          else db.payments;
    } in
    apply_refund_adjustment_for_payment payment.id refund.amount_minor settled

abbrev pub succeed_refund : Option Text → ℤ → Refund → Refund
succeed_refund provider_refund_id now r = record r {
  status = RefundStatus.succeeded;
  provider_refund_id = or_text provider_refund_id r.provider_refund_id;
  processed_at = some now;
}

abbrev pub fail_refund : ℤ → Refund → Refund
fail_refund now r = record r { status = RefundStatus.failed; processed_at = some now }

-- The commit of `mark_refund_succeeded`, of a refund that has not succeeded before.
unfoldable pub commit_refund_succeeded : Option Text → ℤ → Refund → Database → Database
unfolding apply_refund_adjustment_for_payment sum_succeeded_amount_for_payment
commit_refund_succeeded provider_refund_id now refund db =
    let db' = record db {
      refunds = update_refund refund.id (succeed_refund provider_refund_id now) db.refunds;
    } in
    let payment = get_payment db'.payments refund.payment_id in
    let settled = settle_payment refund payment db' in
    record settled { log = announce_refund refund_succeeded payment refund.id settled.log }

unfoldable pub mark_refund_succeeded : ℕ → Option Text → ℤ → Database → Result (Unit {0}) × Database
unfolding commit_refund_succeeded
mark_refund_succeeded k provider_refund_id now db = elim (get_refund db.refunds k) [
  | none ↦ (err refund_not_found, db)
  | some r ↦
      if is_status r.status RefundStatus.succeeded
      then (ok tt, db)
      else (ok tt, commit_refund_succeeded provider_refund_id now r db)
]

unfoldable pub commit_refund_failed : ℤ → Refund → Database → Database
commit_refund_failed now refund db = record db {
  refunds = update_refund refund.id (fail_refund now) db.refunds;
  log = announce_refund refund_failed (get_payment db.payments refund.payment_id) refund.id db.log;
}

unfoldable pub mark_refund_failed : ℕ → ℤ → Database → Result (Unit {0}) × Database
unfolding commit_refund_failed
mark_refund_failed k now db = elim (get_refund db.refunds k) [
  | none ↦ (err refund_not_found, db)
  | some r ↦
      if is_status r.status RefundStatus.failed
      then (ok tt, db)
      else (ok tt, commit_refund_failed now r db)
]

-- What the payment provider answers: success with its reference, another status, or an exception.
pub data GatewayAnswer : Type 0 where
  accepted : Text → GatewayAnswer
  rejected broken : GatewayAnswer

-- A refund provider, from the payment, the amount and the currency. `MockRefundProvider` accepts,
-- with a reference that a random token completes.
abbrev pub RefundProvider : Type 0
RefundProvider = ℕ → ℕ → Text → GatewayAnswer

unfoldable pub mock_refund_provider : Text → RefundProvider
mock_refund_provider token payment_id amount_minor currency = accepted (codes "mock_rf_" ++ token)

abbrev pub settle_refund : GatewayAnswer → ℕ → ℤ → Database → Result (Unit {0}) × Database
settle_refund (accepted reference) k now db = mark_refund_succeeded k (some reference) now db
settle_refund rejected k now db = mark_refund_failed k now db
settle_refund broken k now db = mark_refund_failed k now db

abbrev pub new_refund : ℕ → Payment → ℕ → Refund
new_refund k payment amount_minor = record {
  id = k;
  payment_id = payment.id;
  amount_minor = amount_minor;
  currency = payment.currency;
  provider_refund_id = none;
  status = RefundStatus.pending;
  processed_at = none;
}

-- The first commit of `create_refund`, with its notification and event (this one has no counter).
unfoldable pub open_refund : Payment → ℕ → Database → Database
open_refund payment amount_minor db = record db {
  refunds = new_refund db.next_id payment amount_minor ∷ db.refunds;
  next_id = db.next_id + 1;
  log = event refund_initiated db.next_id ∷ notify refund_initiated payment.appointment_id ∷ db.log;
}

-- The rest of `create_refund`: the provider is looked up by name only now.
unfoldable pub send_refund :
    RefundProvider → Payment → ℕ → ℕ → ℤ → Database → Result (Unit {0}) × Database
unfolding mark_refund_succeeded mark_refund_failed
send_refund provider payment k amount_minor now db =
    if eq_text payment.provider_name (codes "mock")
    then settle_refund (provider payment.id amount_minor payment.currency) k now db
    else (err unsupported_provider, db)

unfoldable pub create_refund :
    RefundProvider → Payment → ℤ → ℤ → Database → Result (Unit {0}) × Database
unfolding open_refund send_refund get_refundable_remaining_minor
create_refund provider payment amount_minor now db =
    let amount = pos_part amount_minor in
    let opened = open_refund payment amount db in
    if ltb_ℤ amount_minor (pos 0)
    then (err negative_refund, db)
    else if amount == 0
    then (ok tt, db)
    else if not (is_refundable payment.status)
    then (err refund_needs_success, db)
    else if ltb (get_refundable_remaining_minor db.refunds payment) amount
    then (err refund_exceeds_balance, db)
    else send_refund provider payment db.next_id amount now opened

abbrev pub refund_latest :
    RefundProvider → Appointment → ℤ → Option Payment → Database → Result (Unit {0}) × Database
refund_latest provider appointment now none db = (ok tt, db)
refund_latest provider appointment now (some payment) db =
    let amount = calculate_refund_amount db appointment payment now in
    if not (is_refundable payment.status)
    then (ok tt, db)
    else if amount == 0
    then (ok tt, db)
    else create_refund provider payment (pos amount) now db

-- `process_refund_for_cancellation`
unfoldable pub process_refund_for_cancellation :
    RefundProvider → Appointment → ℤ → Database → Result (Unit {0}) × Database
unfolding create_refund calculate_refund_amount
process_refund_for_cancellation provider appointment now db =
    refund_latest provider appointment now
      (get_latest_payment_for_appointment db.payments appointment.id) db
