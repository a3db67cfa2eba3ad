-- ===== src/Payments/Earnings.antt =====
-- backend/app/services/payments/earning_service.py
pub mod Sound
use book_point.Base.{
  ℕ, zero, suc, ◌+◌, ◌-◌, ◌*◌, min, Bool, true, false, Option, none, some, List, ◌∷◌, leb, ltb,
  ◌==◌, if◌then◌else◌,
}
use book_point.Base.Int.{pos}
use book_point.Models.{
  Appointment, Database, Payment, ProviderEarning, ProviderEarningStatus, paid_out,
  ready_for_payout,
}
use book_point.Payments.Commission.{calculate_platform_fee_minor}
use book_point.Payments.Rounding.{round_half_up}
use book_point.Payments.Rows.{get_earning_of_payment, update_earning}
use book_point.Payments.Transaction.{Tx, ◌>>=◌, ◌>>◌, gets, lift, modify, or_raise, pure}
use book_point.Repositories.{get_organization}
use book_point.Results.{organization_not_found}

-- The new earning of a payment: what the platform's fee leaves of its amount.
abbrev pub new_earning : ℕ → Payment → Appointment → ℕ → ProviderEarning
new_earning k payment appointment fee = record {
  id = k;
  provider_id = appointment.provider_id;
  appointment_id = appointment.id;
  payment_id = payment.id;
  payout_id = none;
  gross_amount_minor = payment.amount_minor;
  platform_fee_minor = fee;
  provider_amount_minor = payment.amount_minor - fee;
  refunded_amount_minor = 0;
  adjustment_pending_minor = 0;
  currency = payment.currency;
  status =
      if ltb 0 (payment.amount_minor - fee)
      then ready_for_payout
      else ProviderEarningStatus.pending;
}

abbrev pub insert_earning : ProviderEarning → Database → Database
insert_earning e db = record db { earnings = e ∷ db.earnings; next_id = db.next_id + 1 }

abbrev pub create_earning : Payment → Appointment → Tx (ProviderEarning × Bool)
create_earning payment appointment = do
  directory ← gets (λ db. db.directory)
  organization ←
      or_raise (get_organization directory appointment.organization_id) organization_not_found
  fee ← lift (
      calculate_platform_fee_minor (pos payment.amount_minor) organization.commission_type
        organization.commission_percentage organization.commission_fixed_minor)
  k ← gets (λ db. db.next_id)
  modify (insert_earning (new_earning k payment appointment fee))
  pure (new_earning k payment appointment fee, true)

abbrev pub existing_or :
    Option ProviderEarning → Tx (ProviderEarning × Bool) → Tx (ProviderEarning × Bool)
existing_or none create = create
existing_or (some e) create = pure (e, false)

-- `ensure_earning_for_payment`: the earning, and whether it was created.
unfoldable pub ensure_earning_for_payment : Payment → Appointment → Tx (ProviderEarning × Bool)
ensure_earning_for_payment payment appointment = do
  existing ← gets (λ db. get_earning_of_payment db.earnings payment.id)
  existing_or existing (create_earning payment appointment)

-- `_provider_refund_impact_minor`: the provider's share of a refund, at least 1.
unfoldable pub provider_refund_impact_minor : ProviderEarning → ℕ → ℕ
unfolding round_half_up
provider_refund_impact_minor e refund_amount_minor =
    let original = e.provider_amount_minor + e.refunded_amount_minor + e.adjustment_pending_minor in
    let proportional = round_half_up (refund_amount_minor * original) e.gross_amount_minor in
    if leb refund_amount_minor 0
    then 0
    else if leb e.gross_amount_minor 0
    then 0
    else if leb original 0
    then 0
    else if leb proportional 0
    then 1
    else proportional

abbrev pub is_paid_out : ProviderEarningStatus → Bool
is_paid_out ProviderEarningStatus.paid_out = true
is_paid_out _ = false

-- The row after a refund of this impact: a paid earning owes an adjustment, an unpaid one shrinks.
unfoldable pub adjusted_earning : ProviderEarning → ℕ → ProviderEarning
adjusted_earning e impact =
    let owed = min impact (e.provider_amount_minor - e.adjustment_pending_minor) in
    let taken = min impact e.provider_amount_minor in
    let remaining = e.provider_amount_minor - taken in
    if leb impact 0
    then e
    else if is_paid_out e.status
    then (if leb owed 0
        then e
        else record e { adjustment_pending_minor = e.adjustment_pending_minor + owed })
    else if leb taken 0
    then e
    else record e {
      provider_amount_minor = remaining;
      refunded_amount_minor = e.refunded_amount_minor + taken;
      status = if remaining == 0 then ProviderEarningStatus.pending else e.status;
    }

abbrev pub adjust_existing : ℕ → Option ProviderEarning → Database → Database
adjust_existing refund_amount_minor none db = db
adjust_existing refund_amount_minor (some e) db = record db {
  earnings =
      update_earning e.id
        (λ r. adjusted_earning r (provider_refund_impact_minor r refund_amount_minor)) db.earnings;
}

-- `apply_refund_adjustment_for_payment`
unfoldable pub apply_refund_adjustment_for_payment : ℕ → ℕ → Database → Database
unfolding adjusted_earning provider_refund_impact_minor
apply_refund_adjustment_for_payment payment_id refund_amount_minor db =
    adjust_existing refund_amount_minor (get_earning_of_payment db.earnings payment_id) db
