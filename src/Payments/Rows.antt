-- ===== src/Payments/Rows.antt =====
-- The queries and updates of the payment, refund, earning and payout repositories
-- (backend/app/repositories).
use book_point.Base.{
  ℕ, ◌+◌, Bool, true, false, ◌&&◌, ◌||◌, Option, none, some, List, [], ◌∷◌, map, ltb, ◌==◌, first,
  keep, is_none, if◌then◌else◌,
}
use book_point.Base.Int.{ℤ, eq_ℤ, leb_ℤ, ltb_ℤ}
use book_point.Base.Text.{Text, eq_text}
use book_point.Models.{
  Payment, PaymentStatus, PayoutStatus, Payout, ProviderEarning, ProviderEarningStatus, Refund,
  RefundStatus,
}

abbrev pub get_payment : List Payment → ℕ → Option Payment
get_payment payments k = first (λ p. p.id == k) payments

-- `order_by(created_at.desc(), id.desc()).limit(1)`: the later of two rows.
abbrev pub later_payment : Payment → Option Payment → Option Payment
later_payment p none = some p
later_payment p (some q) =
    if ltb_ℤ q.created_at p.created_at || (eq_ℤ q.created_at p.created_at && ltb q.id p.id)
    then some p
    else some q

unfoldable pub get_latest_payment_for_appointment : List Payment → ℕ → Option Payment
get_latest_payment_for_appointment [] k = none
get_latest_payment_for_appointment (p ∷ payments) k =
    let latest = get_latest_payment_for_appointment payments k in
    if p.appointment_id == k then later_payment p latest else latest

-- `order_by(id.desc()).limit(1)` of the payments that meet a condition.
abbrev pub higher_payment : Payment → Option Payment → Option Payment
higher_payment p none = some p
higher_payment p (some q) = if ltb q.id p.id then some p else some q

unfoldable pub newest_payment : (Payment → Bool) → List Payment → Option Payment
newest_payment test [] = none
newest_payment test (p ∷ payments) =
    let newest = newest_payment test payments in if test p then higher_payment p newest else newest

abbrev pub has_text : Text → Option Text → Bool
has_text t none = false
has_text t (some u) = eq_text u t

abbrev pub get_by_checkout_session_id : List Payment → Text → Option Payment
get_by_checkout_session_id payments t =
    newest_payment (λ p. has_text t p.provider_checkout_session_id) payments

abbrev pub get_by_payment_intent_id : List Payment → Text → Option Payment
get_by_payment_intent_id payments t =
    newest_payment (λ p. has_text t p.provider_payment_intent_id) payments

abbrev pub is_open_payment : PaymentStatus → Bool
is_open_payment PaymentStatus.pending = true
is_open_payment PaymentStatus.requires_action = true
is_open_payment _ = false

abbrev pub is_expired : ℤ → Payment → Bool
is_expired cutoff p = is_open_payment p.status && leb_ℤ p.created_at cutoff

unfoldable pub list_expired_pending : List Payment → ℤ → List Payment
list_expired_pending payments cutoff = keep (is_expired cutoff) payments

abbrev pub get_refund : List Refund → ℕ → Option Refund
get_refund refunds k = first (λ r. r.id == k) refunds

abbrev pub get_payout : List Payout → ℕ → Option Payout
get_payout payouts k = first (λ p. p.id == k) payouts

abbrev pub get_earning_of_payment : List ProviderEarning → ℕ → Option ProviderEarning
get_earning_of_payment earnings k = first (λ e. e.payment_id == k) earnings

-- An update writes a row by its id.
abbrev pub update_payment : ℕ → (Payment → Payment) → List Payment → List Payment
update_payment k f = map (λ p. if p.id == k then f p else p)

abbrev pub update_refund : ℕ → (Refund → Refund) → List Refund → List Refund
update_refund k f = map (λ r. if r.id == k then f r else r)

abbrev pub update_earning :
    ℕ → (ProviderEarning → ProviderEarning) → List ProviderEarning → List ProviderEarning
update_earning k f = map (λ e. if e.id == k then f e else e)

abbrev pub update_payout : ℕ → (Payout → Payout) → List Payout → List Payout
update_payout k f = map (λ p. if p.id == k then f p else p)

abbrev pub is_succeeded_refund : RefundStatus → Bool
is_succeeded_refund RefundStatus.succeeded = true
is_succeeded_refund _ = false

-- What a refund counts towards its payment.
abbrev pub succeeded_amount : ℕ → Refund → ℕ
succeeded_amount k r =
    if (r.payment_id == k) && is_succeeded_refund r.status then r.amount_minor else 0

unfoldable pub sum_succeeded_amount_for_payment : List Refund → ℕ → ℕ
sum_succeeded_amount_for_payment [] k = 0
sum_succeeded_amount_for_payment (r ∷ refunds) k =
    succeeded_amount k r + sum_succeeded_amount_for_payment refunds k

abbrev pub is_ready : ProviderEarningStatus → Bool
is_ready ProviderEarningStatus.ready_for_payout = true
is_ready _ = false

abbrev pub is_payable : ℕ → ProviderEarning → Bool
is_payable p e =
    (e.provider_id == p)
    && (is_ready e.status && (ltb 0 e.provider_amount_minor && is_none e.payout_id))

unfoldable pub list_ready_for_payout : List ProviderEarning → ℕ → List ProviderEarning
list_ready_for_payout earnings p = keep (is_payable p) earnings

abbrev pub is_linked : ℕ → ProviderEarning → Bool
is_linked k e = elim e.payout_id [ none ↦ false | some j ↦ j == k ]

unfoldable pub list_by_payout : List ProviderEarning → ℕ → List ProviderEarning
list_by_payout earnings k = keep (is_linked k) earnings

abbrev pub is_pending_payout : PayoutStatus → Bool
is_pending_payout PayoutStatus.pending = true
is_pending_payout _ = false

unfoldable pub list_pending_payouts : List Payout → List Payout
list_pending_payouts payouts = keep (λ p. is_pending_payout p.status) payouts
