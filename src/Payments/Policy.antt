-- ===== src/Payments/Policy.antt =====
-- backend/app/utils/payment.py, and `_required_amount_minor` of the payment service. A price counts
-- hundredths.
use book_point.Base.{
  ℕ, ◌*◌, Bool, true, false, ◌&&◌, Option, none, some, List, [], ◌∷◌, any, is_none, leb, ltb, ◌==◌,
  if◌then◌else◌,
}
use book_point.Base.Text.{Text, codes, eq_text, is_space, upper}
use book_point.Models.{PaymentType, Service}
use book_point.Payments.Rounding.{round_half_up}
use book_point.Results.{
  Result, bad_payment_policy, err, none_value, ok, or_raise, raise_if, require, ◌>>=◌, ◌>>◌,
}

abbrev pub zero_decimal_currencies : List Text
zero_decimal_currencies =
    codes "BIF"
    ∷ codes "CLP"
    ∷ codes "DJF"
    ∷ codes "GNF"
    ∷ codes "JPY"
    ∷ codes "KMF"
    ∷ codes "KRW"
    ∷ codes "MGA"
    ∷ codes "PYG"
    ∷ codes "RWF"
    ∷ codes "UGX"
    ∷ codes "VND"
    ∷ codes "VUV"
    ∷ codes "XAF"
    ∷ codes "XOF"
    ∷ codes "XPF"
    ∷ []

unfoldable pub currency_minor_exponent : Text → ℕ
currency_minor_exponent currency =
    if any (eq_text (upper currency)) zero_decimal_currencies then 0 else 2

-- Hundredths times 10 to the exponent, as a whole number of minor units.
unfoldable pub decimal_to_minor : ℕ → Text → ℕ
unfolding currency_minor_exponent round_half_up
decimal_to_minor amount currency =
    if currency_minor_exponent currency == 0
    then round_half_up amount 100
    else round_half_up (amount * 100) 100

-- `not currency.strip()`
abbrev pub is_blank : Text → Bool
is_blank [] = true
is_blank (c ∷ s) = is_space c && is_blank s

-- The part of the validation that depends on the payment type.
abbrev pub validate_deposit : PaymentType → Option ℕ → ℕ → Result (Unit {0})
validate_deposit PaymentType.deposit none price_minor = err bad_payment_policy
validate_deposit PaymentType.deposit (some deposit) price_minor = do
  raise_if (leb deposit 0) bad_payment_policy
  raise_if (ltb price_minor deposit) bad_payment_policy
  ok tt
validate_deposit PaymentType.full deposit price_minor = require (is_none deposit) bad_payment_policy

unfoldable pub validate_service_payment_policy :
    Bool → PaymentType → Option ℕ → Option Text → Option ℕ → Result (Unit {0})
unfolding decimal_to_minor
validate_service_payment_policy false payment_type price currency deposit =
    require (is_none deposit) bad_payment_policy
validate_service_payment_policy true payment_type price currency deposit = do
  price ← or_raise price bad_payment_policy
  currency ← or_raise currency bad_payment_policy
  raise_if (is_blank currency) bad_payment_policy
  validate_deposit payment_type deposit (decimal_to_minor price currency)

-- `int(service.deposit_amount_minor or 0)`
abbrev pub or_zero : Option ℕ → ℕ
or_zero none = 0
or_zero (some n) = n

abbrev pub amount_of : PaymentType → Service → Result ℕ
amount_of PaymentType.deposit service = ok (or_zero service.deposit_amount_minor)
amount_of PaymentType.full service = do
  price ← or_raise service.price none_value
  currency ← or_raise service.currency none_value
  ok (decimal_to_minor price currency)

unfoldable pub required_amount_minor : Service → Result ℕ
unfolding validate_service_payment_policy decimal_to_minor
required_amount_minor service = do
  validate_service_payment_policy service.requires_payment service.payment_type service.price
      service.currency service.deposit_amount_minor
  amount_of service.payment_type service
