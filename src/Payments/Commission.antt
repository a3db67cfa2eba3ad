-- ===== src/Payments/Commission.antt =====
-- backend/app/utils/commission.py. A percentage counts ten-thousandths, as Numeric(5, 4) stores it.
pub mod Fee
use book_point.Base.{
  ℕ, ◌+◌, ◌*◌, ◌≤◌, ◌<◌, ◌≡◌, min, Bool, ◌||◌, Option, none, some, arith, if◌then◌else◌,
}
use book_point.Base.Int.{ℤ, pos, pos_part, ltb_ℤ, leb_ℤ, ◌<ℤ◌}
use book_point.Models.{CommissionType, percentage, fixed}
use book_point.Payments.Rounding.{round_half_up}
use book_point.Results.{Result, ok, err, ◌>>=◌, ◌>>◌, raise_if, or_raise, bad_commission}

abbrev pub whole : ℕ
whole = 10_000

unfoldable pub validate_organization_commission_config :
    CommissionType → Option ℤ → Option ℤ → Result (Unit {0})
validate_organization_commission_config commission_type commission_percentage
      commission_fixed_minor =
    do
      fixed_minor ← or_raise commission_fixed_minor bad_commission
      raise_if (ltb_ℤ fixed_minor (pos 0)) bad_commission
      percentage_decimal ← or_raise commission_percentage bad_commission
      raise_if (ltb_ℤ percentage_decimal (pos 0) || ltb_ℤ (pos whole) percentage_decimal)
          bad_commission
      ok tt

-- `max(int(x or 0), 0)`
abbrev pub clamp_zero : Option ℤ → ℕ
clamp_zero none = 0
clamp_zero (some x) = pos_part x

abbrev pub fee_of : ℕ → CommissionType → Option ℤ → Option ℤ → ℕ
fee_of amount fixed commission_percentage commission_fixed_minor =
    min (clamp_zero commission_fixed_minor) amount
fee_of amount percentage commission_percentage commission_fixed_minor =
    min (round_half_up (amount * clamp_zero commission_percentage) whole) amount

unfoldable pub calculate_platform_fee_minor : ℤ → CommissionType → Option ℤ → Option ℤ → Result ℕ
unfolding validate_organization_commission_config round_half_up
calculate_platform_fee_minor amount_minor commission_type commission_percentage
      commission_fixed_minor =
    if leb_ℤ amount_minor (pos 0)
    then ok 0
    else (validate_organization_commission_config commission_type commission_percentage
          commission_fixed_minor
        >> ok (
            fee_of (pos_part amount_minor) commission_type commission_percentage
              commission_fixed_minor))
