-- ===== src/Payments/Commission/Fee.antt =====
-- The platform fee of backend/app/utils/commission.py: its bounds, its rounding and its errors.
use book_point.Base.{ℕ, ◌+◌, ◌*◌, ◌≤◌, ◌<◌, ◌≡◌, ◌↔◌, Option, none, some, arith}
use book_point.Base.Int.{ℤ, pos, pos_part, ◌≤ℤ◌}
use book_point.Models.{CommissionType, percentage, fixed}
use book_point.Payments.Commission.{calculate_platform_fee_minor, fee_of, whole}
use book_point.Payments.Rounding.{round_half_up-nearest, round_half_up-le}
use book_point.Results.{ok}

-- A fee that is computed is at most the amount, which counts as 0 where it is negative.
pub calculate_platform_fee_minor-le :
    (amount : ℤ) (kind : CommissionType) (share fixed_minor : Option ℤ) {fee : ℕ}
    → calculate_platform_fee_minor amount kind share fixed_minor ≡ ok fee
    → fee ≤ pos_part amount
unfolding calculate_platform_fee_minor
calculate_platform_fee_minor-le amount fixed share fixed_minor h = ground arith
calculate_platform_fee_minor-le amount percentage share fixed_minor h = ground arith

-- The fee computed on a positive amount under a share between 0 and 1 is the nearest whole number
-- of minor units, a half going up, where the fixed part is configured and not negative.
pub calculate_platform_fee_minor-nearest :
    (amount share fixed_minor fee : ℕ)
    → 0 < amount
    → share ≤ whole
    → calculate_platform_fee_minor
        (pos amount)
        percentage
        (some (pos share))
        (some (pos fixed_minor))
      ≡ ok fee
    → (20_000 * fee ≤ 2 * (amount * share) + 10_000)
      × (2 * (amount * share) + 10_000 < 20_000 * fee + 20_000)
unfolding calculate_platform_fee_minor
calculate_platform_fee_minor-nearest amount share fixed_minor fee positive within h =
    let near = round_half_up-nearest (amount * share) whole (omega arith) in
    let below = round_half_up-le amount share whole (omega arith) within in
    ground (arith, near, below)

-- Both parts of a commission are configured, the fixed part is not negative, and the share lies
-- between 0 and 1.
abbrev pub IsConfig : Option ℤ → Option ℤ → Type 0
IsConfig none fixed_minor = ⊥
IsConfig (some share) none = ⊥
IsConfig (some share) (some fixed_minor) =
    (pos 0 ≤ℤ fixed_minor) × (pos 0 ≤ℤ share) × (share ≤ℤ pos whole)

-- On a positive amount, under either kind of commission, a fee is computed exactly if both parts
-- are configured, the fixed part is not negative and the share lies between 0 and 1.
pub calculate_platform_fee_minor-ok_iff :
    (amount : ℕ) (kind : CommissionType) (share fixed_minor : Option ℤ)
    → 0 < amount
    → ((fee : ℕ) × (calculate_platform_fee_minor (pos amount) kind share fixed_minor ≡ ok fee))
      ↔ IsConfig share fixed_minor
unfolding calculate_platform_fee_minor
calculate_platform_fee_minor-ok_iff amount kind none none h =
    ((λ (f, e). ground arith), λ c. absurd c)
calculate_platform_fee_minor-ok_iff amount kind none (some x) h =
    ((λ (f, e). ground arith), λ c. absurd c)
calculate_platform_fee_minor-ok_iff amount kind (some share) none h =
    ((λ (f, e). ground arith), λ c. absurd c)
calculate_platform_fee_minor-ok_iff amount kind (some share) (some x) h =
    ((λ (f, e). ground arith), λ c. (fee_of amount kind (some share) (some x), ground arith))
