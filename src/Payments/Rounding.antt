-- ===== src/Payments/Rounding.antt =====
-- `quantize(Decimal("1"), rounding=ROUND_HALF_UP)` of a quotient that is not negative.
use native.Mathlib.Decide.{dec_le}
use native.Mathlib.Nat.{div-add-mod, mod-lt, mul-div-le}
use book_point.Base.{ℕ, ◌+◌, ◌*◌, ◌/◌, ◌≤◌, ◌<◌, arith}

unfoldable pub round_half_up : ℕ → ℕ → ℕ
round_half_up n d = (2 * n + d) / (2 * d)

-- It is the nearest integer, and a half goes up.
pub round_half_up-nearest :
    (n d : ℕ)
    → 0 < d
    → (2 * d * round_half_up n d ≤ 2 * n + d) × (2 * n + d < 2 * d * round_half_up n d + 2 * d)
unfolding round_half_up
round_half_up-nearest n d h = (
  mul-div-le (2 * n + d) (2 * d),
  omega (arith, div-add-mod (2 * n + d) (2 * d), mod-lt (2 * n + d) {m = 2 * d} (omega arith)),
)

-- A share of at most the whole is at most the amount.
pub round_half_up-le : (n p d : ℕ) → 0 < d → p ≤ d → round_half_up (n * p) d ≤ n
round_half_up-le n p d h k =
    let near = (round_half_up-nearest (n * p) d h).0 in
    let share : n * p ≤ n * d = grind arith in
    elim (dec_le (round_half_up (n * p) d) n) [
      | yes q ↦ q
      | no q ↦
          let more : d * (n + 1) ≤ d * round_half_up (n * p) d = grind arith in
          absurd (omega (arith, near, share, more))
    ]
