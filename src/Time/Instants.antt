-- ===== src/Time/Instants.antt =====
-- Instants, their shifts by minutes, and the overlap test of intervals.
use book_point.Base.{ℕ, ◌*◌, ◌≡◌, ◌↔◌, Bool, true, ◌&&◌, arith}
use book_point.Base.Int.{ℤ, pos, ◌<ℤ◌, ltb_ℤ}

-- `timedelta(minutes=n)`
abbrev pub minutes : ℕ → ℤ
minutes n = pos (60_000_000 * n)

-- `timedelta(hours=n)`
abbrev pub hours : ℕ → ℤ
hours n = pos (3_600_000_000 * n)

-- `_overlaps`
unfoldable pub overlaps : ℤ → ℤ → ℤ → ℤ → Bool
overlaps start_a end_a start_b end_b = ltb_ℤ start_a end_b && ltb_ℤ start_b end_a

-- The test says that the two half-open intervals meet.
pub overlaps_iff : (a b c d : ℤ) → (overlaps a b c d ≡ true) ↔ ((a <ℤ d) × (c <ℤ b))
unfolding overlaps
overlaps_iff a b c d = ground arith

pub overlaps_comm : (a b c d : ℤ) → overlaps a b c d ≡ overlaps c d a b
unfolding overlaps
overlaps_comm a b c d = ground arith
