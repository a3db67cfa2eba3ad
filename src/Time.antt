-- ===== src/Time.antt =====
-- Dates and times: backend/app/utils/datetime.py and the `_as_utc` helpers of the services.
-- An instant is a number of microseconds after an epoch, of either sign, and a `timedelta` a number
-- of microseconds. Python's datetime ends at the years 1 and 9999; the model has no such ends.
pub mod Instants
unfoldable pub use Instants.*
use book_point.Base.{ℕ, ◌+◌, ◌-◌, ◌*◌, ◌%◌, ◌≤◌, Bool, List, [], ◌∷◌, zero, suc}
use book_point.Base.Int.{ℤ}
use book_point.Results.{Result, ok, err, naive_datetime}

-- A naive value carries a wall clock; an aware one is an instant with some offset.
pub data Datetime : Type 0 where
  naive aware : ℤ → Datetime

-- `_as_utc`: a naive value is read as UTC.
unfoldable pub as_utc : Datetime → ℤ
as_utc (naive t) = t
as_utc (aware t) = t

unfoldable pub ensure_aware_utc : Datetime → Result ℤ
ensure_aware_utc (naive t) = err naive_datetime
ensure_aware_utc (aware t) = ok t

-- A `date` is its ordinal (1 January of the year 1 is 1), a Monday; `weekday()` has Monday as 0.
unfoldable pub weekday : ℕ → ℕ
weekday d = (d + 6) % 7

days_from : ℕ → ℕ → List ℕ
days_from zero d = []
days_from (suc n) d = d ∷ days_from n (d + 1)

-- `daterange`: the days from the first to the last, which are none if the last is before it.
unfoldable pub daterange : ℕ → ℕ → List ℕ
unfolding days_from
daterange start_date end_date = days_from (end_date + 1 - start_date) start_date

-- The time-zone database: when a wall clock on a day is, in UTC, and the local day of an instant.
pub record Zones : Type 0 where
  pub to_utc : (zone date time : ℕ) → ℤ
  pub local_date : (zone : ℕ) → ℤ → ℕ
