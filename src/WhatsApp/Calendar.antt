-- ===== src/WhatsApp/Calendar.antt =====
-- Python's `date` as the conversation writes and reads it (backend/app/services/whatsapp/service.py).
-- `date.fromisoformat` reads YYYY-MM-DD and YYYYMMDD here; its week dates (YYYY-Www-D) are left out.
use book_point.Base.{
  ℕ, ltb, ◌+◌, ◌-◌, ◌*◌, ◌/◌, ◌%◌, ◌≤◌, ◌≡◌, refl, Bool, true, ◌&&◌, ◌||◌, not, Option, none, some,
  inl, inr, List, All, Bool-cases, [], ◌∷◌, leb, ◌==◌, if◌then◌else◌, arith,
}
use book_point.Base.Text.{Text, is_digit}

pub record Date : Type 0 where
  pub year : ℕ
  pub month : ℕ
  pub day : ℕ

abbrev leap : ℕ → Bool
leap year = (year % 4 == 0) && (not (year % 100 == 0) || (year % 400 == 0))

abbrev month_lengths : ℕ → List ℕ
month_lengths year =
    31 ∷ (if leap year then 29 else 28) ∷ 31 ∷ 30 ∷ 31 ∷ 30 ∷ 31 ∷ 31 ∷ 30 ∷ 31 ∷ 30 ∷ 31 ∷ []

-- The item of a list at a place, counted from 1.
abbrev at_place : List ℕ → ℕ → ℕ
at_place [] n = 0
at_place (x ∷ xs) n = let rest = at_place xs (n - 1) in if n == 1 then x else rest

-- The month that a day of the year is in, and its day there; both count from 1, `rest` from 0.
abbrev month_and_day : List ℕ → (month rest : ℕ) → ℕ × ℕ
month_and_day [] month rest = (month, rest + 1)
month_and_day (length ∷ lengths) month rest =
    let later = month_and_day lengths (month + 1) (rest - length) in
    if ltb rest length then (month, rest + 1) else later

-- `date.fromordinal`: cycles of 400, 100, 4 and 1 years, of which the last day of a long one is
-- the last of its year.
unfoldable pub from_ordinal : ℕ → Date
from_ordinal ordinal =
    let days = ordinal - 1 in
    let in_century = days % 146_097 in
    let in_four = in_century % 36_524 % 1_461 in
    let centuries = in_century / 36_524 in
    let years = in_four / 365 in
    let before =
      400 * (days / 146_097) + 100 * centuries + 4 * (in_century % 36_524 / 1_461) + years in
    let (month, day) = month_and_day (month_lengths (before + 1)) 1 (in_four % 365) in
    if (years == 4) || (centuries == 4)
    then record { year = before; month = 12; day = 31 }
    else record { year = before + 1; month = month; day = day }

-- The days of the months before the one of that number.
abbrev days_before_month : List ℕ → ℕ → ℕ
days_before_month [] month = 0
days_before_month (length ∷ lengths) month =
    let later = days_before_month lengths (month - 1) in if leb month 1 then 0 else length + later

-- `date.toordinal`
unfoldable pub to_ordinal : Date → ℕ
to_ordinal date =
    let before = date.year - 1 in
    let days = 365 * before + before / 4 - before / 100 + before / 400 in
    days + days_before_month (month_lengths date.year) date.month + date.day

-- The dates that the constructor of `date` accepts.
abbrev in_range : (year month day last : ℕ) → Bool
in_range year month day last =
    leb 1 year && leb year 9999 && leb 1 month && leb month 12 && leb 1 day && leb day last

unfoldable pub is_date : Date → Bool
is_date d = in_range d.year d.month d.day (at_place (month_lengths d.year) d.month)

abbrev digit : ℕ → ℕ
digit n = b'0' + n % 10

unfoldable pub isoformat : Date → Text
isoformat d =
    digit (d.year / 1000)
    ∷ digit (d.year / 100)
    ∷ digit (d.year / 10)
    ∷ digit d.year
    ∷ b'-'
    ∷ digit (d.month / 10)
    ∷ digit d.month
    ∷ b'-'
    ∷ digit (d.day / 10)
    ∷ digit d.day
    ∷ []

abbrev value : ℕ → ℕ
value c = c - b'0'

abbrev date_of : (year month day : ℕ) → Option Date
date_of year month day =
    let d : Date = record { year = year; month = month; day = day } in
    if is_date d then some d else none

abbrev read_date : (y₁ y₂ y₃ y₄ m₁ m₂ d₁ d₂ : ℕ) → Option Date
read_date y₁ y₂ y₃ y₄ m₁ m₂ d₁ d₂ =
    if is_digit y₁
      && is_digit y₂
      && is_digit y₃
      && is_digit y₄
      && is_digit m₁
      && is_digit m₂
      && is_digit d₁
      && is_digit d₂
    then date_of (value y₁ * 1000 + value y₂ * 100 + value y₃ * 10 + value y₄)
        (value m₁ * 10 + value m₂) (value d₁ * 10 + value d₂)
    else none

unfoldable pub fromisoformat : Text → Option Date
unfolding is_date
fromisoformat (y₁ ∷ y₂ ∷ y₃ ∷ y₄ ∷ m₁ ∷ m₂ ∷ d₁ ∷ d₂ ∷ []) = read_date y₁ y₂ y₃ y₄ m₁ m₂ d₁ d₂
fromisoformat (y₁ ∷ y₂ ∷ y₃ ∷ y₄ ∷ a ∷ m₁ ∷ m₂ ∷ b ∷ d₁ ∷ d₂ ∷ []) =
    if (a == b'-') && (b == b'-') then read_date y₁ y₂ y₃ y₄ m₁ m₂ d₁ d₂ else none
fromisoformat _ = none

digit-is_digit : (n : ℕ) → is_digit (digit n) ≡ true
digit-is_digit n = ground arith

four_digits :
    (n : ℕ)
    → n ≤ 9999
    → value (digit (n / 1000)) * 1000
        + value (digit (n / 100)) * 100
        + value (digit (n / 10)) * 10
        + value (digit n)
      ≡ n
four_digits n h = omega arith

two_digits : (n : ℕ) → n ≤ 99 → value (digit (n / 10)) * 10 + value (digit n) ≡ n
two_digits n h = omega arith

at_place-le : (bound n : ℕ) (xs : List ℕ) → All (λ x. x ≤ bound) xs → at_place xs n ≤ bound
at_place-le bound n [] h = omega arith
at_place-le bound n (x ∷ xs) h = elim (Bool-cases (n == 1)) [
  | inl y ↦ rw y h.0
  | inr k ↦ rw k (at_place-le bound (n - 1) xs h.1)
]

month_lengths-le : (year n : ℕ) → at_place (month_lengths year) n ≤ 31
month_lengths-le year n =
    let february : (if leap year then 29 else 28) ≤ 31 = elim (Bool-cases (leap year)) [
      | inl y ↦ rw y (omega arith)
      | inr k ↦ rw k (omega arith)
    ] in
    at_place-le 31 n (month_lengths year) (ground (arith, february))

in_range-bounds :
    (year month day last : ℕ)
    → last ≤ 31
    → in_range year month day last ≡ true
    → (year ≤ 9999) × (month ≤ 99) × (day ≤ 99)
in_range-bounds year month day last h e = (ground arith, ground arith, ground arith)

-- A date that Python has is read back from its text.
pub fromisoformat-isoformat : (d : Date) → is_date d ≡ true → fromisoformat (isoformat d) ≡ some d
unfolding fromisoformat isoformat is_date
fromisoformat-isoformat d h =
    let (year_le, month_le, day_le) =
      in_range-bounds d.year d.month d.day (at_place (month_lengths d.year) d.month)
        (month_lengths-le d.year d.month) h in
    rw
      (
        digit-is_digit (d.year / 1000),
        digit-is_digit (d.year / 100),
        digit-is_digit (d.year / 10),
        digit-is_digit d.year,
        digit-is_digit (d.month / 10),
        digit-is_digit d.month,
        digit-is_digit (d.day / 10),
        digit-is_digit d.day,
        four_digits d.year year_le,
        two_digits d.month month_le,
        two_digits d.day day_le,
        h,
      )
      refl
