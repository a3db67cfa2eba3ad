-- ===== src/Base/Decimal.antt =====
-- `str` and `int` of Python between integers and text. `int` is on ASCII digits.
use book_point.Base.{
  ℕ, zero, suc, ◌+◌, ◌-◌, ◌*◌, ◌/◌, ◌%◌, ◌<◌, ◌≡◌, refl, ◌∙◌, ap, Bool, true, false, ◌&&◌, Option,
  none, some, inl, inr, [], ◌∷◌, ◌++◌, All, ltb, ◌==◌, if◌then◌else◌, Bool-cases, arith,
}
use book_point.Base.Int.{ℤ, pos, negsuc}
use book_point.Base.Stripped.{NoSpace, digit-not_space, strip-NoSpace}
use book_point.Base.Text.{Text, is_digit, strip}
use mathlib.Core.Option.{map}

-- `str(n)`; each round of the division takes one off the fuel.
eq_of_some : {A : Type 0} {a b : A} → some a ≡ some b → a ≡ b
eq_of_some e = cc

none≢some : {A : Type 0} {a : A} → ¬ (none ≡ some a)
none≢some e = cc

show_within : ℕ → ℕ → Text
show_within zero n = []
show_within (suc fuel) n =
    let rest = show_within fuel (n / 10) in
    if ltb n 10 then (b'0' + n) ∷ [] else rest ++ ((b'0' + n % 10) ∷ [])

unfoldable pub show : ℕ → Text
unfolding show_within
show n = show_within (n + 1) n

unfoldable pub show_int : ℤ → Text
unfolding show
show_int (pos n) = show n
show_int (negsuc n) = b'-' ∷ show (suc n)

-- Digits, with an underscore allowed between two of them; `after` says that a digit came just before.
abbrev pub read_digits : ℕ → Bool → Text → Option ℕ
read_digits value after [] = if after then some value else none
read_digits value after (c ∷ s) =
    let digit = read_digits (value * 10 + (c - b'0')) true s in
    let next = read_digits value false s in
    if is_digit c then digit else if after && (c == b'_') then next else none

abbrev opposite : ℕ → ℤ
opposite zero = pos zero
opposite (suc n) = negsuc n

abbrev read_signed : Text → Option ℤ
read_signed [] = none
read_signed (c ∷ s) =
    if c == b'-'
    then map opposite (read_digits 0 false s)
    else if c == b'+'
    then map pos (read_digits 0 false s)
    else map pos (read_digits 0 false (c ∷ s))

-- `int(s)`
unfoldable pub read_int : Text → Option ℤ
unfolding strip
read_int s = read_signed (strip s)

read_digits-snoc :
    (value : ℕ) (after : Bool) (s : Text) (c v : ℕ)
    → is_digit c ≡ true
    → read_digits value after s ≡ some v
    → read_digits value after (s ++ (c ∷ [])) ≡ some (v * 10 + (c - b'0'))
read_digits-snoc value after [] c v d h = elim (Bool-cases after) [
  | inl y ↦ rw (d, eq_of_some (rw y at h)) refl
  | inr n ↦ absurd (none≢some (rw n at h))
]
read_digits-snoc value after (x ∷ s) c v d h = elim (Bool-cases (is_digit x)) [
  | inl y ↦ rw y (read_digits-snoc (value * 10 + (x - b'0')) true s c v d (rw y at h))
  | inr n ↦ elim (Bool-cases (after && (x == b'_'))) [
    | inl y ↦ rw (n, y) (read_digits-snoc value false s c v d (rw (n, y) at h))
    | inr m ↦ absurd (none≢some (rw (n, m) at h))
  ]
]

read_digits-show_within :
    (fuel n : ℕ) → n < fuel → read_digits 0 false (show_within fuel n) ≡ some n
unfolding show_within
read_digits-show_within zero n h = absurd (omega arith)
read_digits-show_within (suc fuel) n h = elim (Bool-cases (ltb n 10)) [
  | inl y ↦
      let digit : is_digit (b'0' + n) ≡ true = ground arith in rw (y, digit) (ap some (omega arith))
  | inr k ↦
      let digit : is_digit (b'0' + n % 10) ≡ true = ground arith in
      let shorter : n / 10 < fuel = ground arith in
      let last =
        read_digits-snoc 0 false (show_within fuel (n / 10)) (b'0' + n % 10) (n / 10) digit
          (read_digits-show_within fuel (n / 10) shorter) in
      rw k (last ∙ ap some (omega arith))
]

abbrev pub Digits : Text → Type 0
Digits = All (λ c. is_digit c ≡ true)

Digits-snoc : (s : Text) (c : ℕ) → Digits s → is_digit c ≡ true → Digits (s ++ (c ∷ []))
Digits-snoc [] c h d = (d, tt)
Digits-snoc (x ∷ s) c h d = (h.0, Digits-snoc s c h.1 d)

show_within-Digits : (fuel n : ℕ) → Digits (show_within fuel n)
unfolding show_within
show_within-Digits zero n = tt
show_within-Digits (suc fuel) n = elim (Bool-cases (ltb n 10)) [
  | inl y ↦ let digit : is_digit (b'0' + n) ≡ true = ground arith in rw y (digit, tt)
  | inr k ↦
      let digit : is_digit (b'0' + n % 10) ≡ true = ground arith in
      rw k (
        Digits-snoc (show_within fuel (n / 10)) (b'0' + n % 10) (show_within-Digits fuel (n / 10))
          digit)
]

pub show-Digits : (n : ℕ) → Digits (show n)
unfolding show
show-Digits n = show_within-Digits (n + 1) n

Digits-NoSpace : (s : Text) → Digits s → NoSpace s
Digits-NoSpace [] h = tt
Digits-NoSpace (c ∷ s) h = (digit-not_space c h.0, Digits-NoSpace s h.1)

-- The text of a number starts with a digit, so its sign is read as none.
read_signed-Digits :
    (s : Text) (n : ℕ) → Digits s → read_digits 0 false s ≡ some n → read_signed s ≡ some (pos n)
read_signed-Digits [] n h e = absurd (none≢some e)
read_signed-Digits (c ∷ s) n h e =
    let no_minus : (c == b'-') ≡ false = ground (arith, h.0) in
    let no_plus : (c == b'+') ≡ false = ground (arith, h.0) in
    rw (no_minus, no_plus) (ap (map pos) e)

read_digits-show : (n : ℕ) → read_digits 0 false (show n) ≡ some n
unfolding show
read_digits-show n = read_digits-show_within (n + 1) n (omega arith)

-- `int(str(z))` is `z`.
pub read_int-show_int : (z : ℤ) → read_int (show_int z) ≡ some z
unfolding read_int show_int
read_int-show_int (pos n) =
    let s = show n in
    ap read_signed (strip-NoSpace s (Digits-NoSpace s (show-Digits n)))
    ∙ read_signed-Digits s n (show-Digits n) (read_digits-show n)
read_int-show_int (negsuc n) =
    let s = show (suc n) in
    ap read_signed (strip-NoSpace (b'-' ∷ s) (refl, Digits-NoSpace s (show-Digits (suc n))))
    ∙ ap (map opposite) (read_digits-show (suc n))
