-- ===== src/Customers/Phone.antt =====
-- `normalize_phone_number` of backend/app/utils/phone.py, on ASCII digits.
use book_point.Base.{
  ◌≡◌, refl, ◌∙◌, ap, subst, inl, inr, [], ◌∷◌, ◌++◌, ltb, ◌==◌, keep, length, Bool-cases,
}
use book_point.Base.Stripped.{NoSpace, digit-not_space, strip-NoSpace}
use book_point.Base.Text.{Text, codes, is_digit, strip}
use book_point.Results.{
  Result, ok, ◌>>◌, raise_if, eq_of_ok, raise_if-eq-ok, phone_too_long, phone_too_short,
  phone_without_digits,
}

-- `re.sub(r"\D", "", s)`
abbrev pub digits_of : Text → Text
digits_of = keep is_digit

unfoldable pub normalize_phone_number : Text → Result Text
unfolding strip
normalize_phone_number raw_phone_number = do
  let digits = digits_of (strip raw_phone_number)
  raise_if (length digits == 0) phone_without_digits
  raise_if (ltb (length digits) 7) phone_too_short
  raise_if (ltb 15 (length digits)) phone_too_long
  ok (codes "+" ++ digits)

digits_of-NoSpace : (s : Text) → NoSpace (digits_of s)
digits_of-NoSpace [] = tt
digits_of-NoSpace (c ∷ s) = elim (Bool-cases (is_digit c)) [
  | inl y ↦ rw y (digit-not_space c y, digits_of-NoSpace s)
  | inr n ↦ rw n (digits_of-NoSpace s)
]

digits_of-digits_of : (s : Text) → digits_of (digits_of s) ≡ digits_of s
digits_of-digits_of [] = refl
digits_of-digits_of (c ∷ s) = elim (Bool-cases (is_digit c)) [
  | inl y ↦ rw (y, y) (ap (λ t. c ∷ t) (digits_of-digits_of s))
  | inr n ↦ rw n (digits_of-digits_of s)
]

-- The checks of a number, by its digits.
abbrev checked : Text → Result Text
checked digits = do
  raise_if (length digits == 0) phone_without_digits
  raise_if (ltb (length digits) 7) phone_too_short
  raise_if (ltb 15 (length digits)) phone_too_long
  ok (codes "+" ++ digits)

checked-eq_ok : (digits number : Text) → checked digits ≡ ok number → codes "+" ++ digits ≡ number
checked-eq_ok digits number h =
    let (_, h₁) = raise_if-eq-ok (length digits == 0) _ _ h in
    let (_, h₂) = raise_if-eq-ok (ltb (length digits) 7) _ _ h₁ in
    let (_, h₃) = raise_if-eq-ok (ltb 15 (length digits)) _ _ h₂ in eq_of_ok h₃

-- If a text normalizes to a phone number, that number normalizes to itself.
pub normalize_phone_number-idempotent :
    (raw number : Text)
    → normalize_phone_number raw ≡ ok number
    → normalize_phone_number number ≡ ok number
unfolding normalize_phone_number
normalize_phone_number-idempotent raw number h =
    let digits = digits_of (strip raw) in
    let number_is = checked-eq_ok digits number h in
    let plus = codes "+" ++ digits in
    let stripped = strip-NoSpace plus (refl, digits_of-NoSpace (strip raw)) in
    let again : checked (digits_of (strip plus)) ≡ checked digits =
      ap (λ t. checked (digits_of t)) stripped ∙ ap checked (digits_of-digits_of (strip raw)) in
    subst (λ t. checked (digits_of (strip t)) ≡ ok number) number_is (again ∙ h)
