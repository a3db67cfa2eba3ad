-- ===== src/Base/Stripped.antt =====
-- Text without whitespace, which `str.strip` leaves as it is.
use mathlib.Core.List.{reverse-append, reverse-reverse}
use book_point.Base.{ℕ, ◌≡◌, refl, sym, subst, true, false, [], ◌∷◌, ◌++◌, reverse, All, arith}
use book_point.Base.Text.{Text, is_digit, is_space, strip, strip_left}

abbrev pub NoSpace : Text → Type 0
NoSpace = All (λ c. is_space c ≡ false)

strip_left-NoSpace : (s : Text) → NoSpace s → strip_left s ≡ s
strip_left-NoSpace [] h = refl
strip_left-NoSpace (c ∷ s) h = rw (h.0) refl

pub NoSpace-append : (s t : Text) → NoSpace s → NoSpace t → NoSpace (s ++ t)
NoSpace-append [] t h k = k
NoSpace-append (c ∷ s) t h k = (h.0, NoSpace-append s t h.1 k)

NoSpace-reverse : (s : Text) → NoSpace s → NoSpace (reverse s)
NoSpace-reverse [] h = tt
NoSpace-reverse (c ∷ s) h =
    subst NoSpace (sym (reverse-append (c ∷ []) s))
      (NoSpace-append (reverse s) (c ∷ []) (NoSpace-reverse s h.1) (h.0, tt))

pub strip-NoSpace : (s : Text) → NoSpace s → strip s ≡ s
unfolding strip
strip-NoSpace s h =
    rw (strip_left-NoSpace s h, strip_left-NoSpace (reverse s) (NoSpace-reverse s h))
      (reverse-reverse s)

pub digit-not_space : (c : ℕ) → is_digit c ≡ true → is_space c ≡ false
digit-not_space c h = ground arith
