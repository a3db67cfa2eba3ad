-- ===== src/WhatsApp/ReadBack.antt =====
-- The ids that a conversation offers are read back
-- (backend/app/services/whatsapp/service.py).
use book_point.Base.{suc, ◌≡◌, refl, ◌∙◌, ap, true, false, some, [], ◌∷◌, ◌++◌, ◌==◌, All, arith}
use book_point.Base.Decimal.{Digits, read_int, read_int-show_int, show, show_int, show-Digits}
use book_point.Base.Int.{ℤ, pos, negsuc}
use book_point.Base.Text.{Text}
use book_point.WhatsApp.Actions.{
  Action, after_colon, before_colon, first_number, number, parse, print,
}
use book_point.WhatsApp.Calendar.{fromisoformat-isoformat, is_date, isoformat}
use mathlib.Core.Option.{map}

abbrev NoColon : Text → Type 0
NoColon = All (λ c. (c == b':') ≡ false)

Digits-NoColon : (s : Text) → Digits s → NoColon s
Digits-NoColon [] h = tt
Digits-NoColon (c ∷ s) h = (ground (arith, h.0), Digits-NoColon s h.1)

show_int-NoColon : (z : ℤ) → NoColon (show_int z)
unfolding show_int
show_int-NoColon (pos n) = Digits-NoColon (show n) (show-Digits n)
show_int-NoColon (negsuc n) = (refl, Digits-NoColon (show (suc n)) (show-Digits (suc n)))

before_colon-all : (s : Text) → NoColon s → before_colon s ≡ s
before_colon-all [] h = refl
before_colon-all (c ∷ s) h = rw h.0 (ap (λ t. c ∷ t) (before_colon-all s h.1))

before_colon-append : (s t : Text) → NoColon s → before_colon (s ++ (b':' ∷ t)) ≡ s
before_colon-append [] t h = refl
before_colon-append (c ∷ s) t h = rw h.0 (ap (λ u. c ∷ u) (before_colon-append s t h.1))

after_colon-append : (s t : Text) → NoColon s → after_colon (s ++ (b':' ∷ t)) ≡ some t
after_colon-append [] t h = refl
after_colon-append (c ∷ s) t h = rw h.0 (after_colon-append s t h.1)

number-read : (action : ℤ → Action) (z : ℤ) → number action (show_int z) ≡ some (action z)
number-read action z = ap (map action) (read_int-show_int z)

first_number-read :
    (action : ℤ → Action) (z : ℤ) → first_number action (show_int z) ≡ some (action z)
first_number-read action z =
    ap (λ s. map action (read_int s)) (before_colon-all (show_int z) (show_int-NoColon z))
    ∙ number-read action z

-- The dates of an action are dates that Python has.
abbrev pub HasDate : Action → Type 0
HasDate (Action.select_date d) = is_date d ≡ true
HasDate (Action.select_new_date k d) = is_date d ≡ true
HasDate _ = Unit {0}

-- Of every action whose date, where it has one, is a date that Python has, the id that is offered
-- is read back as that action.
pub parse-print : (action : Action) → HasDate action → parse (print action) ≡ some action
unfolding parse print
parse-print (Action.select_organization k) h = number-read Action.select_organization k
parse-print (Action.change_organization) h = refl
parse-print (Action.begin_booking) h = refl
parse-print (Action.show_upcoming) h = refl
parse-print (Action.select_location k) h = number-read Action.select_location k
parse-print (Action.select_service k) h = number-read Action.select_service k
parse-print (Action.select_provider k) h = number-read Action.select_provider k
parse-print (Action.select_date d) h = ap (map Action.select_date) (fromisoformat-isoformat d h)
parse-print (Action.select_slot t) h = number-read Action.select_slot t
parse-print (Action.confirm_booking t) h = first_number-read Action.confirm_booking t
parse-print (Action.choose_other_date) h = refl
parse-print (Action.show_booking k) h = number-read Action.show_booking k
parse-print (Action.ask_cancel k) h = first_number-read Action.ask_cancel k
parse-print (Action.cancel_confirmed k) h = first_number-read Action.cancel_confirmed k
parse-print (Action.keep_booking k) h = first_number-read Action.keep_booking k
parse-print (Action.ask_reschedule k) h = first_number-read Action.ask_reschedule k
parse-print (Action.select_new_date k d) h =
    rw
      (
        after_colon-append (show_int k) (isoformat d) (show_int-NoColon k),
        before_colon-append (show_int k) (isoformat d) (show_int-NoColon k),
        read_int-show_int k,
        fromisoformat-isoformat d h,
      )
      refl
parse-print (Action.select_new_slot k t) h =
    rw
      (
        after_colon-append (show_int k) (show_int t) (show_int-NoColon k),
        before_colon-append (show_int k) (show_int t) (show_int-NoColon k),
        read_int-show_int k,
        read_int-show_int t,
      )
      refl
parse-print (Action.reschedule_confirmed k t) h =
    rw
      (
        after_colon-append (show_int k) (show_int t) (show_int-NoColon k),
        before_colon-append (show_int k) (show_int t) (show_int-NoColon k),
        read_int-show_int k,
        read_int-show_int t,
      )
      refl
parse-print (Action.choose_other_new_date k t) h =
    rw
      (
        after_colon-append (show_int k) t (show_int-NoColon k),
        before_colon-append (show_int k) t (show_int-NoColon k),
        read_int-show_int k,
      )
      refl
