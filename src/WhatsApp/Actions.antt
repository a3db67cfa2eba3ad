-- ===== src/WhatsApp/Actions.antt =====
-- The ids of buttons and list rows in backend/app/services/whatsapp/service.py: `print` writes the
-- ids that the messages offer, and `parse` reads an id as `_handle_action_id` does, which calls the
-- handler named by the action. `int` and `date.fromisoformat` raise ValueError where they give none.
use book_point.Base.{Option, none, some, List, [], ◌∷◌, ◌++◌, ◌==◌, if◌then◌else◌}
use book_point.Base.Decimal.{read_int, show_int}
use book_point.Base.Int.{ℤ}
use book_point.Base.Text.{Text, codes, eq_text}
use book_point.WhatsApp.Calendar.{Date, fromisoformat, isoformat}
use mathlib.Core.Option.{map}

infixl 5 ◌>>=◌
abbrev pub ◌>>=◌ {ℓ ℓ'} : {A : Type ℓ} → {B : Type ℓ'} → Option A → (A → Option B) → Option B
none >>= f = none
some a >>= f = f a

pub data Action : Type 0 where
  select_organization : (organization_id : ℤ) → Action
  change_organization begin_booking show_upcoming : Action
  select_location : (location_id : ℤ) → Action
  select_service : (service_id : ℤ) → Action
  select_provider : (provider_id : ℤ) → Action
  select_date : (slot_date : Date) → Action
  select_slot : (slot_timestamp : ℤ) → Action
  confirm_booking : (slot_timestamp : ℤ) → Action
  choose_other_date : Action
  show_booking : (appointment_id : ℤ) → Action
  ask_cancel : (appointment_id : ℤ) → Action
  cancel_confirmed : (appointment_id : ℤ) → Action
  keep_booking : (appointment_id : ℤ) → Action
  ask_reschedule : (appointment_id : ℤ) → Action
  select_new_date : (appointment_id : ℤ) → (slot_date : Date) → Action
  select_new_slot : (appointment_id slot_timestamp : ℤ) → Action
  reschedule_confirmed : (appointment_id slot_timestamp : ℤ) → Action
  -- The text after the appointment is not read.
  choose_other_new_date : (appointment_id : ℤ) → (rest : Text) → Action

-- Two numbers of an id, with a colon between them.
abbrev pair : ℤ → Text → Text
pair appointment_id rest = show_int appointment_id ++ (b':' ∷ rest)

unfoldable pub print : Action → Text
unfolding show_int isoformat
print (select_organization k) = codes "org:" ++ show_int k
print change_organization = codes "menu:change_org"
print begin_booking = codes "menu:book"
print show_upcoming = codes "menu:upcoming"
print (select_location k) = codes "loc:" ++ show_int k
print (select_service k) = codes "svc:" ++ show_int k
print (select_provider k) = codes "prov:" ++ show_int k
print (select_date d) = codes "date:" ++ isoformat d
print (select_slot t) = codes "slot:" ++ show_int t
print (confirm_booking t) = codes "confirm_book:yes:" ++ show_int t
print choose_other_date = codes "confirm_book:no"
print (show_booking k) = codes "booking:" ++ show_int k
print (ask_cancel k) = codes "booking_action:cancel:" ++ show_int k
print (cancel_confirmed k) = codes "confirm_cancel:yes:" ++ show_int k
print (keep_booking k) = codes "confirm_cancel:no:" ++ show_int k
print (ask_reschedule k) = codes "booking_action:reschedule:" ++ show_int k
print (select_new_date k d) = codes "resched_date:" ++ pair k (isoformat d)
print (select_new_slot k t) = codes "resched_slot:" ++ pair k (show_int t)
print (reschedule_confirmed k t) = codes "confirm_reschedule:yes:" ++ pair k (show_int t)
print (choose_other_new_date k t) = codes "confirm_reschedule:no:" ++ pair k t

-- What follows a prefix. The colon that ends a prefix is its last, so a split at it gives this too.
abbrev pub after_prefix : Text → Text → Option Text
after_prefix [] s = some s
after_prefix (p ∷ prefix) [] = none
after_prefix (p ∷ prefix) (c ∷ s) =
    let rest = after_prefix prefix s in if p == c then rest else none

-- `split(":")` has what stands before the first colon first, and `split(":", 1)` what follows second.
abbrev pub before_colon : Text → Text
before_colon [] = []
before_colon (c ∷ s) = let rest = before_colon s in if c == b':' then [] else c ∷ rest

abbrev pub after_colon : Text → Option Text
after_colon [] = none
after_colon (c ∷ s) = let rest = after_colon s in if c == b':' then some s else rest

-- A test of `_handle_action_id`, with what it reads.
pub data Route : Type 0 where
  exactly : Text → Action → Route
  prefixed : Text → (Text → Option Action) → Route

abbrev pub number : (ℤ → Action) → Text → Option Action
number action s = map action (read_int s)

-- The number up to the next colon; what follows that is ignored.
abbrev pub first_number : (ℤ → Action) → Text → Option Action
first_number action s = map action (read_int (before_colon s))

abbrev pub numbers : (ℤ → ℤ → Action) → Text → Option Action
numbers action s = do
  rest ← after_colon s
  k ← read_int (before_colon s)
  t ← read_int rest
  some (action k t)

abbrev number_and_date : (ℤ → Date → Action) → Text → Option Action
number_and_date action s = do
  rest ← after_colon s
  k ← read_int (before_colon s)
  d ← fromisoformat rest
  some (action k d)

abbrev number_and_rest : (ℤ → Text → Action) → Text → Option Action
number_and_rest action s = do
  rest ← after_colon s
  k ← read_int (before_colon s)
  some (action k rest)

abbrev pub routes : List Route
routes =
    prefixed (codes "org:") (number select_organization)
    ∷ exactly (codes "menu:change_org") change_organization
    ∷ exactly (codes "menu:book") begin_booking
    ∷ exactly (codes "menu:upcoming") show_upcoming
    ∷ prefixed (codes "loc:") (number select_location)
    ∷ prefixed (codes "svc:") (number select_service)
    ∷ prefixed (codes "prov:") (number select_provider)
    ∷ prefixed (codes "date:") (λ s. map select_date (fromisoformat s))
    ∷ prefixed (codes "slot:") (number select_slot)
    ∷ prefixed (codes "confirm_book:yes:") (first_number confirm_booking)
    ∷ exactly (codes "confirm_book:no") choose_other_date
    ∷ prefixed (codes "booking:") (number show_booking)
    ∷ prefixed (codes "booking_action:cancel:") (first_number ask_cancel)
    ∷ prefixed (codes "confirm_cancel:yes:") (first_number cancel_confirmed)
    ∷ prefixed (codes "confirm_cancel:no:") (first_number keep_booking)
    ∷ prefixed (codes "booking_action:reschedule:") (first_number ask_reschedule)
    ∷ prefixed (codes "resched_date:") (number_and_date select_new_date)
    ∷ prefixed (codes "resched_slot:") (numbers select_new_slot)
    ∷ prefixed (codes "confirm_reschedule:yes:") (numbers reschedule_confirmed)
    ∷ prefixed (codes "confirm_reschedule:no:") (number_and_rest choose_other_new_date)
    ∷ []

abbrev pub try_routes : List Route → Text → Option Action
try_routes [] s = none
try_routes (exactly text action ∷ rest) s =
    let later = try_routes rest s in if eq_text s text then some action else later
try_routes (prefixed prefix read ∷ rest) s = elim (after_prefix prefix s) [
  | none ↦ try_routes rest s
  | some tail ↦ read tail
]

unfoldable pub parse : Text → Option Action
unfolding read_int fromisoformat
parse = try_routes routes
