-- ===== src/Results.antt =====
-- Exceptions as values: what the services of backend/app/services raise, one constructor a message.
use book_point.Base.{◌≡◌, refl, ◌⊎◌, inl, inr, Bool, true, false, Option, none, some}

pub data Error : Type 0 where
  -- raised by the scheduling and appointment services
  naive_datetime end_date_before_start date_range_too_long : Error
  provider_not_found provider_inactive location_not_found location_inactive : Error
  organization_inactive organization_mismatch provider_not_at_location : Error
  service_not_found provider_lacks_service service_not_at_location customer_not_found : Error
  bad_new_status overlapping_appointment slot_unavailable : Error
  appointment_not_found not_cancellable not_reschedulable : Error
  -- raised by the schedule maintenance services
  block_not_found bad_time_order overlapping_block : Error
  override_not_found override_needs_times day_marked_unavailable overlapping_override : Error
  unavailable_day_has_times day_has_windows day_already_unavailable : Error
  time_off_not_found bad_time_off : Error
  -- IntegrityError: a CHECK, a UNIQUE or a NOT NULL of the database
  integrity_error : Error
  -- raised by the payment services
  bad_commission bad_payment_policy currency_required unsupported_provider : Error
  payment_identifier_required payment_not_found organization_not_found : Error
  negative_refund refund_needs_success refund_exceeds_balance refund_not_found : Error
  no_earnings_ready payout_currency_mismatch no_positive_payout payout_not_found : Error
  -- raised for a customer, and by the discovery and self-service services
  phone_without_digits phone_too_short phone_too_long customer_name_required : Error
  organization_not_visible location_not_visible provider_not_visible service_not_visible : Error
  location_of_other_organization provider_of_other_organization : Error
  service_of_other_organization provider_not_assigned_to_location : Error
  provider_not_assigned_to_service service_not_available_at_location start_not_in_future : Error
  booking_not_found already_cancelled token_not_ascii : Error
  -- raised by the idempotency service
  key_too_long key_reused key_in_progress : Error
  -- a loop of the source that does not end
  diverges : Error
  -- TypeError and AttributeError: a value is None where the code needs one
  none_value : Error

-- What a call gives: an exception or a value.
pub data Result {ℓ} (Value : Type ℓ) : Type ℓ where
  err : Error → Result Value
  ok : Value → Result Value

module _ {ℓ κ} {Value : Type ℓ} {Next : Type κ} where
  infixl 5 ◌>>=◌
  -- An exception skips the rest.
  abbrev pub ◌>>=◌ : Result Value → (Value → Result Next) → Result Next
  err raised >>= rest = err raised
  ok value >>= rest = rest value

module _ {κ} {Next : Type κ} where
  infixl 5 ◌>>◌
  -- A check, and what follows it.
  abbrev pub ◌>>◌ : Result (Unit {0}) → Result Next → Result Next
  check >> rest = check >>= λ _. rest

-- `if not test: raise e`
abbrev pub require : Bool → Error → Result (Unit {0})
require true e = ok tt
require false e = err e

-- `if test: raise e`
abbrev pub raise_if : Bool → Error → Result (Unit {0})
raise_if true e = err e
raise_if false e = ok tt

-- `row = repo.get(...)`, then `if row is None: raise e`.
abbrev pub or_raise {ℓ} : {A : Type ℓ} → Option A → Error → Result A
or_raise none e = err e
or_raise (some a) e = ok a

module _ {ℓ κ} {Value : Type ℓ} {Next : Type κ} where
  -- A chain that succeeds has passed its first step.
  pub >>=-eq-ok :
      (first : Result Value) (rest : Value → Result Next) {result : Next}
      → (first >>= rest) ≡ ok result
      → (value : Value) × (first ≡ ok value) × (rest value ≡ ok result)
  >>=-eq-ok (err raised) rest done = cc
  >>=-eq-ok (ok value) rest done = (value, refl, done)

module _ {ℓ} {A : Type ℓ} where
  pub eq_of_ok : {a b : A} → ok a ≡ ok b → a ≡ b
  eq_of_ok h = cc

module _ {κ} {B : Type κ} where
  pub require-eq-ok :
      (t : Bool) (e : Error) (k : Result B) {b : B}
      → (require t e >> k) ≡ ok b
      → (t ≡ true) × (k ≡ ok b)
  require-eq-ok true e k h = (refl, h)
  require-eq-ok false e k h = cc

  pub raise_if-eq-ok :
      (t : Bool) (e : Error) (k : Result B) {b : B}
      → (raise_if t e >> k) ≡ ok b
      → (t ≡ false) × (k ≡ ok b)
  raise_if-eq-ok true e k h = cc
  raise_if-eq-ok false e k h = (refl, h)

module _ {ℓ κ} {A : Type ℓ} {B : Type κ} where
  pub or_raise-eq-ok :
      (o : Option A) (e : Error) (f : A → Result B) {b : B}
      → (or_raise o e >>= f) ≡ ok b
      → (a : A) × (o ≡ some a) × (f a ≡ ok b)
  or_raise-eq-ok none e f h = cc
  or_raise-eq-ok (some a) e f h = (a, refl, h)

module _ {ℓ} {A : Type ℓ} where
  -- To split on a computed result and keep the equation.
  pub Result-cases : (r : Result A) → ((e : Error) × (r ≡ err e)) ⊎ ((a : A) × (r ≡ ok a))
  Result-cases (ok a) = inr (a, refl)
  Result-cases (err e) = inl (e, refl)
