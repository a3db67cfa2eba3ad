-- ===== src/Customers/Resolve.antt =====
-- The customer of a public booking: `resolve_or_create_customer` of
-- backend/app/services/discovery_service.py, with the queries of the customer repository.
use book_point.Base.{
  ℕ, ◌+◌, Bool, true, false, not, ◌&&◌, ◌||◌, Option, none, some, List, [], ◌∷◌, ◌++◌, map, ◌==◌,
  any, first, keep, if◌then◌else◌,
}
use book_point.Base.Lists.{sort_by}
use book_point.Base.Text.{Text, eq_text, lower, strip}
use book_point.Customers.Phone.{normalize_phone_number}
use book_point.Models.{Appointment, Customer, Database}
use book_point.Results.{Result, ok, err, customer_name_required, integrity_error}

abbrev pub has_phone : Text → Customer → Bool
has_phone phone c = eq_text c.phone_number_normalized phone

abbrev pub get_by_phone_normalized : List Customer → Text → Option Customer
get_by_phone_normalized customers phone = first (has_phone phone) customers

-- `func.lower(Customer.email) == email.lower()`, which is not true of NULL.
abbrev pub has_email : Text → Customer → Bool
has_email email c = elim c.email [ none ↦ false | some e ↦ eq_text (lower e) (lower email) ]

unfoldable pub list_by_email : List Customer → Text → List Customer
unfolding sort_by
list_by_email customers email = sort_by (λ c. c.id) (keep (has_email email) customers)

unfoldable pub has_appointment_in_organization : List Appointment → ℕ → ℕ → Bool
has_appointment_in_organization appointments customer_id organization_id =
    any (λ a. (a.customer_id == customer_id) && (a.organization_id == organization_id)) appointments

-- `normalized or None`
abbrev pub text_or_none : Text → Option Text
text_or_none [] = none
text_or_none (c ∷ s) = some (c ∷ s)

unfoldable pub normalize_email : Option Text → Option Text
unfolding strip
normalize_email none = none
normalize_email (some value) = text_or_none (lower (strip value))

abbrev pub add_candidate : List Customer → Customer → List Customer
add_candidate candidates customer =
    if any (λ c. c.id == customer.id) candidates then candidates else candidates ++ customer ∷ []

abbrev pub add_candidates : List Customer → List Customer → List Customer
add_candidates candidates [] = candidates
add_candidates candidates (customer ∷ rest) =
    add_candidates (add_candidate candidates customer) rest

abbrev pub option_to_list : Option Customer → List Customer
option_to_list none = []
option_to_list (some customer) = customer ∷ []

unfoldable pub add_by_email : List Customer → Option Text → List Customer → List Customer
unfolding list_by_email
add_by_email customers none candidates = candidates
add_by_email customers (some email) candidates =
    add_candidates candidates (list_by_email customers email)

-- `_candidate_customers_for_contact`: the customer of the phone, and those of the email.
unfoldable pub candidate_customers_for_contact : List Customer → Text → Option Text → List Customer
unfolding add_by_email
candidate_customers_for_contact customers phone email =
    add_by_email customers email (option_to_list (get_by_phone_normalized customers phone))

-- `_select_customer_for_organization`, of the candidates `customer ∷ others`.
abbrev pub first_or : Customer → Option Customer → Customer
first_or customer none = customer
first_or customer (some found) = found

unfoldable pub select_customer_for_organization :
    List Appointment → Customer → List Customer → ℕ → Customer
unfolding has_appointment_in_organization
select_customer_for_organization appointments customer others organization_id = first_or customer (
    first (λ c. has_appointment_in_organization appointments c.id organization_id)
      (customer ∷ others))

-- A value that is given and differs from the column.
abbrev pub is_update : Option Text → Option Text → Bool
is_update none column = false
is_update (some value) none = true
is_update (some value) (some column) = not (eq_text column value)

abbrev pub or_column : Option Text → Option Text → Option Text
or_column none column = column
or_column (some value) column = some value

abbrev pub with_contact : Text → Option Text → Option Text → Customer → Customer
with_contact full_name email preferred_language c = record c {
  full_name = full_name;
  email = or_column email c.email;
  preferred_language = or_column preferred_language c.preferred_language;
}

abbrev pub update_customer : ℕ → (Customer → Customer) → List Customer → List Customer
update_customer k f = map (λ c. if c.id == k then f c else c)

-- The updates of a customer that is found, written only if there are any.
unfoldable pub refresh_customer :
    Text → Option Text → Option Text → Customer → Database → Result Customer × Database
refresh_customer full_name email preferred_language c db =
    if not (eq_text c.full_name full_name)
      || (is_update email c.email || is_update preferred_language c.preferred_language)
    then (
      ok (with_contact full_name email preferred_language c),
      record db {
        customers =
            update_customer c.id (with_contact full_name email preferred_language) db.customers;
      },
    )
    else (ok c, db)

abbrev pub existing_or_raise : Database → Option Customer → Result Customer × Database
existing_or_raise db none = (err integrity_error, db)
existing_or_raise db (some customer) = (ok customer, db)

abbrev pub new_customer : ℕ → Text → Text → Text → Option Text → Option Text → Customer
new_customer k full_name phone_number phone email preferred_language = record {
  id = k;
  full_name = full_name;
  phone_number = phone_number;
  phone_number_normalized = phone;
  email = email;
  preferred_language = preferred_language;
}

-- `customer_repo.create`, where the normalized phone is unique; `db` is what the insert meets, other
-- requests' commits included. A violation looks the phone up again.
unfoldable pub create_customer :
    Text → Text → Text → Option Text → Option Text → Database → Result Customer × Database
create_customer full_name phone_number phone email preferred_language db =
    if any (has_phone phone) db.customers
    then existing_or_raise db (get_by_phone_normalized db.customers phone)
    else (
      ok (new_customer db.next_id full_name phone_number phone email preferred_language),
      record db {
        customers =
            new_customer db.next_id full_name phone_number phone email preferred_language
            ∷ db.customers;
        next_id = db.next_id + 1;
      },
    )

-- With the candidates at hand: one of them is refreshed, or a customer is created.
unfoldable pub resolve_candidates :
    (Database → Database)
    → ℕ
    → Text
    → Text
    → Text
    → Option Text
    → Option Text
    → List Customer
    → Database
    → Result Customer × Database
unfolding refresh_customer create_customer select_customer_for_organization
resolve_candidates meanwhile organization_id full_name phone_number phone email preferred_language
      [] db =
    create_customer full_name phone_number phone email preferred_language (meanwhile db)
resolve_candidates meanwhile organization_id full_name phone_number phone email preferred_language
      (c ∷ others) db =
    refresh_customer full_name email preferred_language
      (select_customer_for_organization db.appointments c others organization_id) db

unfoldable pub resolve_normalized :
    (Database → Database)
    → ℕ
    → Text
    → Text
    → Option Text
    → Option Text
    → Result Text
    → Database
    → Result Customer × Database
unfolding resolve_candidates candidate_customers_for_contact
resolve_normalized meanwhile organization_id full_name phone_number email preferred_language (err e)
      db =
    (err e, db)
resolve_normalized meanwhile organization_id full_name phone_number email preferred_language
      (ok phone) db =
    resolve_candidates meanwhile organization_id full_name phone_number phone email
      preferred_language (candidate_customers_for_contact db.customers phone email) db

abbrev pub is_empty_text : Text → Bool
is_empty_text [] = true
is_empty_text (c ∷ s) = false

-- `meanwhile` is what other requests commit between the lookup of the candidates and the insert.
unfoldable pub resolve_or_create_customer :
    (Database → Database)
    → ℕ
    → Text
    → Text
    → Option Text
    → Option Text
    → Database
    → Result Customer × Database
unfolding strip normalize_phone_number normalize_email resolve_normalized
resolve_or_create_customer meanwhile organization_id full_name phone_number email preferred_language
      db =
    if is_empty_text (strip full_name)
    then (err customer_name_required, db)
    else resolve_normalized meanwhile organization_id (strip full_name) phone_number
        (normalize_email email) preferred_language (normalize_phone_number phone_number) db
