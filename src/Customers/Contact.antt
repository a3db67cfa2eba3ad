-- ===== src/Customers/Contact.antt =====
-- Which customer `resolve_or_create_customer` gives (backend/app/services/discovery_service.py).
use book_point.Base.{
  ℕ, ◌≡◌, refl, sym, subst, true, not, ◌||◌, ◌⊎◌, Option, none, some, inl, inr, List, [], ◌∷◌, ◌==◌,
  any, first, In, In-of_first, In-append_left, Bool-cases, Option-cases, arith,
}
use book_point.Base.Text.{Text, eq_text, eq_text→eq, eq_text_refl, lower, strip}
use book_point.Customers.Phone.{normalize_phone_number}
use book_point.Customers.Resolve.{
  add_by_email, add_candidate, add_candidates, candidate_customers_for_contact, create_customer,
  get_by_phone_normalized, has_appointment_in_organization, has_email, has_phone, is_empty_text,
  is_update, list_by_email, new_customer, normalize_email, option_to_list, refresh_customer,
  resolve_candidates, resolve_normalized, resolve_or_create_customer,
  select_customer_for_organization, with_contact,
}
use book_point.Customers.Unique.{
  Harmless, HasUniquePhones, IsKnown, SameBookings, candidates-each, first_or-In,
  resolve_or_create_customer-Resolved,
}
use book_point.Models.{Customer, Database}
use book_point.Results.{Result, ok, err}

-- The customer has the phone number, or the email where one is given.
abbrev pub HasContact : Text → Option Text → Customer → Type 0
HasContact phone none c = has_phone phone c ≡ true
HasContact phone (some email) c = (has_phone phone c ≡ true) ⊎ (has_email email c ≡ true)

-- The customer has the name that was given, or was inserted by another request meanwhile, under the
-- phone number that was free before.
abbrev pub IsNamed : Text → Text → Database → Database → Customer → Type 0
IsNamed full_name phone db between c =
    (c.full_name ≡ full_name)
    ⊎ ((get_by_phone_normalized db.customers phone ≡ none)
        × (get_by_phone_normalized between.customers phone ≡ some c))

abbrev pub IsGiven : Text → Text → Option Text → Database → Database → Result Customer → Type 0
IsGiven full_name phone email db between (err e) = Unit
IsGiven full_name phone email db between (ok c) =
    HasContact phone email c × IsNamed full_name phone db between c

-- A refresh keeps the phone number, and the email that is given is the customer's afterwards.
with_contact-HasContact :
    (full_name phone : Text) (email preferred_language : Option Text) (c : Customer)
    → HasContact phone email c
    → HasContact phone email (with_contact full_name email preferred_language c)
with_contact-HasContact full_name phone none preferred_language c h = h
with_contact-HasContact full_name phone (some email) preferred_language c h =
    inr (eq_text_refl (lower email))

refresh_customer-IsGiven :
    (full_name phone : Text) (email preferred_language : Option Text) (c : Customer)
    (db between : Database)
    → HasContact phone email c
    → IsGiven full_name phone email db between
        (refresh_customer full_name email preferred_language c db).0
unfolding refresh_customer
refresh_customer-IsGiven full_name phone email preferred_language c db between h =
    elim (Bool-cases (
      not (eq_text c.full_name full_name)
      || (is_update email c.email || is_update preferred_language c.preferred_language))) [
        | inl y ↦
            rw y (with_contact-HasContact full_name phone email preferred_language c h, inl refl)
        | inr n ↦
            let named : eq_text c.full_name full_name ≡ true = ground arith in
            rw n (h, inl (eq_text→eq c.full_name full_name named))
      ]

phone-HasContact :
    (phone : Text) (email : Option Text) (c : Customer)
    → has_phone phone c ≡ true
    → HasContact phone email c
phone-HasContact phone none c h = h
phone-HasContact phone (some email) c h = inl h

create_customer-IsGiven :
    (full_name phone_number phone : Text) (email preferred_language : Option Text)
    (db between : Database)
    → get_by_phone_normalized db.customers phone ≡ none
    → IsGiven full_name phone email db between
        (create_customer full_name phone_number phone email preferred_language between).0
unfolding create_customer
create_customer-IsGiven full_name phone_number phone email preferred_language db between free =
    elim (Bool-cases (any (has_phone phone) between.customers)) [
      | inr n ↦
          let c =
            new_customer between.next_id full_name phone_number phone email preferred_language in
          rw n (phone-HasContact phone email c (eq_text_refl phone), inl refl)
      | inl y ↦ elim (Option-cases (get_by_phone_normalized between.customers phone)) [
        | inl e ↦ rw (y, e) tt
        | inr (c, e) ↦
            let (_, matches) = In-of_first (has_phone phone) between.customers e in
            rw (y, e) (phone-HasContact phone email c matches, inr (free, e))
      ]
    ]

-- Candidates are only added.
add_candidates-keep :
    (x : Customer) (candidates found : List Customer)
    → In x candidates
    → In x (add_candidates candidates found)
add_candidates-keep x candidates [] i = i
add_candidates-keep x candidates (c ∷ found) i =
    add_candidates-keep x (add_candidate candidates c) found
      (elim (Bool-cases (any (λ a. a.id == c.id) candidates)) [
        | inl y ↦ rw y i
        | inr n ↦ rw n (In-append_left x candidates (c ∷ []) i)
      ])

-- Without candidates the phone number is free.
no_candidates-free :
    (customers : List Customer) (phone : Text) (email : Option Text)
    → candidate_customers_for_contact customers phone email ≡ []
    → get_by_phone_normalized customers phone ≡ none
unfolding candidate_customers_for_contact add_by_email
no_candidates-free customers phone email e =
    elim (Option-cases (get_by_phone_normalized customers phone)) [
      | inl q ↦ q
      | inr (x, q) ↦
          absurd (subst (λ (cs : List Customer). In x cs) e (kept x email (rw q (inl refl))))
    ]
  where
    kept :
        (x : Customer) (address : Option Text)
        → In x (option_to_list (get_by_phone_normalized customers phone))
        → In x (candidate_customers_for_contact customers phone address)
    kept x none i = i
    kept x (some address) i =
        add_candidates-keep x (option_to_list (get_by_phone_normalized customers phone))
          (list_by_email customers address) i

candidates-HasContact :
    (customers : List Customer) (phone : Text) (email : Option Text) (c : Customer)
    → In c (candidate_customers_for_contact customers phone email)
    → HasContact phone email c
candidates-HasContact customers phone email =
    candidates-each (HasContact phone email) customers phone email
      (λ c _ matches. phone-HasContact phone email c matches)
      (λ address q c _ matches.
        subst (λ (o : Option Text). HasContact phone o c) (sym q) (inr matches))

module _ (meanwhile : Database → Database) (organization_id : ℕ) (full_name phone_number : Text)
    (email preferred_language : Option Text) (db : Database) where
  resolve_candidates-IsGiven :
      (phone : Text) (candidates : List Customer)
      → ((c : Customer) → In c candidates → HasContact phone email c)
      → (candidates ≡ [] → get_by_phone_normalized db.customers phone ≡ none)
      → IsGiven full_name phone email db
          (meanwhile db)
          (resolve_candidates meanwhile organization_id full_name phone_number phone email
            preferred_language candidates db).0
  unfolding resolve_candidates select_customer_for_organization
  resolve_candidates-IsGiven phone [] each free =
      create_customer-IsGiven full_name phone_number phone email preferred_language db
        (meanwhile db) (free refl)
  resolve_candidates-IsGiven phone (c ∷ others) each free =
      let attends =
        λ (x : Customer). has_appointment_in_organization db.appointments x.id organization_id in
      let selected = select_customer_for_organization db.appointments c others organization_id in
      refresh_customer-IsGiven full_name phone email preferred_language selected db (meanwhile db) (
        each selected (
          first_or-In c others (first attends (c ∷ others))
            (λ x e. (In-of_first attends (c ∷ others) e).0)))

-- What is known of the customer that a resolution gives: a row of the table afterwards, with the contact
-- and the name that were given, each as it is normalized.
abbrev pub IsResolved :
    (full_name phone_number : Text) (email : Option Text) (db between after : Database)
    → Result Customer
    → Type 0
IsResolved full_name phone_number email db between after (err e) = Unit
IsResolved full_name phone_number email db between after (ok c) =
    In c after.customers
    × (phone : Text) × (normalize_phone_number phone_number ≡ ok phone)
    × HasContact phone (normalize_email email) c
    × IsNamed (strip full_name) phone db between c

resolve_or_create_customer-IsGiven :
    (meanwhile : Database → Database) (organization_id : ℕ) (full_name phone_number : Text)
    (email preferred_language : Option Text) (db : Database) (c : Customer)
    → (resolve_or_create_customer meanwhile organization_id full_name phone_number email
        preferred_language db).0
      ≡ ok c
    → (phone : Text) × (normalize_phone_number phone_number ≡ ok phone)
      × HasContact phone (normalize_email email) c
      × IsNamed (strip full_name) phone db (meanwhile db) c
unfolding resolve_or_create_customer resolve_normalized
resolve_or_create_customer-IsGiven meanwhile organization_id full_name phone_number email
      preferred_language db c e =
    elim (Bool-cases (is_empty_text (strip full_name))) [
      | inl y ↦ let e' = rw (resolve_or_create_customer, y) at e in cc
      | inr n ↦
          by_phone (normalize_phone_number phone_number) refl
            (rw (resolve_or_create_customer, n) at e)
    ]
  where
    by_phone :
        (normalized : Result Text)
        → normalize_phone_number phone_number ≡ normalized
        → (resolve_normalized meanwhile organization_id
            (strip full_name)
            phone_number
            (normalize_email email)
            preferred_language
            normalized
            db).0
          ≡ ok c
        → (phone : Text) × (normalize_phone_number phone_number ≡ ok phone)
          × HasContact phone (normalize_email email) c
          × IsNamed (strip full_name) phone db (meanwhile db) c
    by_phone (err x) q r = cc
    by_phone (ok phone) q r =
        let candidates =
          candidate_customers_for_contact db.customers phone (normalize_email email) in
        let given =
          resolve_candidates-IsGiven meanwhile organization_id (strip full_name) phone_number
            (normalize_email email) preferred_language db phone candidates
            (candidates-HasContact db.customers phone (normalize_email email))
            (no_candidates-free db.customers phone (normalize_email email)) in
        let (contact, named) =
          subst (IsGiven (strip full_name) phone (normalize_email email) db (meanwhile db)) r
            given in
        (phone, q, contact, named)

-- If the customers have ids and normalized phone numbers of their own, and other requests keep that
-- and the bookings (`Harmless`), then on every branch `resolve_or_create_customer` keeps both too.
-- A customer that it gives is a row of the table afterwards, has the normalized phone number or the
-- email that was given, and has the name that was given, except one that another request inserted
-- meanwhile under a phone number that was free.
pub resolve_or_create_customer-IsResolved :
    (meanwhile : Database → Database) (organization_id : ℕ) (full_name phone_number : Text)
    (email preferred_language : Option Text) (db : Database)
    → Harmless meanwhile
    → HasUniquePhones db
    → let (result, after) =
        resolve_or_create_customer meanwhile organization_id full_name phone_number email
          preferred_language db in
      SameBookings db after
      × HasUniquePhones after
      × IsResolved full_name phone_number email db (meanwhile db) after result
resolve_or_create_customer-IsResolved meanwhile organization_id full_name phone_number email
      preferred_language db harmless unique =
    let (same, keeps, known) =
      resolve_or_create_customer-Resolved meanwhile organization_id full_name phone_number email
        preferred_language db harmless in
    let given =
      resolve_or_create_customer-IsGiven meanwhile organization_id full_name phone_number email
        preferred_language db in
    let (result, after) =
      resolve_or_create_customer meanwhile organization_id full_name phone_number email
        preferred_language db in
    (same, keeps unique, combined result after known given)
  where
    combined :
        (result : Result Customer) (after : Database)
        → IsKnown result after
        → ((c : Customer)
            → result ≡ ok c
            → (phone : Text) × (normalize_phone_number phone_number ≡ ok phone)
              × HasContact phone (normalize_email email) c
              × IsNamed (strip full_name) phone db (meanwhile db) c)
        → IsResolved full_name phone_number email db (meanwhile db) after result
    combined (err e) after known given = tt
    combined (ok c) after known given =
        let (phone, q, contact, named) = given c refl in (known, phone, q, contact, named)
