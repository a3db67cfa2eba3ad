-- ===== src/Customers/Unique.antt =====
-- What `resolve_or_create_customer` keeps (backend/app/services/discovery_service.py): the bookings, and
-- phone numbers that are unique.
use book_point.Base.{
  ℕ, ◌≤◌, ◌≡◌, refl, ◌∙◌, Bool, true, false, not, ◌||◌, ◌⊎◌, Option, none, some, inl, inr, List, [],
  ◌∷◌, ◌==◌, any, first, keep, In, In-of_append, In-of_In-keep, In-of_In-sort_by, In-of_first,
  any_of_In, Bool-cases, Option-cases, arith, if◌then◌else◌,
}
use book_point.Base.Text.{Text, eq_text, strip}
use book_point.Customers.Phone.{normalize_phone_number}
use book_point.Customers.Resolve.{
  first_or, has_appointment_in_organization, add_by_email, add_candidate, add_candidates, has_email,
  list_by_email, option_to_list, candidate_customers_for_contact, create_customer,
  get_by_phone_normalized, has_phone, is_empty_text, is_update, new_customer, normalize_email,
  refresh_customer, resolve_candidates, resolve_normalized, resolve_or_create_customer,
  select_customer_for_organization, update_customer, with_contact,
}
use book_point.Models.{Customer, Database}
use book_point.Repositories.{has_customer}
use book_point.Results.{Result, ok, err}
use book_point.Schedule.Pairwise.{Pairwise, has_clash, insert-Pairwise, map-Pairwise}

-- Customers of one phone number.
abbrev pub same_phone : Customer → Customer → Bool
same_phone a b = eq_text b.phone_number_normalized a.phone_number_normalized

-- The customers have ids and phone numbers of their own.
abbrev pub HasUniquePhones : Database → Type 0
HasUniquePhones db = Pairwise (λ c. c.id) same_phone db.next_id db.customers

-- The bookings are the same, under ids that may have grown.
abbrev pub SameBookings : Database → Database → Type 0
SameBookings db db' =
    (db'.directory ≡ db.directory)
    × (db'.appointments ≡ db.appointments)
    × (db.next_id ≤ db'.next_id)

-- An update of the contact keeps ids and phone numbers.
update-HasUniquePhones :
    (full_name : Text) (email preferred_language : Option Text) (k n : ℕ) (rows : List Customer)
    → Pairwise (λ c. c.id) same_phone n rows
    → Pairwise
        (λ c. c.id)
        same_phone
        n
        (update_customer k (with_contact full_name email preferred_language) rows)
update-HasUniquePhones full_name email preferred_language k =
    map-Pairwise (λ c. c.id) same_phone updated keeps_id
      (λ a b. rw (keeps_phone a, keeps_phone b) refl)
  where
    updated : Customer → Customer
    updated c = if c.id == k then with_contact full_name email preferred_language c else c

    keeps_id : (c : Customer) → (updated c).id ≡ c.id
    keeps_id c = elim (Bool-cases (c.id == k)) [ inl y ↦ rw y refl | inr n ↦ rw n refl ]

    keeps_phone : (c : Customer) → (updated c).phone_number_normalized ≡ c.phone_number_normalized
    keeps_phone c = elim (Bool-cases (c.id == k)) [ inl y ↦ rw y refl | inr n ↦ rw n refl ]

-- What holds of the customers with the phone number, and of those with the email, holds of every
-- candidate.
module _ (P : Customer → Type 0) where
  add_candidates-each :
      (candidates found : List Customer)
      → ((c : Customer) → In c candidates → P c)
      → ((c : Customer) → In c found → P c)
      → (c : Customer) → In c (add_candidates candidates found)
      → P c
  add_candidates-each candidates [] h k c i = h c i
  add_candidates-each candidates (x ∷ found) h k c i =
      add_candidates-each (add_candidate candidates x) found (added (k x (inl refl)))
        (λ b j. k b (inr j)) c i
    where
      appended : (b : Customer) → P x → In b candidates ⊎ In b (x ∷ []) → P b
      appended b here (inl j) = h b j
      appended b here (inr (inl e)) = rw e here
      appended b here (inr (inr j)) = absurd j

      added : P x → (b : Customer) → In b (add_candidate candidates x) → P b
      added here b j = elim (Bool-cases (any (λ a. a.id == x.id) candidates)) [
        | inl y ↦ h b (rw y at j)
        | inr n ↦ appended b here (In-of_append b candidates (x ∷ []) (rw n at j))
      ]

  phone_each :
      (customers : List Customer) (phone : Text)
      → ((c : Customer) → In c customers → has_phone phone c ≡ true → P c)
      → (c : Customer) → In c (option_to_list (get_by_phone_normalized customers phone))
      → P c
  phone_each customers phone of_phone c i =
      elim (Option-cases (get_by_phone_normalized customers phone)) [
        | inl e ↦ absurd (rw e at i)
        | inr (x, e) ↦ only x (In-of_first (has_phone phone) customers e) (rw e at i)
      ]
    where
      only : (x : Customer) → In x customers × (has_phone phone x ≡ true) → In c (x ∷ []) → P c
      only x (row, matches) (inl q) = rw q (of_phone x row matches)
      only x (row, matches) (inr j) = absurd j

  pub candidates-each :
      (customers : List Customer) (phone : Text) (email : Option Text)
      → ((c : Customer) → In c customers → has_phone phone c ≡ true → P c)
      → ((address : Text)
          → email ≡ some address
          → (c : Customer) → In c customers
          → has_email address c ≡ true
          → P c)
      → (c : Customer) → In c (candidate_customers_for_contact customers phone email)
      → P c
  unfolding candidate_customers_for_contact add_by_email list_by_email
  candidates-each customers phone none of_phone of_email c i =
      phone_each customers phone of_phone c i
  candidates-each customers phone (some address) of_phone of_email c i =
      add_candidates-each (option_to_list (get_by_phone_normalized customers phone))
        (list_by_email customers address) (phone_each customers phone of_phone)
        (λ x l.
          let (row, matches) =
            In-of_In-keep (has_email address) x customers
              (In-of_In-sort_by (λ y. y.id) x (keep (has_email address) customers) l) in
          of_email address refl x row matches)
        c i

pub first_or-In :
    (c : Customer) (others : List Customer) (found : Option Customer)
    → ((x : Customer) → found ≡ some x → In x (c ∷ others))
    → In (first_or c found) (c ∷ others)
first_or-In c others none h = inl refl
first_or-In c others (some x) h = h x refl

pub has_customer-In :
    (c : Customer) (rows : List Customer) → In c rows → has_customer rows c.id ≡ true
has_customer-In c rows i = any_of_In (λ b. b.id == c.id) c rows i (ground arith)

-- The row that an update gives is in the table.
update-In :
    (f : Customer → Customer) (c : Customer) (rows : List Customer)
    → In c rows
    → In (f c) (update_customer c.id f rows)
update-In f c [] i = absurd i
update-In f c (b ∷ rows) (inl e) =
    let same : (b.id == c.id) ≡ true = rw e (ground arith) in inl (rw (same, e) refl)
update-In f c (b ∷ rows) (inr i) = inr (update-In f c rows i)

-- What is known of the result and the database of a call on `db`.
abbrev pub IsKnown : Result Customer → Database → Type 0
IsKnown (err e) db' = Unit
IsKnown (ok c) db' = In c db'.customers

abbrev pub Resolved : Database → Result Customer × Database → Type 0
Resolved db (r, db') =
    SameBookings db db' × (HasUniquePhones db → HasUniquePhones db') × IsKnown r db'

refresh_customer-Resolved :
    (full_name : Text) (email preferred_language : Option Text) (c : Customer) (db : Database)
    → In c db.customers
    → Resolved db (refresh_customer full_name email preferred_language c db)
unfolding refresh_customer
refresh_customer-Resolved full_name email preferred_language c db i =
    elim (Bool-cases (
      not (eq_text c.full_name full_name)
      || (is_update email c.email || is_update preferred_language c.preferred_language))) [
        | inl y ↦ rw y (
          (refl, refl, omega arith),
          λ u.
              update-HasUniquePhones full_name email preferred_language c.id db.next_id db.customers
                u,
          update-In (with_contact full_name email preferred_language) c db.customers i,
        )
        | inr n ↦ rw n ((refl, refl, omega arith), λ u. u, i)
      ]

phone-clash :
    (c : Customer) (rows : List Customer)
    → any (has_phone c.phone_number_normalized) rows ≡ false
    → has_clash (λ b. b.id) same_phone c none rows ≡ false
phone-clash c [] h = refl
phone-clash c (b ∷ rows) h = ground (arith, phone-clash c rows)

create_customer-Resolved :
    (full_name phone_number phone : Text) (email preferred_language : Option Text) (db : Database)
    → Resolved db (create_customer full_name phone_number phone email preferred_language db)
unfolding create_customer
create_customer-Resolved full_name phone_number phone email preferred_language db =
    elim (Bool-cases (any (has_phone phone) db.customers)) [
      | inr n ↦
          let c = new_customer db.next_id full_name phone_number phone email preferred_language in
          rw n (
            (refl, refl, omega arith),
            λ u.
                insert-Pairwise (λ b. b.id) same_phone db.next_id c db.customers refl
                  (phone-clash c db.customers n) u,
            inl refl,
          )
      | inl y ↦ elim (Option-cases (get_by_phone_normalized db.customers phone)) [
        | inl e ↦ rw (y, e) ((refl, refl, omega arith), λ u. u, tt)
        | inr (c, e) ↦
            rw (y, e)
              ((refl, refl, omega arith), λ u. u, (In-of_first (has_phone phone) db.customers e).0)
      ]
    ]

-- Other requests leave the bookings, and keep phone numbers unique.
abbrev pub Harmless : (Database → Database) → Type 0
Harmless meanwhile =
    (db : Database)
    → SameBookings db (meanwhile db) × (HasUniquePhones db → HasUniquePhones (meanwhile db))

Resolved-after :
    (db db' : Database) (r : Result Customer × Database)
    → SameBookings db db'
    → (HasUniquePhones db → HasUniquePhones db')
    → Resolved db' r
    → Resolved db r
Resolved-after db db' (r, db'') (d, a, n) u ((d', a', n'), u', k) =
    ((d' ∙ d, a' ∙ a, omega arith), λ w. u' (u w), k)

resolve_candidates-Resolved :
    (meanwhile : Database → Database) (organization_id : ℕ) (full_name phone_number phone : Text)
    (email preferred_language : Option Text) (candidates : List Customer) (db : Database)
    → Harmless meanwhile
    → ((c : Customer) → In c candidates → In c db.customers)
    → Resolved db (
        resolve_candidates meanwhile organization_id full_name phone_number phone email
          preferred_language candidates db)
unfolding resolve_candidates select_customer_for_organization
resolve_candidates-Resolved meanwhile organization_id full_name phone_number phone email
      preferred_language [] db harmless members =
    let (same, unique) = harmless db in
    Resolved-after db (meanwhile db)
      (create_customer full_name phone_number phone email preferred_language (meanwhile db)) same
      unique
      (create_customer-Resolved full_name phone_number phone email preferred_language
        (meanwhile db))
resolve_candidates-Resolved meanwhile organization_id full_name phone_number phone email
      preferred_language (c ∷ others) db harmless members =
    refresh_customer-Resolved full_name email preferred_language
      (select_customer_for_organization db.appointments c others organization_id) db
      (members (select_customer_for_organization db.appointments c others organization_id) (
        first_or-In c others (first attends (c ∷ others))
          (λ x e. (In-of_first attends (c ∷ others) e).0)))
  where
    attends : Customer → Bool
    attends x = has_appointment_in_organization db.appointments x.id organization_id

resolve_normalized-Resolved :
    (meanwhile : Database → Database) (organization_id : ℕ) (full_name phone_number : Text)
    (email preferred_language : Option Text) (phone : Result Text) (db : Database)
    → Harmless meanwhile
    → Resolved db (
        resolve_normalized meanwhile organization_id full_name phone_number email preferred_language
          phone db)
unfolding resolve_normalized
resolve_normalized-Resolved meanwhile organization_id full_name phone_number email
      preferred_language (err e) db harmless =
    ((refl, refl, omega arith), λ u. u, tt)
resolve_normalized-Resolved meanwhile organization_id full_name phone_number email
      preferred_language (ok phone) db harmless =
    resolve_candidates-Resolved meanwhile organization_id full_name phone_number phone email
      preferred_language (candidate_customers_for_contact db.customers phone email) db harmless
      (candidates-each (λ c. In c db.customers) db.customers phone email (λ c i _. i)
        (λ address _ c i _. i))

pub resolve_or_create_customer-Resolved :
    (meanwhile : Database → Database) (organization_id : ℕ) (full_name phone_number : Text)
    (email preferred_language : Option Text) (db : Database)
    → Harmless meanwhile
    → Resolved db (
        resolve_or_create_customer meanwhile organization_id full_name phone_number email
          preferred_language db)
unfolding resolve_or_create_customer
resolve_or_create_customer-Resolved meanwhile organization_id full_name phone_number email
      preferred_language db harmless =
    elim (Bool-cases (is_empty_text (strip full_name))) [
      | inl y ↦ rw y ((refl, refl, omega arith), λ u. u, tt)
      | inr n ↦ rw n (
          resolve_normalized-Resolved meanwhile organization_id (strip full_name) phone_number
            (normalize_email email) preferred_language (normalize_phone_number phone_number) db
            harmless)
    ]
