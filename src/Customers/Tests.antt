-- ===== src/Customers/Tests.antt =====
-- Phone numbers and customers of public bookings.
use book_point.Base.{◌≡◌, refl, some, none, arith}
use book_point.Base.Text.{codes, strip}
use book_point.Customers.Phone.{normalize_phone_number, normalize_phone_number-idempotent}
use book_point.Customers.Resolve.{resolve_or_create_customer}
use book_point.Customers.Unique.{HasUniquePhones, SameBookings}
use book_point.Customers.Contact.{IsResolved, resolve_or_create_customer-IsResolved}
use book_point.Results.{err, ok, phone_too_short}
use book_point.Samples.{customer, database}

normalize_phone_number-idempotent_example :
    normalize_phone_number (codes "+15550100") ≡ ok (codes "+15550100")
unfolding normalize_phone_number strip
normalize_phone_number-idempotent_example =
    normalize_phone_number-idempotent (codes " +1 (555) 01-00 ") (codes "+15550100") refl

too_short : normalize_phone_number (codes "555-01") ≡ err phone_too_short
unfolding normalize_phone_number strip
too_short = refl

-- The known phone number finds the customer, whose name is brought up to date.
renamed :
    (resolve_or_create_customer
      (λ db. db)
      1
      (codes "Anna ")
      (codes "1 555 0100")
      none
      none
      database).0
    ≡ ok (record customer { full_name = codes "Anna" })
unfolding resolve_or_create_customer strip
renamed = refl

database-HasUniquePhones : HasUniquePhones database
database-HasUniquePhones = (omega arith, tt, tt)

-- The known phone number again, with another name and email.
resolve_or_create_customer-IsResolved_example :
    let (result, after) =
      resolve_or_create_customer
        (λ db. db)
        1
        (codes "Anna ")
        (codes "1 555 0100")
        (some (codes "Anna@example.com"))
        none
        database in
    SameBookings database after
    × HasUniquePhones after
    × IsResolved
        (codes "Anna ")
        (codes "1 555 0100")
        (some (codes "Anna@example.com"))
        database
        database
        after
        result
resolve_or_create_customer-IsResolved_example =
    resolve_or_create_customer-IsResolved (λ db. db) 1 (codes "Anna ") (codes "1 555 0100")
      (some (codes "Anna@example.com")) none database (λ db. ((refl, refl, omega arith), λ u. u))
      database-HasUniquePhones
