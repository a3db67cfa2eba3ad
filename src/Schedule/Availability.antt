-- ===== src/Schedule/Availability.antt =====
-- backend/app/services/provider_availability_service.py, with the queries of its repository and the
-- constraints of its table.
use book_point.Base.{
  ℕ, ◌+◌, Bool, false, not, ◌&&◌, Option, none, some, List, ◌∷◌, ltb, leb, ◌==◌, any, first,
}
use book_point.Models.{Database, Directory, ProviderAvailability}
use book_point.Repositories.{differs, get_provider}
use book_point.Results.{
  Result, ok, err, ◌>>=◌, ◌>>◌, require, raise_if, or_raise, bad_time_order, block_not_found,
  integrity_error, none_value, overlapping_block, provider_not_found,
}
use book_point.Schedule.Pairwise.{delete_row, replace_row}

pub record ProviderAvailabilityCreate : Type 0 where
  pub provider_id : ℕ
  pub weekday : ℕ
  pub start_time : ℕ
  pub end_time : ℕ
  pub is_active : Bool

-- A field of an update: not set, set to null, or set to a value.
abbrev pub Patch : Type 0 → Type 0
Patch A = Option (Option A)

-- `updates.get(field, row.field)`
abbrev pub target : {A : Type 0} → Patch A → A → Option A
target none old = some old
target (some value) old = value

pub record ProviderAvailabilityUpdate : Type 0 where
  pub weekday : Patch ℕ
  pub start_time : Patch ℕ
  pub end_time : Patch ℕ
  pub is_active : Patch Bool

abbrev pub get_availability : Directory → ℕ → Option ProviderAvailability
get_availability d k = first (λ a. a.id == k) d.availabilities

-- `ProviderAvailability.weekday == weekday`, which is never true of NULL.
abbrev pub equals_column : ℕ → Option ℕ → Bool
equals_column column none = false
equals_column column (some value) = column == value

unfoldable pub has_overlap : List ProviderAvailability → ℕ → Option ℕ → ℕ → ℕ → Option ℕ → Bool
has_overlap rows provider_id weekday start_time end_time exclude =
    any
      (λ a.
        ((a.provider_id == provider_id)
          && (equals_column a.weekday weekday
              && (a.is_active && (ltb a.start_time end_time && ltb start_time a.end_time))))
        && differs exclude a.id)
      rows

abbrev pub same_window : ProviderAvailability → ProviderAvailability → Bool
same_window a b =
    (a.provider_id == b.provider_id)
    && ((a.weekday == b.weekday) && ((a.start_time == b.start_time) && (a.end_time == b.end_time)))

-- The constraints of the table, at the flush.
unfoldable pub check_constraints :
    List ProviderAvailability → ProviderAvailability → Result (Unit {0})
check_constraints rows a = do
  require (leb a.weekday 6) integrity_error
  require (ltb a.start_time a.end_time) integrity_error
  raise_if (any (λ b. same_window a b && not (b.id == a.id)) rows) integrity_error
  ok tt

-- `ProviderAvailability(**payload)`
abbrev pub availability_row : ℕ → ProviderAvailabilityCreate → ProviderAvailability
availability_row k payload = record {
  id = k;
  provider_id = payload.provider_id;
  weekday = payload.weekday;
  start_time = payload.start_time;
  end_time = payload.end_time;
  is_active = payload.is_active;
}

-- The new row of `create_availability`, or what the handler raises.
unfoldable pub new_availability :
    ProviderAvailabilityCreate → Database → Result ProviderAvailability
unfolding has_overlap check_constraints
new_availability payload db = do
  let rows = db.directory.availabilities
  provider ← or_raise (get_provider db.directory payload.provider_id) provider_not_found
  require (ltb payload.start_time payload.end_time) bad_time_order
  raise_if
      (payload.is_active
        && has_overlap rows payload.provider_id (some payload.weekday) payload.start_time
            payload.end_time none)
      overlapping_block
  check_constraints rows (availability_row db.next_id payload)
  ok (availability_row db.next_id payload)

abbrev pub with_availabilities : List ProviderAvailability → Database → Database
with_availabilities rows db = record db {
  directory = record db.directory { availabilities = rows };
}

abbrev pub insert_availability :
    Database → Result ProviderAvailability → Result ProviderAvailability × Database
insert_availability db (err e) = (err e, db)
insert_availability db (ok a) = (
  ok a,
  record db {
    directory = record db.directory { availabilities = a ∷ db.directory.availabilities };
    next_id = db.next_id + 1;
  },
)

unfoldable pub create_availability :
    ProviderAvailabilityCreate → Database → Result ProviderAvailability × Database
unfolding new_availability
create_availability payload db = insert_availability db (new_availability payload db)

-- `bool(value)`, with None as false.
abbrev pub is_true : Option Bool → Bool
is_true none = false
is_true (some b) = b

-- The row after `availability_repo.update`.
abbrev pub set_fields : ProviderAvailability → ℕ → ℕ → ℕ → Bool → ProviderAvailability
set_fields availability weekday start_time end_time is_active = record availability {
  weekday = weekday;
  start_time = start_time;
  end_time = end_time;
  is_active = is_active;
}

-- The row that `update_availability` writes, or what the handler raises.
unfoldable pub updated_availability :
    ℕ → ProviderAvailabilityUpdate → Database → Result ProviderAvailability
unfolding has_overlap check_constraints
updated_availability availability_id payload db = do
  let rows = db.directory.availabilities
  availability ← or_raise (get_availability db.directory availability_id) block_not_found
  provider ← or_raise (get_provider db.directory availability.provider_id) provider_not_found
  let target_weekday = target payload.weekday availability.weekday
  let target_is_active = target payload.is_active availability.is_active
  start_time ← or_raise (target payload.start_time availability.start_time) none_value
  end_time ← or_raise (target payload.end_time availability.end_time) none_value
  require (ltb start_time end_time) bad_time_order
  raise_if
      (is_true target_is_active
        && has_overlap rows availability.provider_id target_weekday start_time end_time
            (some availability.id))
      overlapping_block
  weekday ← or_raise target_weekday integrity_error
  is_active ← or_raise target_is_active integrity_error
  check_constraints rows (set_fields availability weekday start_time end_time is_active)
  ok (set_fields availability weekday start_time end_time is_active)

abbrev pub replace_availability :
    Database → Result ProviderAvailability → Result ProviderAvailability × Database
replace_availability db (err e) = (err e, db)
replace_availability db (ok a) =
    (ok a, with_availabilities (replace_row (λ b. b.id) a db.directory.availabilities) db)

unfoldable pub update_availability :
    ℕ → ProviderAvailabilityUpdate → Database → Result ProviderAvailability × Database
unfolding updated_availability
update_availability availability_id payload db =
    replace_availability db (updated_availability availability_id payload db)

-- `availability_repo.delete`, of a row that the router has found.
unfoldable pub delete_availability : ℕ → Database → Database
delete_availability availability_id db =
    with_availabilities (delete_row (λ b. b.id) availability_id db.directory.availabilities) db
