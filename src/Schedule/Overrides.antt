-- ===== src/Schedule/Overrides.antt =====
-- backend/app/services/provider_date_override_service.py, with the queries of its repository and the
-- constraint of its table.
use book_point.Base.{
  ℕ, ◌+◌, Bool, true, false, not, ◌&&◌, Option, none, some, List, ◌∷◌, ltb, ◌==◌, any, first,
  is_none,
}
use book_point.Models.{Database, Directory, ProviderDateOverride}
use book_point.Repositories.{differs, get_provider}
use book_point.Results.{
  Result, ok, err, ◌>>=◌, ◌>>◌, require, raise_if, or_raise, bad_time_order,
  day_already_unavailable, day_has_windows, day_marked_unavailable, integrity_error,
  override_needs_times, override_not_found, overlapping_override, provider_not_found,
  unavailable_day_has_times,
}
use book_point.Schedule.Availability.{Patch, equals_column, is_true, target}
use book_point.Schedule.Pairwise.{delete_row, replace_row}

pub record ProviderDateOverrideCreate : Type 0 where
  pub provider_id : ℕ
  pub override_date : ℕ
  pub is_available : Bool
  pub start_time : Option ℕ
  pub end_time : Option ℕ
  pub is_active : Bool

pub record ProviderDateOverrideUpdate : Type 0 where
  pub override_date : Patch ℕ
  pub is_available : Patch Bool
  pub start_time : Patch ℕ
  pub end_time : Patch ℕ
  pub is_active : Patch Bool

abbrev pub get_override : Directory → ℕ → Option ProviderDateOverride
get_override d k = first (λ o. o.id == k) d.overrides

-- The active rows of a provider and a date, apart from an excluded one.
abbrev pub on_date : ℕ → Option ℕ → Option ℕ → ProviderDateOverride → Bool
on_date provider_id override_date exclude o =
    (o.provider_id == provider_id)
    && (equals_column o.override_date override_date && (o.is_active && differs exclude o.id))

-- `column < value`, which is not true of NULL.
abbrev pub lt_column : Option ℕ → Option ℕ → Bool
lt_column (some a) (some b) = ltb a b
lt_column _ _ = false

unfoldable pub has_overlap : List ProviderDateOverride → ℕ → Option ℕ → ℕ → ℕ → Option ℕ → Bool
has_overlap rows provider_id override_date start_time end_time exclude =
    any
      (λ o.
        on_date provider_id override_date exclude o
        && (o.is_available
            && (lt_column o.start_time (some end_time) && lt_column (some start_time) o.end_time)))
      rows

unfoldable pub has_active_unavailable_day :
    List ProviderDateOverride → ℕ → Option ℕ → Option ℕ → Bool
has_active_unavailable_day rows provider_id override_date exclude =
    any (λ o. on_date provider_id override_date exclude o && not o.is_available) rows

unfoldable pub has_active_available_windows :
    List ProviderDateOverride → ℕ → Option ℕ → Option ℕ → Bool
has_active_available_windows rows provider_id override_date exclude =
    any (λ o. on_date provider_id override_date exclude o && o.is_available) rows

-- The checks of an override with working hours.
abbrev pub validate_window :
    List ProviderDateOverride
    → ℕ
    → Option ℕ
    → Option ℕ
    → Option ℕ
    → Bool
    → Option ℕ
    → Result (Unit {0})
unfolding has_overlap has_active_unavailable_day
validate_window rows provider_id override_date start_time end_time is_active exclude = do
  start ← or_raise start_time override_needs_times
  end ← or_raise end_time override_needs_times
  require (ltb start end) bad_time_order
  raise_if (is_active && has_active_unavailable_day rows provider_id override_date exclude)
      day_marked_unavailable
  raise_if (is_active && has_overlap rows provider_id override_date start end exclude)
      overlapping_override
  ok tt

-- The checks of an override that takes the whole day off.
abbrev pub validate_day_off :
    List ProviderDateOverride
    → ℕ
    → Option ℕ
    → Option ℕ
    → Option ℕ
    → Bool
    → Option ℕ
    → Result (Unit {0})
unfolding has_active_available_windows has_active_unavailable_day
validate_day_off rows provider_id override_date start_time end_time is_active exclude = do
  require (is_none start_time && is_none end_time) unavailable_day_has_times
  raise_if (is_active && has_active_available_windows rows provider_id override_date exclude)
      day_has_windows
  raise_if (is_active && has_active_unavailable_day rows provider_id override_date exclude)
      day_already_unavailable
  ok tt

unfoldable pub validate_override_payload :
    List ProviderDateOverride
    → ℕ
    → Option ℕ
    → Bool
    → Option ℕ
    → Option ℕ
    → Bool
    → Option ℕ
    → Result (Unit {0})
unfolding has_overlap has_active_unavailable_day has_active_available_windows
validate_override_payload rows provider_id override_date true start_time end_time is_active
      exclude =
    validate_window rows provider_id override_date start_time end_time is_active exclude
validate_override_payload rows provider_id override_date false start_time end_time is_active
      exclude =
    validate_day_off rows provider_id override_date start_time end_time is_active exclude

-- `ProviderDateOverride(**payload)`
abbrev pub override_row : ℕ → ProviderDateOverrideCreate → ProviderDateOverride
override_row k payload = record {
  id = k;
  provider_id = payload.provider_id;
  override_date = payload.override_date;
  is_available = payload.is_available;
  start_time = payload.start_time;
  end_time = payload.end_time;
  is_active = payload.is_active;
}

-- The new row of `create_override`, or what the handler raises. The validation implies the CHECK.
unfoldable pub new_override : ProviderDateOverrideCreate → Database → Result ProviderDateOverride
unfolding validate_override_payload
new_override payload db = do
  provider ← or_raise (get_provider db.directory payload.provider_id) provider_not_found
  validate_override_payload db.directory.overrides payload.provider_id (some payload.override_date)
      payload.is_available payload.start_time payload.end_time payload.is_active none
  ok (override_row db.next_id payload)

abbrev pub with_overrides : List ProviderDateOverride → Database → Database
with_overrides rows db = record db { directory = record db.directory { overrides = rows } }

abbrev pub insert_override :
    Database → Result ProviderDateOverride → Result ProviderDateOverride × Database
insert_override db (err e) = (err e, db)
insert_override db (ok o) = (
  ok o,
  record db {
    directory = record db.directory { overrides = o ∷ db.directory.overrides };
    next_id = db.next_id + 1;
  },
)

unfoldable pub create_override :
    ProviderDateOverrideCreate → Database → Result ProviderDateOverride × Database
unfolding new_override
create_override payload db = insert_override db (new_override payload db)

-- `updates.get(field, row.field)` of a column that may be NULL.
abbrev pub target_column : Patch ℕ → Option ℕ → Option ℕ
target_column none old = old
target_column (some value) old = value

-- The row after `override_repo.update`.
abbrev pub set_fields :
    ProviderDateOverride → ℕ → Bool → Option ℕ → Option ℕ → Bool → ProviderDateOverride
set_fields row override_date is_available start_time end_time is_active = record row {
  override_date = override_date;
  is_available = is_available;
  start_time = start_time;
  end_time = end_time;
  is_active = is_active;
}

-- The row that `update_override` writes, or what the handler raises.
unfoldable pub updated_override :
    ℕ → ProviderDateOverrideUpdate → Database → Result ProviderDateOverride
unfolding validate_override_payload
updated_override override_id payload db = do
  row ← or_raise (get_override db.directory override_id) override_not_found
  provider ← or_raise (get_provider db.directory row.provider_id) provider_not_found
  let target_date = target payload.override_date row.override_date
  let target_is_available = target payload.is_available row.is_available
  let target_start = target_column payload.start_time row.start_time
  let target_end = target_column payload.end_time row.end_time
  let target_is_active = target payload.is_active row.is_active
  validate_override_payload db.directory.overrides row.provider_id target_date
      (is_true target_is_available) target_start target_end (is_true target_is_active) (some row.id)
  override_date ← or_raise target_date integrity_error
  is_available ← or_raise target_is_available integrity_error
  is_active ← or_raise target_is_active integrity_error
  ok (set_fields row override_date is_available target_start target_end is_active)

abbrev pub replace_override :
    Database → Result ProviderDateOverride → Result ProviderDateOverride × Database
replace_override db (err e) = (err e, db)
replace_override db (ok o) =
    (ok o, with_overrides (replace_row (λ b. b.id) o db.directory.overrides) db)

unfoldable pub update_override :
    ℕ → ProviderDateOverrideUpdate → Database → Result ProviderDateOverride × Database
unfolding updated_override
update_override override_id payload db =
    replace_override db (updated_override override_id payload db)

-- `override_repo.delete`, of a row that the router has found.
unfoldable pub delete_override : ℕ → Database → Database
delete_override override_id db =
    with_overrides (delete_row (λ b. b.id) override_id db.directory.overrides) db
