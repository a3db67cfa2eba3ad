-- ===== src/Schedule/TimeOff.antt =====
-- backend/app/services/provider_time_off_service.py, with the updates of its repository.
use book_point.Base.{ℕ, ◌+◌, Option, some, List, ◌∷◌, ◌==◌, first}
use book_point.Base.Int.{ℤ, ltb_ℤ}
use book_point.Models.{Database, Directory, ProviderTimeOff}
use book_point.Repositories.{get_provider}
use book_point.Results.{
  Result, ok, err, ◌>>=◌, ◌>>◌, require, or_raise, bad_time_off, none_value, provider_not_found,
  time_off_not_found,
}
use book_point.Schedule.Availability.{Patch, target}
use book_point.Schedule.Pairwise.{delete_row, replace_row}
use book_point.Time.{Datetime, aware, ensure_aware_utc}

pub record ProviderTimeOffCreate : Type 0 where
  pub provider_id : ℕ
  pub start_datetime : Datetime
  pub end_datetime : Datetime

pub record ProviderTimeOffUpdate : Type 0 where
  pub start_datetime : Patch Datetime
  pub end_datetime : Patch Datetime

abbrev pub get_time_off : Directory → ℕ → Option ProviderTimeOff
get_time_off d k = first (λ t. t.id == k) d.time_offs

-- `_validate_datetimes`
unfoldable pub validate_datetimes : Option Datetime → Option Datetime → Result (ℤ × ℤ)
unfolding ensure_aware_utc
validate_datetimes start_datetime end_datetime = do
  given_start ← or_raise start_datetime none_value
  start ← ensure_aware_utc given_start
  given_end ← or_raise end_datetime none_value
  end ← ensure_aware_utc given_end
  require (ltb_ℤ start end) bad_time_off
  ok (start, end)

-- The new row of `create_time_off`, or what the handler raises.
unfoldable pub new_time_off : ProviderTimeOffCreate → Database → Result ProviderTimeOff
unfolding validate_datetimes
new_time_off payload db = do
  provider ← or_raise (get_provider db.directory payload.provider_id) provider_not_found
  times ← validate_datetimes (some payload.start_datetime) (some payload.end_datetime)
  ok (record {
    id = db.next_id;
    provider_id = payload.provider_id;
    start_datetime = aware times.0;
    end_datetime = aware times.1;
  })

abbrev pub with_time_offs : List ProviderTimeOff → Database → Database
with_time_offs rows db = record db { directory = record db.directory { time_offs = rows } }

abbrev pub insert_time_off : Database → Result ProviderTimeOff → Result ProviderTimeOff × Database
insert_time_off db (err e) = (err e, db)
insert_time_off db (ok t) = (
  ok t,
  record db {
    directory = record db.directory { time_offs = t ∷ db.directory.time_offs };
    next_id = db.next_id + 1;
  },
)

unfoldable pub create_time_off :
    ProviderTimeOffCreate → Database → Result ProviderTimeOff × Database
unfolding new_time_off
create_time_off payload db = insert_time_off db (new_time_off payload db)

-- The row that `update_time_off` writes, or what the handler raises.
unfoldable pub updated_time_off : ℕ → ProviderTimeOffUpdate → Database → Result ProviderTimeOff
unfolding validate_datetimes
updated_time_off time_off_id payload db = do
  row ← or_raise (get_time_off db.directory time_off_id) time_off_not_found
  provider ← or_raise (get_provider db.directory row.provider_id) provider_not_found
  times ←
      validate_datetimes (target payload.start_datetime row.start_datetime)
        (target payload.end_datetime row.end_datetime)
  ok (record row { start_datetime = aware times.0; end_datetime = aware times.1 })

abbrev pub replace_time_off : Database → Result ProviderTimeOff → Result ProviderTimeOff × Database
replace_time_off db (err e) = (err e, db)
replace_time_off db (ok t) =
    (ok t, with_time_offs (replace_row (λ b. b.id) t db.directory.time_offs) db)

unfoldable pub update_time_off :
    ℕ → ProviderTimeOffUpdate → Database → Result ProviderTimeOff × Database
unfolding updated_time_off
update_time_off time_off_id payload db =
    replace_time_off db (updated_time_off time_off_id payload db)

-- `time_off_repo.delete`, of a row that the router has found.
unfoldable pub delete_time_off : ℕ → Database → Database
delete_time_off time_off_id db =
    with_time_offs (delete_row (λ b. b.id) time_off_id db.directory.time_offs) db
