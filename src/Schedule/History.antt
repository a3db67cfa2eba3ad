-- ===== src/Schedule/History.antt =====
-- Any history of edits by the schedule services and the deletions of their routers.
use book_point.Base.{ℕ, ◌≡◌, subst, ltb→lt, Option, some, inl, inr, All}
use book_point.Base.Int.{ℤ, ◌<ℤ◌, ltb_ℤ}
use book_point.Models.{Database, ProviderTimeOff}
use book_point.Repositories.{get_provider}
use book_point.Results.{Result-cases, eq_of_ok, ok, >>=-eq-ok, or_raise-eq-ok, require-eq-ok}
use book_point.Schedule.Availability.{
  target, ProviderAvailabilityCreate, ProviderAvailabilityUpdate, create_availability,
  delete_availability, new_availability, update_availability, updated_availability,
}
use book_point.Schedule.Dated.{
  IsDated, create_override-IsDated, delete_override-IsDated, overrides_clash,
  update_override-IsDated,
}
use book_point.Schedule.Overrides.{
  ProviderDateOverrideCreate, ProviderDateOverrideUpdate, create_override, delete_override,
  new_override, update_override, updated_override,
}
use book_point.Schedule.Pairwise.{Pairwise-suc, delete_row-All, replace_row-All}
use book_point.Schedule.TimeOff.{
  ProviderTimeOffCreate, ProviderTimeOffUpdate, create_time_off, delete_time_off, get_time_off,
  new_time_off, update_time_off, updated_time_off, validate_datetimes,
}
use book_point.Schedule.Weekly.{
  IsWeekly, blocks_clash, create_availability-IsWeekly, delete_availability-IsWeekly,
  update_availability-IsWeekly,
}
use book_point.Time.{Datetime, as_utc, ensure_aware_utc}

abbrev pub IsTimely : ProviderTimeOff → Type 0
IsTimely t = as_utc t.start_datetime <ℤ as_utc t.end_datetime

pub record IsOrderly (db : Database) : Type 0 where
  pub weekly : IsWeekly db.next_id db.directory.availabilities
  pub dated : IsDated db.next_id db.directory.overrides
  pub timely : All IsTimely db.directory.time_offs

-- An operation of a service, whatever its result, or a deletion.
pub data Edit : Database → Database → Type 0 where
  availability_created :
      (payload : ProviderAvailabilityCreate) (db : Database)
      → Edit db (create_availability payload db).1
  availability_updated :
      (k : ℕ) (payload : ProviderAvailabilityUpdate) (db : Database)
      → Edit db (update_availability k payload db).1
  availability_deleted : (k : ℕ) (db : Database) → Edit db (delete_availability k db)
  override_created :
      (payload : ProviderDateOverrideCreate) (db : Database)
      → Edit db (create_override payload db).1
  override_updated :
      (k : ℕ) (payload : ProviderDateOverrideUpdate) (db : Database)
      → Edit db (update_override k payload db).1
  override_deleted : (k : ℕ) (db : Database) → Edit db (delete_override k db)
  time_off_created :
      (payload : ProviderTimeOffCreate) (db : Database) → Edit db (create_time_off payload db).1
  time_off_updated :
      (k : ℕ) (payload : ProviderTimeOffUpdate) (db : Database)
      → Edit db (update_time_off k payload db).1
  time_off_deleted : (k : ℕ) (db : Database) → Edit db (delete_time_off k db)

pub data History (db : Database) : Database → Type 0 where
  unedited : History db db
  edited : {before after : Database} → History db before → Edit before after → History db after

validate_datetimes-ordered :
    (start end : Option Datetime) (times : ℤ × ℤ)
    → validate_datetimes start end ≡ ok times
    → times.0 <ℤ times.1
unfolding validate_datetimes
validate_datetimes-ordered start end times h =
    let (given_start, _, h₁) = or_raise-eq-ok start _ _ h in
    let (a, _, h₂) = >>=-eq-ok (ensure_aware_utc given_start) _ h₁ in
    let (given_end, _, h₃) = or_raise-eq-ok end _ _ h₂ in
    let (b, _, h₄) = >>=-eq-ok (ensure_aware_utc given_end) _ h₃ in
    let (ordered, made) = require-eq-ok (ltb_ℤ a b) _ _ h₄ in
    subst (λ (t : ℤ × ℤ). t.0 <ℤ t.1) (eq_of_ok made) (ltb→lt _ _ ordered)

new_time_off-IsTimely :
    (payload : ProviderTimeOffCreate) (db : Database) (t : ProviderTimeOff)
    → new_time_off payload db ≡ ok t
    → IsTimely t
unfolding new_time_off as_utc
new_time_off-IsTimely payload db t e =
    let (provider, _, h₁) = or_raise-eq-ok (get_provider db.directory payload.provider_id) _ _ e in
    let (times, valid, made) =
      >>=-eq-ok (validate_datetimes (some payload.start_datetime) (some payload.end_datetime)) _
        h₁ in
    subst IsTimely (eq_of_ok made) (
      validate_datetimes-ordered (some payload.start_datetime) (some payload.end_datetime) times
        valid)

updated_time_off-IsTimely :
    (k : ℕ) (payload : ProviderTimeOffUpdate) (db : Database) (t : ProviderTimeOff)
    → updated_time_off k payload db ≡ ok t
    → IsTimely t
unfolding updated_time_off as_utc
updated_time_off-IsTimely k payload db t e =
    let (old, _, h₁) = or_raise-eq-ok (get_time_off db.directory k) _ _ e in
    let (provider, _, h₂) = or_raise-eq-ok (get_provider db.directory old.provider_id) _ _ h₁ in
    let start = target payload.start_datetime old.start_datetime in
    let end = target payload.end_datetime old.end_datetime in
    let (times, valid, made) = >>=-eq-ok (validate_datetimes start end) _ h₂ in
    subst IsTimely (eq_of_ok made) (validate_datetimes-ordered start end times valid)

module _ (db : Database) (h : IsOrderly db) where
  create_availability-IsOrderly :
      (payload : ProviderAvailabilityCreate) → IsOrderly (create_availability payload db).1
  unfolding create_availability
  create_availability-IsOrderly payload = record {
    weekly = create_availability-IsWeekly db h.weekly payload;
    dated = elim (Result-cases (new_availability payload db)) [
      | inl (e, q) ↦ rw q h.dated
      | inr (a, q) ↦ rw q (
        Pairwise-suc (λ o. o.id) overrides_clash db.next_id db.directory.overrides h.dated.0,
        h.dated.1,
      )
    ];
    timely = elim (Result-cases (new_availability payload db)) [
      | inl (e, q) ↦ rw q h.timely
      | inr (a, q) ↦ rw q h.timely
    ];
  }

  update_availability-IsOrderly :
      (k : ℕ) (payload : ProviderAvailabilityUpdate)
      → IsOrderly (update_availability k payload db).1
  unfolding update_availability
  update_availability-IsOrderly k payload = record {
    weekly = update_availability-IsWeekly db h.weekly k payload;
    dated = elim (Result-cases (updated_availability k payload db)) [
      | inl (e, q) ↦ rw q h.dated
      | inr (a, q) ↦ rw q h.dated
    ];
    timely = elim (Result-cases (updated_availability k payload db)) [
      | inl (e, q) ↦ rw q h.timely
      | inr (a, q) ↦ rw q h.timely
    ];
  }

  create_override-IsOrderly :
      (payload : ProviderDateOverrideCreate) → IsOrderly (create_override payload db).1
  unfolding create_override
  create_override-IsOrderly payload = record {
    weekly = elim (Result-cases (new_override payload db)) [
      | inl (e, q) ↦ rw q h.weekly
      | inr (a, q) ↦ rw q (
        Pairwise-suc (λ o. o.id) blocks_clash db.next_id db.directory.availabilities h.weekly.0,
        h.weekly.1,
      )
    ];
    dated = create_override-IsDated db h.dated payload;
    timely = elim (Result-cases (new_override payload db)) [
      | inl (e, q) ↦ rw q h.timely
      | inr (a, q) ↦ rw q h.timely
    ];
  }

  update_override-IsOrderly :
      (k : ℕ) (payload : ProviderDateOverrideUpdate) → IsOrderly (update_override k payload db).1
  unfolding update_override
  update_override-IsOrderly k payload = record {
    weekly = elim (Result-cases (updated_override k payload db)) [
      | inl (e, q) ↦ rw q h.weekly
      | inr (a, q) ↦ rw q h.weekly
    ];
    dated = update_override-IsDated db h.dated k payload;
    timely = elim (Result-cases (updated_override k payload db)) [
      | inl (e, q) ↦ rw q h.timely
      | inr (a, q) ↦ rw q h.timely
    ];
  }

  create_time_off-IsOrderly :
      (payload : ProviderTimeOffCreate) → IsOrderly (create_time_off payload db).1
  unfolding create_time_off
  create_time_off-IsOrderly payload = elim (Result-cases (new_time_off payload db)) [
    | inl (e, q) ↦ rw q h
    | inr (t, q) ↦ rw q (record {
      weekly = (
        Pairwise-suc (λ o. o.id) blocks_clash db.next_id db.directory.availabilities h.weekly.0,
        h.weekly.1,
      );
      dated = (
        Pairwise-suc (λ o. o.id) overrides_clash db.next_id db.directory.overrides h.dated.0,
        h.dated.1,
      );
      timely = (new_time_off-IsTimely payload db t q, h.timely);
    })
  ]

  update_time_off-IsOrderly :
      (k : ℕ) (payload : ProviderTimeOffUpdate) → IsOrderly (update_time_off k payload db).1
  unfolding update_time_off
  update_time_off-IsOrderly k payload = elim (Result-cases (updated_time_off k payload db)) [
    | inl (e, q) ↦ rw q h
    | inr (t, q) ↦ rw q (record {
      weekly = h.weekly;
      dated = h.dated;
      timely =
          replace_row-All (λ b. b.id) IsTimely t db.directory.time_offs
            (updated_time_off-IsTimely k payload db t q) h.timely;
    })
  ]

Edit-IsOrderly : {before after : Database} → Edit before after → IsOrderly before → IsOrderly after
unfolding delete_availability delete_override delete_time_off
Edit-IsOrderly (availability_created payload db) h = create_availability-IsOrderly db h payload
Edit-IsOrderly (availability_updated k payload db) h = update_availability-IsOrderly db h k payload
Edit-IsOrderly (availability_deleted k db) h = record {
  weekly = delete_availability-IsWeekly db h.weekly k;
  dated = h.dated;
  timely = h.timely;
}
Edit-IsOrderly (override_created payload db) h = create_override-IsOrderly db h payload
Edit-IsOrderly (override_updated k payload db) h = update_override-IsOrderly db h k payload
Edit-IsOrderly (override_deleted k db) h = record {
  weekly = h.weekly;
  dated = delete_override-IsDated db h.dated k;
  timely = h.timely;
}
Edit-IsOrderly (time_off_created payload db) h = create_time_off-IsOrderly db h payload
Edit-IsOrderly (time_off_updated k payload db) h = update_time_off-IsOrderly db h k payload
Edit-IsOrderly (time_off_deleted k db) h = record {
  weekly = h.weekly;
  dated = h.dated;
  timely = delete_row-All (λ t. t.id) IsTimely k db.directory.time_offs h.timely;
}

-- After any history of creations, updates (whatever their results) and deletions of weekly blocks,
-- date overrides and time off, an orderly database is still orderly: each block and each override
-- with hours starts before it ends, as does each time off; no two active blocks of a provider and
-- weekday overlap; of the active overrides of a provider and date a day off is alone, and windows
-- of hours do not overlap.
pub History-IsOrderly : {db after : Database} → History db after → IsOrderly db → IsOrderly after
History-IsOrderly unedited h = h
History-IsOrderly (edited past edit) h = Edit-IsOrderly edit (History-IsOrderly past h)
