-- ===== src/Scheduling/Slots.antt =====
-- `get_available_slots` of backend/app/services/scheduling_service.py.
pub mod Window
pub mod Sorted
pub mod Offered
pub mod Clear
pub mod Terminates
use book_point.Base.{
  ℕ, zero, suc, ◌+◌, ◌-◌, ◌/◌, Bool, true, false, not, ◌&&◌, Option, none, some, List, [], ◌∷◌,
  ◌++◌, map, ltb, ◌==◌, any, keep, if◌then◌else◌,
}
use book_point.Base.Int.{ℤ, pos_part, ◌+ℤ◌, ◌-ℤ◌, ltb_ℤ}
use book_point.Models.{ProviderAvailability, ProviderDateOverride, Appointment, Directory}
use book_point.Repositories.{
  get_provider, get_organization, list_availabilities, list_overrides, list_time_offs,
}
use book_point.Results.{
  Result, ok, err, ◌>>=◌, ◌>>◌, raise_if, or_raise, end_date_before_start, date_range_too_long,
  provider_not_found, none_value,
}
use book_point.Scheduling.Blocking.{
  list_relevant_blocking_appointments, build_service_buffer_lookup, appointment_blocked_interval,
}
use book_point.Scheduling.Timing.{ServiceTiming, resolve_service_timing}
use book_point.Time.{Zones, minutes, as_utc, weekday, daterange}
use Window.{Slot, Interval, window_slots, window_fuel}

abbrev pub max_query_days : ℕ
max_query_days = 31

abbrev pub is_empty {ℓ} : {A : Type ℓ} → List A → Bool
is_empty [] = true
is_empty (_ ∷ _) = false

-- A window of a day: its local start and end, where an override's columns may be NULL.
abbrev pub Window : Type 0
Window = Option ℕ × Option ℕ

-- The windows of one day. An override of the day hides the weekly blocks; a day with an unavailable
-- override has none.
unfoldable pub day_windows : List ProviderDateOverride → List ProviderAvailability → ℕ → List Window
unfolding weekday
day_windows overrides availabilities day =
    let override_windows = keep (λ o. o.override_date == day) overrides in
    let weekly =
      map (λ a. (some a.start_time, some a.end_time))
        (keep (λ a. a.weekday == weekday day) availabilities) in
    let special =
      map (λ o. (o.start_time, o.end_time)) (keep (λ o. o.is_available) override_windows) in
    if is_empty override_windows
    then weekly
    else if any (λ o. not o.is_available) override_windows
    then []
    else special

-- The candidates of one window of a day.
unfoldable pub slots_of_window :
    (ℕ → ℕ → ℤ) → ServiceTiming → List Interval → ℕ → Window → Result (List Slot)
unfolding window_slots
slots_of_window to_utc timing blocked day (start_time, end_time) = do
  start ← or_raise start_time none_value
  end ← or_raise end_time none_value
  let cursor = to_utc day start +ℤ minutes timing.buffer_before_minutes
  window_slots timing blocked (to_utc day end) (window_fuel (to_utc day end) cursor) cursor

-- A loop that gathers what each item gives, and ends at the first exception.
unfoldable pub gather : {A : Type 0} → (A → Result (List Slot)) → List A → Result (List Slot)
gather f [] = ok []
gather f (x ∷ xs) = do slots ← f x; rest ← gather f xs; ok (slots ++ rest)

-- The slots of one day, window by window.
unfoldable pub slots_of_day :
    (ℕ → ℕ → ℤ)
    → ServiceTiming
    → List Interval
    → List ProviderDateOverride
    → List ProviderAvailability
    → ℕ
    → Result (List Slot)
unfolding day_windows slots_of_window gather
slots_of_day to_utc timing blocked overrides availabilities day =
    gather (slots_of_window to_utc timing blocked day) (day_windows overrides availabilities day)

-- `slots.sort(key=lambda s: s.start_datetime)`, which is stable.
unfoldable pub insert_slot : Slot → List Slot → List Slot
insert_slot s [] = s ∷ []
insert_slot s (t ∷ slots) =
    if ltb_ℤ t.start_datetime s.start_datetime then t ∷ insert_slot s slots else s ∷ t ∷ slots

unfoldable pub sort_slots : List Slot → List Slot
unfolding insert_slot
sort_slots [] = []
sort_slots (s ∷ slots) = insert_slot s (sort_slots slots)

-- `blocked_intervals`: the time off and the appointments that touch the queried range.
unfoldable pub blocked_intervals : Directory → List Appointment → ℕ → ℤ → ℤ → List Interval
blocked_intervals d appointments provider_id range_start_utc range_end_utc =
    let rows =
      list_relevant_blocking_appointments d appointments provider_id range_start_utc range_end_utc
        none in
    let table = build_service_buffer_lookup d rows in
    map (λ t. (as_utc t.start_datetime, as_utc t.end_datetime))
      (list_time_offs d provider_id range_start_utc range_end_utc)
    ++ map (λ a. appointment_blocked_interval a table) rows

-- From the reading of the tables on, for an active provider in a zone.
unfoldable pub slots_in_range :
    (ℕ → ℕ → ℤ) → Directory → List Appointment → ℕ → ServiceTiming → ℕ → ℕ → Result (List Slot)
unfolding slots_of_day gather sort_slots blocked_intervals daterange
slots_in_range to_utc d appointments provider_id timing start_date end_date =
    let availabilities = keep (λ a. a.is_active) (list_availabilities d provider_id) in
    let overrides = keep (λ o. o.is_active) (list_overrides d provider_id start_date end_date) in
    let blocked =
      blocked_intervals d appointments provider_id (to_utc start_date 0)
        (to_utc (end_date + 1) 0) in
    if is_empty availabilities && is_empty overrides
    then ok []
    else (gather (slots_of_day to_utc timing blocked overrides availabilities)
          (daterange start_date end_date)
        >>= λ slots. ok (sort_slots slots))

unfoldable pub get_available_slots :
    Zones → Directory → List Appointment → ℕ → ℕ → ℕ → ℕ → Option ℕ → Result (List Slot)
unfolding slots_in_range resolve_service_timing
get_available_slots zones d appointments provider_id location_id start_date end_date service_id = do
  raise_if (ltb end_date start_date) end_date_before_start
  raise_if (ltb max_query_days (end_date - start_date + 1)) date_range_too_long
  provider ← or_raise (get_provider d provider_id) provider_not_found
  let for_active = do
    timing ← resolve_service_timing d provider_id location_id service_id true true
    organization ← or_raise (get_organization d provider.organization_id) none_value
    slots_in_range (zones.to_utc organization.timezone) d appointments provider_id timing start_date
        end_date
  if provider.is_active then for_active else ok []
