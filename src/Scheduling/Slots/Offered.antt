-- ===== src/Scheduling/Slots/Offered.antt =====
-- What `get_available_slots` may offer.
use book_point.Base.{
  ℕ, ◌+◌, ◌-◌, ◌≡◌, refl, true, false, ◌&&◌, Option, some, inl, inr, List, [], In, keep, Bool-cases,
  ltb,
}
use book_point.Base.Int.{ℤ, ◌+ℤ◌, ◌-ℤ◌, ◌≤ℤ◌, int_laws}
use book_point.Models.{
  Organization, Provider, Appointment, Directory, ProviderDateOverride, ProviderAvailability,
}
use book_point.Repositories.{list_availabilities, list_overrides, get_provider, get_organization}
use book_point.Results.{Result, ok, >>=-eq-ok, or_raise-eq-ok, raise_if-eq-ok, none_value}
use book_point.Scheduling.Blocking.{compute_blocked_interval}
use book_point.Scheduling.Slots.{
  Window, is_empty, day_windows, slots_of_window, slots_of_day, gather, sort_slots,
  blocked_intervals, slots_in_range, get_available_slots, max_query_days,
}
use book_point.Scheduling.Slots.Sorted.{
  IsSorted, sort_slots-IsSorted, In-of_In-sort_slots, In-of_In-gather,
}
use book_point.Scheduling.Slots.Window.{Slot, Interval, is_blocked, window_slots}
use book_point.Scheduling.Slots.Window.Exact.{window_slots_exact, cursor_after-mono}
use book_point.Scheduling.Timing.{ServiceTiming, resolve_service_timing}
use book_point.Time.{Zones, minutes, daterange}

-- The slot has the visible duration, its buffers fit between two instants, and its blocked interval
-- meets none of the given ones.
pub record FreeWithin (timing : ServiceTiming) (blocked : List Interval) (opens closes : ℤ)
    (s : Slot) : Type 0 where
  pub lasts : s.end_datetime ≡ s.start_datetime +ℤ minutes timing.visible_duration_minutes
  pub opened : opens ≤ℤ s.start_datetime -ℤ minutes timing.buffer_before_minutes
  pub closed : s.end_datetime +ℤ minutes timing.buffer_after_minutes ≤ℤ closes
  pub unblocked :
      is_blocked blocked (
        compute_blocked_interval s.start_datetime s.end_datetime timing.buffer_before_minutes
          timing.buffer_after_minutes)
      ≡ false

-- The slot is free within one of the day's windows.
abbrev pub OfferedOn : (ℕ → ℕ → ℤ) → ServiceTiming → List Interval → List Window → ℕ → Slot → Type 0
OfferedOn to_utc timing blocked windows day s =
    (w : Window) × (start : ℕ) × (end : ℕ) × In w windows
    × (w.0 ≡ some start)
    × (w.1 ≡ some end)
    × FreeWithin timing blocked (to_utc day start) (to_utc day end) s

module _ (to_utc : ℕ → ℕ → ℤ) (timing : ServiceTiming) (blocked : List Interval) (day : ℕ) where
  window-free :
      (start end fuel : ℕ) (slots : List Slot)
      → window_slots timing blocked
          (to_utc day end)
          fuel
          (to_utc day start +ℤ minutes timing.buffer_before_minutes)
        ≡ ok slots
      → (s : Slot) → In s slots
      → FreeWithin timing blocked (to_utc day start) (to_utc day end) s
  unfolding compute_blocked_interval
  window-free start end fuel slots h s i =
      let cursor = to_utc day start +ℤ minutes timing.buffer_before_minutes in
      let (k, e, (f, g)) =
        (window_slots_exact timing blocked (to_utc day end) fuel cursor slots h s).0 i in
      rw e (record {
        lasts = refl;
        opened = omega (int_laws, cursor_after-mono timing cursor k);
        closed = f;
        unblocked = g;
      })

  slots_of_window-free :
      (windows : List Window) (w : Window)
      → In w windows
      → (slots : List Slot) → slots_of_window to_utc timing blocked day w ≡ ok slots
      → (s : Slot) → In s slots
      → OfferedOn to_utc timing blocked windows day s
  unfolding slots_of_window
  slots_of_window-free windows (start_time, end_time) j slots h s i =
      let (start, e, h') = or_raise-eq-ok start_time none_value _ h in
      let (end, e', h'') = or_raise-eq-ok end_time none_value _ h' in
      ((start_time, end_time), start, end, j, e, e', window-free start end _ slots h'' s i)

abbrev pub active_overrides : Directory → ℕ → ℕ → ℕ → List ProviderDateOverride
active_overrides d p start_date end_date =
    keep (λ o. o.is_active) (list_overrides d p start_date end_date)

abbrev pub active_availabilities : Directory → ℕ → List ProviderAvailability
active_availabilities d p = keep (λ a. a.is_active) (list_availabilities d p)

-- Where an offered slot lies: on a day of the range, in a window of that day, and clear of the
-- intervals that `blocked_intervals` reads from the tables.
abbrev pub OfferedInRange :
    (ℕ → ℕ → ℤ) → Directory → List Appointment → ℕ → ServiceTiming → ℕ → ℕ → Slot → Type 0
OfferedInRange to_utc d appointments p timing start_date end_date s =
    (day : ℕ) × In day (daterange start_date end_date)
    × OfferedOn to_utc timing
        (blocked_intervals d appointments p (to_utc start_date 0) (to_utc (end_date + 1) 0))
        (day_windows (active_overrides d p start_date end_date) (active_availabilities d p) day) day
        s

slots_in_range-offered :
    (to_utc : ℕ → ℕ → ℤ) (d : Directory) (appointments : List Appointment) (p : ℕ)
    (timing : ServiceTiming) (start_date end_date : ℕ) (slots : List Slot)
    → slots_in_range to_utc d appointments p timing start_date end_date ≡ ok slots
    → IsSorted slots
      × ((s : Slot)
          → In s slots
          → OfferedInRange to_utc d appointments p timing start_date end_date s)
unfolding slots_in_range slots_of_day
slots_in_range-offered to_utc d appointments p timing start_date end_date slots h =
    elim (Bool-cases (
      is_empty (active_availabilities d p)
      && is_empty (active_overrides d p start_date end_date))) [
        | inl nothing ↦ rw (nothing_listed nothing) (tt, λ s i. absurd i)
        | inr listed ↦
            let (all_slots, e, h') =
              >>=-eq-ok (gather day_slots (daterange start_date end_date))
                (λ found. ok (sort_slots found)) (rw listed at h) in
            rw (sorted all_slots h') (
              sort_slots-IsSorted all_slots,
              λ s i. day_offered all_slots e s (In-of_In-sort_slots s all_slots i),
            )
      ]
  where
    day_slots : ℕ → Result (List Slot)
    day_slots =
        slots_of_day to_utc timing
          (blocked_intervals d appointments p (to_utc start_date 0) (to_utc (end_date + 1) 0))
          (active_overrides d p start_date end_date) (active_availabilities d p)

    nothing_listed :
        (is_empty (active_availabilities d p)
            && is_empty (active_overrides d p start_date end_date))
          ≡ true
        → slots ≡ []
    nothing_listed e = let q = rw e at h in cc

    sorted :
        (all_slots : List Slot)
        → ok (sort_slots all_slots) ≡ ok slots
        → slots ≡ sort_slots all_slots
    sorted all_slots e = cc

    day_offered :
        (all_slots : List Slot)
        → gather day_slots (daterange start_date end_date) ≡ ok all_slots
        → (s : Slot) → In s all_slots
        → OfferedInRange to_utc d appointments p timing start_date end_date s
    day_offered all_slots e s i =
        let (day, j, (ys, q, k)) =
          In-of_In-gather day_slots (daterange start_date end_date) all_slots e s i in
        let (w, l, (zs, r, m)) = In-of_In-gather _ _ ys q s k in
        (day, j, slots_of_window-free to_utc timing _ day _ w l zs r s m)

-- The same with the provider, the zone of its organisation and the timing of the request.
abbrev pub FoundInRange :
    Zones → Directory → List Appointment → ℕ → ℕ → ℕ → ℕ → Option ℕ → Slot → Type 0
FoundInRange zones d appointments p location_id start_date end_date service_id s =
    (provider : Provider) × (organization : Organization) × (timing : ServiceTiming) × (get_provider
        d p
      ≡ some provider)
    × (provider.is_active ≡ true)
    × (get_organization d provider.organization_id ≡ some organization)
    × (resolve_service_timing d p location_id service_id true true ≡ ok timing)
    × OfferedInRange (zones.to_utc organization.timezone) d appointments p timing start_date
        end_date s

pub get_available_slots-InRange :
    (zones : Zones) (d : Directory) (appointments : List Appointment) (p location_id : ℕ)
    (start_date end_date : ℕ) (service_id : Option ℕ) (slots : List Slot)
    → get_available_slots zones d appointments p location_id start_date end_date service_id
      ≡ ok slots
    → IsSorted slots
      × ((s : Slot)
          → In s slots
          → FoundInRange zones d appointments p location_id start_date end_date service_id s)
unfolding get_available_slots
get_available_slots-InRange zones d appointments p location_id start_date end_date service_id slots
      h =
    let (_, h₁) = raise_if-eq-ok (ltb end_date start_date) _ _ h in
    let (_, h₂) = raise_if-eq-ok (ltb max_query_days (end_date - start_date + 1)) _ _ h₁ in
    let (provider, e, h₃) = or_raise-eq-ok (get_provider d p) _ _ h₂ in
    elim (Bool-cases provider.is_active) [
      | inl active ↦
          let (timing, r, h₄) =
            >>=-eq-ok (resolve_service_timing d p location_id service_id true true) _
              (rw active at h₃) in
          let (organization, o, h₅) =
            or_raise-eq-ok (get_organization d provider.organization_id) _ _ h₄ in
          let (sorted, listed) =
            slots_in_range-offered (zones.to_utc organization.timezone) d appointments p timing
              start_date end_date slots h₅ in
          (sorted, λ s i. (provider, organization, timing, e, active, o, r, listed s i))
      | inr inactive ↦
          let q = rw inactive at h₃ in
          let none_listed : slots ≡ [] = cc in rw none_listed (tt, λ s i. absurd i)
    ]
