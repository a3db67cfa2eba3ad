-- ===== src/Scheduling/Slots/Terminates.antt =====
-- The search for slots ends: the `while True` loop of each window does.
use book_point.Base.{
  ℕ, ◌+◌, ◌-◌, ◌<◌, ◌≡◌, ◌≢◌, refl, true, ◌&&◌, Option, none, some, inl, inr, List, [], ◌∷◌,
  Bool-cases, arith, ltb,
}
use book_point.Base.Int.{ℤ, ◌+ℤ◌}
use book_point.Models.{Appointment, Directory}
use book_point.Repositories.{get_provider, get_organization}
use book_point.Results.{Result, ok, err, ◌>>=◌, or_raise, diverges, raise_if}
use book_point.Scheduling.Slots.{
  Window, slots_of_window, slots_of_day, gather, slots_in_range, get_available_slots, is_empty,
  max_query_days,
}
use book_point.Scheduling.Slots.Offered.{active_overrides, active_availabilities}
use book_point.Scheduling.Slots.Window.{Slot, Interval}
use book_point.Scheduling.Slots.Window.Exact.{window_slots_total}
use book_point.Scheduling.Timing.{ServiceTiming, resolve_service_timing}
use book_point.Scheduling.Timing.Resolve.{
  PositiveDurations, resolve_service_timing-positive, resolve_service_timing-ne-diverges,
}
use book_point.Time.{Zones, minutes, daterange}

-- A chain of steps that end ends.
>>=-ne-diverges :
    {A B : Type 0} (m : Result A) (f : A → Result B)
    → m ≢ err diverges
    → ((a : A) → m ≡ ok a → f a ≢ err diverges)
    → (m >>= f) ≢ err diverges
>>=-ne-diverges (ok a) f h k q = k a refl q
>>=-ne-diverges (err e) f h k q = h cc

gather-ne-diverges :
    {A : Type 0} (f : A → Result (List Slot)) (xs : List A)
    → ((x : A) → f x ≢ err diverges)
    → gather f xs ≢ err diverges
unfolding gather
gather-ne-diverges f [] h e = cc
gather-ne-diverges f (x ∷ xs) h e =
    >>=-ne-diverges (f x) _ (h x)
      (λ ys _. >>=-ne-diverges (gather f xs) _ (gather-ne-diverges f xs h) (λ rest _ q. cc)) e

module _ (to_utc : ℕ → ℕ → ℤ) (timing : ServiceTiming)
    (positive : 0 < timing.visible_duration_minutes) where
  slots_of_window-ne-diverges :
      (blocked : List Interval) (day : ℕ) (w : Window)
      → slots_of_window to_utc timing blocked day w ≢ err diverges
  unfolding slots_of_window
  slots_of_window-ne-diverges blocked day (none, end_time) e = cc
  slots_of_window-ne-diverges blocked day (some start, none) e = cc
  slots_of_window-ne-diverges blocked day (some start, some end) e =
      let cursor = to_utc day start +ℤ minutes timing.buffer_before_minutes in
      let (slots, q) = window_slots_total timing blocked (to_utc day end) cursor positive in cc

  slots_in_range-ne-diverges :
      (d : Directory) (appointments : List Appointment) (p start_date end_date : ℕ)
      → slots_in_range to_utc d appointments p timing start_date end_date ≢ err diverges
  unfolding slots_in_range slots_of_day
  slots_in_range-ne-diverges d appointments p start_date end_date e =
      elim (Bool-cases (
        is_empty (active_availabilities d p)
        && is_empty (active_overrides d p start_date end_date))) [
          | inl nothing ↦ let q = rw nothing at e in cc
          | inr listed ↦
              >>=-ne-diverges (gather _ (daterange start_date end_date)) _
                (gather-ne-diverges _ (daterange start_date end_date)
                  (λ day. gather-ne-diverges _ _ (slots_of_window-ne-diverges _ day)))
                (λ slots _ q. cc) (rw listed at e)
        ]

-- If the services and providers of the directory have positive durations, `get_available_slots`
-- never runs out of the fuel of its loops.
pub get_available_slots-ne-diverges :
    (zones : Zones) (d : Directory) (appointments : List Appointment) (p location_id : ℕ)
    (start_date end_date : ℕ) (service_id : Option ℕ)
    → PositiveDurations d
    → get_available_slots zones d appointments p location_id start_date end_date service_id
      ≢ err diverges
unfolding get_available_slots
get_available_slots-ne-diverges zones d appointments p location_id start_date end_date service_id
      h =
    >>=-ne-diverges (raise_if (ltb end_date start_date) _) _ (ground arith) λ _ _.
      >>=-ne-diverges (raise_if (ltb max_query_days (end_date - start_date + 1)) _) _ (ground arith)
        λ _ _. >>=-ne-diverges (or_raise (get_provider d p) _) _ (ground arith) λ provider _.
          elim (Bool-cases provider.is_active) [
            | inl active ↦ rw active (
                >>=-ne-diverges (resolve_service_timing d p location_id service_id true true) _
                  (resolve_service_timing-ne-diverges d p location_id service_id true true)
                  λ timing r.
                    >>=-ne-diverges (or_raise (get_organization d provider.organization_id) _) _
                      (ground arith)
                      λ organization _.
                        slots_in_range-ne-diverges (zones.to_utc organization.timezone) timing
                          (resolve_service_timing-positive d p location_id service_id true true
                            timing h r)
                          d appointments p start_date end_date)
            | inr inactive ↦ rw inactive (λ q. cc)
          ]
