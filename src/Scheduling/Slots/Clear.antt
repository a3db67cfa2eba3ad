-- ===== src/Scheduling/Slots/Clear.antt =====
-- The slots of `get_available_slots` (backend/app/services/scheduling_service.py) against the rows of the
-- tables: every time off of the provider, and every blocking appointment.
use book_point.Base.{
  ℕ, ◌+◌, ◌≡◌, sym, ◌∙◌, ap, true, false, true≢false, ◌&&◌, ◌⊎◌, Option, none, some, inl, inr, List,
  [], ◌∷◌, map, keep, ◌==◌, ==_iff, In, In-append_left, In-append_right, In-keep, In-of_any,
  any_of_In, Bool-cases, arith,
}
use book_point.Base.Int.{ℤ, ◌+ℤ◌, ◌-ℤ◌, ◌≤ℤ◌, int_laws}
use book_point.Models.{Appointment, Directory, Organization, Provider, ProviderTimeOff}
use book_point.Repositories.{
  blocks, get_organization, get_provider, list_blocking_for_provider, list_time_offs,
}
use book_point.Results.{ok}
use book_point.Scheduling.Blocking.{
  appointment_blocked_interval, build_service_buffer_lookup, compute_blocked_interval,
  list_relevant_blocking_appointments,
}
use book_point.Scheduling.Blocking.Complete.{
  StaysAssigned, blocked_end_of, blocked_start_of, conflict_scan, in_window, in_window_of_overlap,
  table_interval,
}
use book_point.Scheduling.Slots.{Window, blocked_intervals, day_windows, get_available_slots}
use book_point.Scheduling.Slots.Offered.{
  active_availabilities, active_overrides, get_available_slots-InRange,
}
use book_point.Scheduling.Slots.Sorted.{IsSorted}
use book_point.Scheduling.Slots.Window.{Interval, Slot, is_blocked}
use book_point.Scheduling.Timing.{ServiceTiming, resolve_service_timing}
use book_point.Time.{Zones, as_utc, daterange, minutes, overlaps, overlaps_iff}

In-map : {A B : Type 0} (f : A → B) (a : A) (xs : List A) → In a xs → In (f a) (map f xs)
In-map f a [] i = absurd i
In-map f a (x ∷ xs) (inl e) = inl (ap f e)
In-map f a (x ∷ xs) (inr i) = inr (In-map f a xs i)

abbrev pub AllAssigned : Directory → List Appointment → ℕ → Type 0
AllAssigned d appointments p =
    (a : Appointment) → In a appointments → blocks p none a ≡ true → StaysAssigned d p a.service_id

-- An interval within another meets what it meets.
overlaps_mono :
    (a b lo hi c e : ℤ) → lo ≤ℤ a → b ≤ℤ hi → overlaps a b c e ≡ true → overlaps lo hi c e ≡ true
overlaps_mono a b lo hi c e l h o =
    let (x, y) = (overlaps_iff a b c e).0 o in
    (overlaps_iff lo hi c e).1 (omega int_laws, omega int_laws)

-- An interval counts against a block if it meets the range of the search, or if the block lies in the
-- range.
abbrev pub Counts : (lo hi : ℤ) → (block interval : Interval) → Type 0
Counts lo hi block interval =
    (overlaps lo hi interval.0 interval.1 ≡ true) ⊎ ((lo ≤ℤ block.0) × (block.1 ≤ℤ hi))

meets_range :
    (lo hi : ℤ) (block interval : Interval)
    → Counts lo hi block interval
    → overlaps block.0 block.1 interval.0 interval.1 ≡ true
    → overlaps lo hi interval.0 interval.1 ≡ true
meets_range lo hi block interval (inl touches) met = touches
meets_range lo hi block interval (inr (l, h)) met =
    overlaps_mono block.0 block.1 lo hi interval.0 interval.1 l h met

abbrev time_off_interval : ProviderTimeOff → Interval
time_off_interval t = (as_utc t.start_datetime, as_utc t.end_datetime)

abbrev booked_interval : Directory → Appointment → Interval
booked_interval d a = (blocked_start_of d a, blocked_end_of d a)

module _ (d : Directory) (appointments : List Appointment) (p : ℕ) (lo hi : ℤ) where
  -- A time off that meets the range is among the blocked intervals.
  off-is_blocked :
      (t : ProviderTimeOff) (block : Interval)
      → In t d.time_offs
      → t.provider_id ≡ p
      → overlaps lo hi (as_utc t.start_datetime) (as_utc t.end_datetime) ≡ true
      → overlaps block.0 block.1 (as_utc t.start_datetime) (as_utc t.end_datetime) ≡ true
      → is_blocked (blocked_intervals d appointments p lo hi) block ≡ true
  unfolding blocked_intervals overlaps
  off-is_blocked t block i own touches met =
      let rows = list_relevant_blocking_appointments d appointments p lo hi none in
      let table = build_service_buffer_lookup d rows in
      let own_test : (t.provider_id == p) ≡ true = (==_iff t.provider_id p).1 own in
      let j : In t (list_time_offs d p lo hi) = In-keep _ t d.time_offs i (ground arith) in
      any_of_In (λ x. overlaps block.0 block.1 x.0 x.1) (time_off_interval t) _
        (In-append_left (time_off_interval t) (map time_off_interval (list_time_offs d p lo hi))
          (map (λ r. appointment_blocked_interval r table) rows)
          (In-map time_off_interval t (list_time_offs d p lo hi) j))
        met

  -- So is the interval of a blocking appointment.
  booked-is_blocked :
      (a : Appointment) (block : Interval)
      → In a appointments
      → blocks p none a ≡ true
      → StaysAssigned d p a.service_id
      → overlaps lo hi (blocked_start_of d a) (blocked_end_of d a) ≡ true
      → overlaps block.0 block.1 (blocked_start_of d a) (blocked_end_of d a) ≡ true
      → is_blocked (blocked_intervals d appointments p lo hi) block ≡ true
  unfolding blocked_intervals list_relevant_blocking_appointments list_blocking_for_provider
  booked-is_blocked a block i b s touches met =
      let rows = keep (λ r. blocks p none r && in_window d p lo hi r) appointments in
      let table = build_service_buffer_lookup d rows in
      let inside = in_window_of_overlap d p lo hi a s touches in
      let j =
        In-keep (λ r. blocks p none r && in_window d p lo hi r) a appointments i (ground arith) in
      let k =
        In-append_right (appointment_blocked_interval a table)
          (map time_off_interval (list_time_offs d p lo hi))
          (map (λ r. appointment_blocked_interval r table) rows)
          (In-map (λ r. appointment_blocked_interval r table) a rows j) in
      any_of_In (λ t. overlaps block.0 block.1 t.0 t.1) (appointment_blocked_interval a table) _ k
        (ap (λ (t : Interval). overlaps block.0 block.1 t.0 t.1) (table_interval d a rows j) ∙ met)

  -- A block that meets none of the rows: of the time off of the provider, and of the blocking
  -- appointments whose services are still assigned, each with the buffers of its service.
  pub record IsClear (block : Interval) : Type 0 where
    pub off :
        (t : ProviderTimeOff)
        → In t d.time_offs
        → t.provider_id ≡ p
        → Counts lo hi block (time_off_interval t)
        → overlaps block.0 block.1 (as_utc t.start_datetime) (as_utc t.end_datetime) ≡ false
    pub booked :
        (a : Appointment)
        → In a appointments
        → blocks p none a ≡ true
        → StaysAssigned d p a.service_id
        → Counts lo hi block (booked_interval d a)
        → overlaps block.0 block.1 (blocked_start_of d a) (blocked_end_of d a) ≡ false

  unblocked-IsClear :
      (block : Interval)
      → is_blocked (blocked_intervals d appointments p lo hi) block ≡ false
      → IsClear block
  unblocked-IsClear block free = record {
    off = λ t i own counts.
        elim (Bool-cases
          (overlaps block.0 block.1 (as_utc t.start_datetime) (as_utc t.end_datetime))) [
            | inr n ↦ n
            | inl met ↦
                let touches = meets_range lo hi block (time_off_interval t) counts met in
                absurd (true≢false (sym (off-is_blocked t block i own touches met) ∙ free))
          ];
    booked = λ a i b s counts.
        elim (Bool-cases (overlaps block.0 block.1 (blocked_start_of d a) (blocked_end_of d a))) [
          | inr n ↦ n
          | inl met ↦
              let touches = meets_range lo hi block (booked_interval d a) counts met in
              absurd (true≢false (sym (booked-is_blocked a block i b s touches met) ∙ free))
        ];
  }

  pub unblocked-no_conflict :
      (start end : ℤ)
      → AllAssigned d appointments p
      → lo ≤ℤ start
      → end ≤ℤ hi
      → is_blocked (blocked_intervals d appointments p lo hi) (start, end) ≡ false
      → conflict_scan d appointments p start end none ≡ false
  unblocked-no_conflict start end assigned l h free =
      elim (Bool-cases (conflict_scan d appointments p start end none)) [
        | inr n ↦ n
        | inl y ↦
            let (a, i, q) =
              In-of_any
                (λ r.
                  blocks p none r && overlaps start end (blocked_start_of d r) (blocked_end_of d r))
                appointments y in
            let b : blocks p none a ≡ true = ground arith in
            let o : overlaps start end (blocked_start_of d a) (blocked_end_of d a) ≡ true =
              ground arith in
            let clear = unblocked-IsClear (start, end) free in
            absurd (true≢false (sym o ∙ clear.booked a i b (assigned a i b) (inr (l, h))))
      ]

-- The slot lasts as long as is shown, and its block, the slot with the buffers, lies in the window of
-- the day from `opens` to `closes`.
pub record StandsIn (timing : ServiceTiming) (opens closes : ℤ) (s : Slot) : Type 0 where
  pub lasts : s.end_datetime ≡ s.start_datetime +ℤ minutes timing.visible_duration_minutes
  pub opened : opens ≤ℤ s.start_datetime -ℤ minutes timing.buffer_before_minutes
  pub closed : s.end_datetime +ℤ minutes timing.buffer_after_minutes ≤ℤ closes

abbrev pub block_of : ServiceTiming → Slot → Interval
block_of timing s = (
  s.start_datetime -ℤ minutes timing.buffer_before_minutes,
  s.end_datetime +ℤ minutes timing.buffer_after_minutes,
)

-- The provider is active, the timing is that of the request, the slot stands in a window of a day of the
-- range, and its block is clear of the rows of the tables.
abbrev pub Offered : Zones → Directory → List Appointment → ℕ → ℕ → ℕ → ℕ → Option ℕ → Slot → Type 0
Offered zones d appointments p location_id start_date end_date service_id s =
    (provider : Provider) × (organization : Organization) × (timing : ServiceTiming) × (day : ℕ)
    × (w : Window) × (start : ℕ) × (end : ℕ) × (get_provider d p ≡ some provider)
    × (provider.is_active ≡ true)
    × (get_organization d provider.organization_id ≡ some organization)
    × (resolve_service_timing d p location_id service_id true true ≡ ok timing)
    × In day (daterange start_date end_date)
    × In w (day_windows (active_overrides d p start_date end_date) (active_availabilities d p) day)
    × (w.0 ≡ some start)
    × (w.1 ≡ some end)
    × StandsIn timing (zones.to_utc organization.timezone day start)
        (zones.to_utc organization.timezone day end) s
    × IsClear d appointments p (zones.to_utc organization.timezone start_date 0)
        (zones.to_utc organization.timezone (end_date + 1) 0) (block_of timing s)

-- If `get_available_slots` gives slots, they are in order of their starts, and each is `Offered`:
-- the provider is active, the timing is that of the request, the slot lies with its buffers in a
-- window of a day of the range, and so taken it meets no time off of the provider in the table, and
-- no blocking appointment of the provider in the table, with the buffers of its service, whose
-- service is still assigned. A row counts that meets the time from the first midnight of the range
-- to the last; if the slot with its buffers lies in that time, every row counts.
pub get_available_slots-Offered :
    (zones : Zones) (d : Directory) (appointments : List Appointment) (p location_id : ℕ)
    (start_date end_date : ℕ) (service_id : Option ℕ) (slots : List Slot)
    → get_available_slots zones d appointments p location_id start_date end_date service_id
      ≡ ok slots
    → IsSorted slots
      × ((s : Slot)
          → In s slots
          → Offered zones d appointments p location_id start_date end_date service_id s)
unfolding compute_blocked_interval
get_available_slots-Offered zones d appointments p location_id start_date end_date service_id slots
      h =
    let (sorted, listed) =
      get_available_slots-InRange zones d appointments p location_id start_date end_date service_id
        slots h in
    (
      sorted,
      λ s i.
          let (
            provider,
            organization,
            timing,
            found,
            active,
            of,
            timed,
            (day, j, (w, start, end, k, opens, closes, free)),
          ) =
            listed s i in
          (
            provider,
            organization,
            timing,
            day,
            w,
            start,
            end,
            found,
            active,
            of,
            timed,
            j,
            k,
            opens,
            closes,
            record { lasts = free.lasts; opened = free.opened; closed = free.closed },
            unblocked-IsClear d appointments p (zones.to_utc organization.timezone start_date 0)
                (zones.to_utc organization.timezone (end_date + 1) 0) (block_of timing s)
                free.unblocked,
          ),
    )
