-- ===== src/Appointments/Bookable.antt =====
-- What the search for slots lists can be booked: the checks of
-- backend/app/services/appointment_service.py accept a slot of backend/app/services/scheduling_service.py.
use book_point.Appointments.Booking.{assert_slot_is_available, check_interval, equals_slot}
use book_point.Appointments.Checks.{resolve_service_timing-ReadFrom}
use book_point.Base.{
  ℕ, ◌+◌, ◌≡◌, refl, ◌∙◌, subst, true, false, Option, none, some, List, In, any_of_In, arith,
}
use book_point.Base.Int.{◌+ℤ◌, ◌-ℤ◌, ◌≤ℤ◌}
use book_point.Models.{Appointment, Directory, Organization, Provider}
use book_point.Repositories.{get_organization, get_provider}
use book_point.Results.{ok}
use book_point.Scheduling.Blocking.{has_blocked_overlap, compute_blocked_interval}
use book_point.Scheduling.Blocking.Complete.{buffers_of, has_blocked_overlap-eq-conflict_scan}
use book_point.Scheduling.Slots.Clear.{AllAssigned, unblocked-no_conflict}
use book_point.Scheduling.Slots.{blocked_intervals, get_available_slots}
use book_point.Scheduling.Slots.Offered.{get_available_slots-InRange}
use book_point.Scheduling.Timing.{ServiceTiming, resolve_service_timing}
use book_point.Scheduling.Slots.Window.{Interval, Slot, is_blocked}
use book_point.Time.{Zones, minutes}

equals_slot_refl : (s : Slot) → equals_slot s.start_datetime s.end_datetime s ≡ true
equals_slot_refl s = ground arith

module _ (zones : Zones) (d : Directory) (appointments : List Appointment) (p location_id day : ℕ)
    (service_id : Option ℕ) (slots : List Slot) (provider : Provider) (organization : Organization)
    (listed : get_available_slots zones d appointments p location_id day day service_id ≡ ok slots)
    (of_provider : get_provider d p ≡ some provider)
    (of_organization : get_organization d provider.organization_id ≡ some organization) where
  assert_slot-listed :
      (s : Slot)
      → In s slots
      → zones.local_date organization.timezone s.start_datetime ≡ day
      → assert_slot_is_available zones d appointments p location_id s.start_datetime s.end_datetime
          service_id
        ≡ ok tt
  unfolding assert_slot_is_available
  assert_slot-listed s i local =
      let found =
        any_of_In (equals_slot s.start_datetime s.end_datetime) s slots i (equals_slot_refl s) in
      rw (of_provider, of_organization, local, listed, found) refl

  abbrev block_of : ServiceTiming → Slot → Interval
  block_of timing s = (
    s.start_datetime -ℤ minutes timing.buffer_before_minutes,
    s.end_datetime +ℤ minutes timing.buffer_after_minutes,
  )

  timed-check_interval :
      (timing : ServiceTiming) (s : Slot)
      → In s slots
      → resolve_service_timing d p location_id service_id true true ≡ ok timing
      → s.end_datetime ≡ s.start_datetime +ℤ minutes timing.visible_duration_minutes
      → has_blocked_overlap d appointments p (block_of timing s).0 (block_of timing s).1 none
        ≡ false
      → zones.local_date organization.timezone s.start_datetime ≡ day
      → check_interval zones d appointments p location_id service_id none s.start_datetime
        ≡ ok s.end_datetime
  unfolding check_interval compute_blocked_interval
  timed-check_interval timing s i timed lasts clear local =
      rw (timed, ← lasts, clear, assert_slot-listed s i local) refl

  pub listed-check_interval :
      (s : Slot)
      → In s slots
      → zones.local_date organization.timezone s.start_datetime ≡ day
      → zones.to_utc organization.timezone day 0
        ≤ℤ s.start_datetime -ℤ minutes (buffers_of d service_id).0
      → s.end_datetime +ℤ minutes (buffers_of d service_id).1
        ≤ℤ zones.to_utc organization.timezone (day + 1) 0
      → AllAssigned d appointments p
      → check_interval zones d appointments p location_id service_id none s.start_datetime
        ≡ ok s.end_datetime
  unfolding compute_blocked_interval
  listed-check_interval s i local after_midnight before_midnight assigned =
      let (_, offered) =
        get_available_slots-InRange zones d appointments p location_id day day service_id slots
          listed in
      let (
        provider',
        organization',
        timing,
        e,
        active,
        o,
        timed,
        (_, _, (_, _, _, _, _, _, free)),
      ) =
        offered s i in
      let (before, after, stays) =
        resolve_service_timing-ReadFrom d p location_id service_id true true timing timed in
      let unblocked =
        subst
          (λ (x : Organization).
            is_blocked
              (blocked_intervals d appointments p (zones.to_utc x.timezone day 0)
                (zones.to_utc x.timezone (day + 1) 0))
              (block_of timing s)
            ≡ false)
          (same_organization provider' organization' e o) free.unblocked in
      let clear =
        unblocked-no_conflict d appointments p (zones.to_utc organization.timezone day 0)
          (zones.to_utc organization.timezone (day + 1) 0) (block_of timing s).0
          (block_of timing s).1 assigned (rw before after_midnight) (rw after before_midnight)
          unblocked in
      timed-check_interval timing s i timed free.lasts
        (has_blocked_overlap-eq-conflict_scan d appointments p _ _ none assigned ∙ clear) local
    where
      same_organization :
          (provider' : Provider) (organization' : Organization)
          → get_provider d p ≡ some provider'
          → get_organization d provider'.organization_id ≡ some organization'
          → organization' ≡ organization
      same_organization provider' organization' e o = cc
