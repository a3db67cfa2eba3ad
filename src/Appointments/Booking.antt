-- ===== src/Appointments/Booking.antt =====
-- `create_appointment` and `reschedule_appointment` of backend/app/services/appointment_service.py.
-- A handler returns its result and the database; one that raises rolls back to what it was given.
use book_point.Base.{
  ℕ, ◌+◌, Bool, true, ◌&&◌, Option, none, some, List, ◌∷◌, map, ◌==◌, any, if◌then◌else◌,
}
use book_point.Base.Int.{ℤ, ◌+ℤ◌, eq_ℤ}
use book_point.Base.Text.{Text}
use book_point.Models.{
  Appointment, AppointmentStatus, BookingChannel, Database, Directory, Effect, EffectKind,
  booking_created, booking_rescheduled, count, event, notify, is_reschedulable,
}
use book_point.Repositories.{
  get_appointment, get_location, get_organization, get_provider, get_service, has_customer,
  provider_at_location, service_at_location,
}
use book_point.Results.{
  Result, ok, err, ◌>>=◌, ◌>>◌, require, raise_if, or_raise, appointment_not_found, bad_new_status,
  customer_not_found, location_inactive, none_value, not_reschedulable, organization_inactive,
  organization_mismatch, overlapping_appointment, provider_inactive, provider_not_at_location,
  provider_not_found, service_not_at_location, service_not_found, slot_unavailable,
}
use book_point.Scheduling.Blocking.{compute_blocked_interval, has_blocked_overlap}
use book_point.Scheduling.Slots.{get_available_slots}
use book_point.Scheduling.Slots.Window.{Slot}
use book_point.Scheduling.Timing.{resolve_service_timing}
use book_point.Time.{Datetime, Zones, aware, ensure_aware_utc, minutes}

-- The schema of a new appointment.
pub record AppointmentCreate : Type 0 where
  pub organization_id : Option ℕ
  pub location_id : ℕ
  pub provider_id : ℕ
  pub service_id : Option ℕ
  pub customer_id : ℕ
  pub start_datetime : Datetime
  pub status : AppointmentStatus
  pub booking_channel : BookingChannel
  pub notes : Option Text

abbrev pub equals_slot : ℤ → ℤ → Slot → Bool
equals_slot start end s = eq_ℤ s.start_datetime start && eq_ℤ s.end_datetime end

-- `_assert_slot_is_available`: the scheduler lists exactly this slot on its local day.
unfoldable pub assert_slot_is_available :
    Zones → Directory → List Appointment → ℕ → ℕ → ℤ → ℤ → Option ℕ → Result (Unit {0})
assert_slot_is_available zones d appointments provider_id location_id start end service_id = do
  provider ← or_raise (get_provider d provider_id) provider_not_found
  organization ← or_raise (get_organization d provider.organization_id) none_value
  let slot_date = zones.local_date organization.timezone start
  slots ←
      get_available_slots zones d appointments provider_id location_id slot_date slot_date
        service_id
  require (any (equals_slot start end) slots) slot_unavailable

abbrev pub matches_organization : Option ℕ → ℕ → Bool
matches_organization none k = true
matches_organization (some j) k = j == k

-- The checks of the service of a new appointment.
unfoldable pub check_service : Directory → ℕ → ℕ → Option ℕ → Result (Unit {0})
check_service d organization_id location_id none = ok tt
check_service d organization_id location_id (some service_id) = do
  service ← or_raise (get_service d service_id) service_not_found
  require service.is_active service_not_found
  require (service.organization_id == organization_id) organization_mismatch
  require (service_at_location d service.id location_id) service_not_at_location

-- The checks that both handlers make of an interval, which end with the interval's end: the timing,
-- no conflict with a blocked interval, and a listed slot.
unfoldable pub check_interval :
    Zones → Directory → List Appointment → ℕ → ℕ → Option ℕ → Option ℕ → ℤ → Result ℤ
unfolding resolve_service_timing compute_blocked_interval has_blocked_overlap
    assert_slot_is_available
check_interval zones d appointments provider_id location_id service_id exclude start = do
  timing ← resolve_service_timing d provider_id location_id service_id true true
  let end = start +ℤ minutes timing.visible_duration_minutes
  let blocked =
      compute_blocked_interval start end timing.buffer_before_minutes timing.buffer_after_minutes
  raise_if (has_blocked_overlap d appointments provider_id blocked.0 blocked.1 exclude)
      overlapping_appointment
  assert_slot_is_available zones d appointments provider_id location_id start end service_id
  ok end

-- The new row of `create_appointment`, or what the handler raises.
unfoldable pub new_appointment : Zones → Database → AppointmentCreate → Result Appointment
unfolding check_service ensure_aware_utc
new_appointment zones db payload = do
  let d = db.directory
  start ← ensure_aware_utc payload.start_datetime
  provider ← or_raise (get_provider d payload.provider_id) provider_inactive
  require provider.is_active provider_inactive
  require (is_reschedulable payload.status) bad_new_status
  require (matches_organization payload.organization_id provider.organization_id)
      organization_mismatch
  organization ← or_raise (get_organization d provider.organization_id) organization_inactive
  require organization.is_active organization_inactive
  location ← or_raise (get_location d payload.location_id) location_inactive
  require location.is_active location_inactive
  require (location.organization_id == provider.organization_id) organization_mismatch
  require (provider_at_location d provider.id location.id) provider_not_at_location
  require (has_customer db.customers payload.customer_id) customer_not_found
  check_service d provider.organization_id location.id payload.service_id
  end ←
      check_interval zones d db.appointments provider.id payload.location_id payload.service_id none
        start
  ok (record {
    id = db.next_id;
    organization_id = provider.organization_id;
    location_id = location.id;
    provider_id = provider.id;
    service_id = payload.service_id;
    customer_id = payload.customer_id;
    start_datetime = aware start;
    end_datetime = aware end;
    status = payload.status;
    booking_channel = payload.booking_channel;
    notes = payload.notes;
  })

-- The three effects that follow a commit: the notification, the counter and the domain event.
abbrev pub announce : EffectKind → ℕ → List Effect → List Effect
announce kind k log = event kind k ∷ count kind ∷ notify kind k ∷ log

abbrev pub insert_appointment : Database → Result Appointment → Result Appointment × Database
insert_appointment db (err e) = (err e, db)
insert_appointment db (ok a) = (
  ok a,
  record db {
    appointments = a ∷ db.appointments;
    next_id = db.next_id + 1;
    log = announce booking_created a.id db.log;
  },
)

unfoldable pub create_appointment :
    Zones → AppointmentCreate → Database → Result Appointment × Database
unfolding new_appointment
create_appointment zones payload db = insert_appointment db (new_appointment zones db payload)

-- `appointment_repo.update`: the row of that id takes the new values.
abbrev pub update_appointment :
    ℕ → (Appointment → Appointment) → List Appointment → List Appointment
update_appointment k f = map (λ a. if a.id == k then f a else a)

-- The moved row of `reschedule_appointment`, or what the handler raises.
unfoldable pub moved_appointment : Zones → Database → ℕ → Datetime → Result Appointment
unfolding check_interval ensure_aware_utc
moved_appointment zones db appointment_id new_start_datetime = do
  start ← ensure_aware_utc new_start_datetime
  appointment ← or_raise (get_appointment db.appointments appointment_id) appointment_not_found
  require (is_reschedulable appointment.status) not_reschedulable
  provider ← or_raise (get_provider db.directory appointment.provider_id) provider_inactive
  require provider.is_active provider_inactive
  end ←
      check_interval zones db.directory db.appointments appointment.provider_id
        appointment.location_id appointment.service_id (some appointment.id) start
  ok (record appointment { start_datetime = aware start; end_datetime = aware end })

abbrev pub replace_appointment : Database → Result Appointment → Result Appointment × Database
replace_appointment db (err e) = (err e, db)
replace_appointment db (ok a) = (
  ok a,
  record db {
    appointments = update_appointment a.id (λ _. a) db.appointments;
    log = announce booking_rescheduled a.id db.log;
  },
)

unfoldable pub reschedule_appointment :
    Zones → ℕ → Datetime → Database → Result Appointment × Database
unfolding moved_appointment
reschedule_appointment zones appointment_id new_start_datetime db =
    replace_appointment db (moved_appointment zones db appointment_id new_start_datetime)
