-- ===== src/Discovery/Bookable.antt =====
-- What a customer sees can be booked: a slot that backend/app/services/discovery_service.py lists is
-- accepted by its `create_public_booking`.
use book_point.Appointments.Apart.{IsBooked-stays, IsConsistent, blocks_provider}
use book_point.Appointments.Bookable.{listed-check_interval}
use book_point.Appointments.Booking.{
  check_interval, check_service, create_appointment, new_appointment,
}
use book_point.Base.{
  ℕ, ◌≡◌, refl, sym, ◌∙◌, ap, subst, Bool, true, false, none, some, List, ◌∷◌, ◌==◌, ==_iff, ◌+◌,
  In, In-of_In-keep, In-of_first, arith, if◌then◌else◌,
}
use book_point.Base.Int.{ℤ, ltb_ℤ, ◌+ℤ◌, ◌-ℤ◌, ◌≤ℤ◌}
use book_point.Customers.Resolve.{resolve_or_create_customer}
use book_point.Customers.Unique.{
  Harmless, SameBookings, IsKnown, has_customer-In, resolve_or_create_customer-Resolved,
}
use book_point.Discovery.Apart.{checkout_booking-Same}
use book_point.Discovery.Visible.{list_visible_slots}
use book_point.Discovery.Booking.{
  Booking, BookingContext, book, book_checked, checkout_booking, DiscoveryBookingCreate,
  booking_request, check_booking, create_public_booking, validate_booking_entities,
}
use book_point.Models.{
  Appointment, AppointmentStatus, BookingChannel, Customer, Database, Directory, Location,
  Organization, Provider, Service, is_reschedulable,
}
use book_point.Repositories.{
  get_location, get_organization, get_provider, get_provider_service, get_service, has_customer,
  provider_at_location, service_at_location,
}
use book_point.Results.{Result, ok, err, >>=-eq-ok, or_raise-eq-ok, require-eq-ok, eq_of_ok}
use book_point.Scheduling.Blocking.Complete.{StaysAssigned, buffers_of}
use book_point.Scheduling.Slots.Clear.{AllAssigned}
use book_point.Scheduling.Slots.{get_available_slots}
use book_point.Scheduling.Slots.Window.{Slot}
use book_point.Time.{Zones, aware, ensure_aware_utc, minutes}

-- What `validate_booking_entities` has checked.
pub record Validated (d : Directory) (payload : DiscoveryBookingCreate) (service : Service)
    (provider : Provider) (location : Location) (organization : Organization) : Type 0 where
  pub provider_found : get_provider d payload.provider_id ≡ some provider
  pub provider_active : provider.is_active ≡ true
  pub location_found : get_location d payload.location_id ≡ some location
  pub location_active : location.is_active ≡ true
  pub service_found : get_service d payload.service_id ≡ some service
  pub service_active : service.is_active ≡ true
  pub organization_found : get_organization d provider.organization_id ≡ some organization
  pub organization_active : organization.is_active ≡ true
  pub organization_is : (payload.organization_id == provider.organization_id) ≡ true
  pub location_of : (location.organization_id == provider.organization_id) ≡ true
  pub service_of : (service.organization_id == provider.organization_id) ≡ true
  pub at_location : provider_at_location d provider.id location.id ≡ true
  pub service_there : service_at_location d service.id location.id ≡ true

validate-Validated :
    (d : Directory) (payload : DiscoveryBookingCreate) (service : Service)
    → validate_booking_entities d payload ≡ ok service
    → (provider : Provider) × (location : Location) × (organization : Organization) × Validated d
        payload service provider location organization
unfolding validate_booking_entities
validate-Validated d payload service e =
    let (o, o_found, h₁) = or_raise-eq-ok (get_organization d payload.organization_id) _ _ e in
    let (o_active, h₂) = require-eq-ok o.is_active _ _ h₁ in
    let (l, l_found, h₃) = or_raise-eq-ok (get_location d payload.location_id) _ _ h₂ in
    let (l_active, h₄) = require-eq-ok l.is_active _ _ h₃ in
    let (p, p_found, h₅) = or_raise-eq-ok (get_provider d payload.provider_id) _ _ h₄ in
    let (p_active, h₆) = require-eq-ok p.is_active _ _ h₅ in
    let (s, s_found, h₇) = or_raise-eq-ok (get_service d payload.service_id) _ _ h₆ in
    let (s_active, h₈) = require-eq-ok s.is_active _ _ h₇ in
    let (l_of, h₉) = require-eq-ok (l.organization_id == o.id) _ _ h₈ in
    let (p_of, h₁₀) = require-eq-ok (p.organization_id == o.id) _ _ h₉ in
    let (s_of, h₁₁) = require-eq-ok (s.organization_id == o.id) _ _ h₁₀ in
    let (at, h₁₂) = require-eq-ok (provider_at_location d p.id l.id) _ _ h₁₁ in
    let (_, _, h₁₃) = or_raise-eq-ok (get_provider_service d p.id s.id) _ _ h₁₂ in
    let (there, h₁₄) = require-eq-ok (service_at_location d s.id l.id) _ _ h₁₃ in
    let o_is : o.id ≡ payload.organization_id =
      (==_iff o.id payload.organization_id).0
        (In-of_first (λ x. x.id == payload.organization_id) d.organizations o_found).1 in
    let same : p.organization_id ≡ payload.organization_id = ground arith in
    (
      p,
      l,
      o,
      subst (λ (t : Service). Validated d payload t p l o) (eq_of_ok h₁₄)
          (record {
            provider_found = p_found;
            provider_active = p_active;
            location_found = l_found;
            location_active = l_active;
            service_found = s_found;
            service_active = s_active;
            organization_found =
                subst (λ (k : ℕ). get_organization d k ≡ some o) (sym same) o_found;
            organization_active = o_active;
            organization_is = ground arith;
            location_of = ground arith;
            service_of = ground arith;
            at_location = at;
            service_there = there;
          }),
    )

status_accepted :
    (paid : Bool)
    → is_reschedulable
        (if paid then AppointmentStatus.pending_payment else AppointmentStatus.confirmed)
      ≡ true
status_accepted true = refl
status_accepted false = refl

-- The row that a booking writes.
abbrev pub booked_row :
    ℕ
    → DiscoveryBookingCreate
    → BookingChannel
    → Service
    → ℤ
    → ℤ
    → Customer
    → Provider
    → Location
    → Appointment
booked_row k payload booking_channel service start end customer provider location = record {
  id = k;
  organization_id = provider.organization_id;
  location_id = location.id;
  provider_id = provider.id;
  service_id = some payload.service_id;
  customer_id = customer.id;
  start_datetime = aware start;
  end_datetime = aware end;
  status =
      if service.requires_payment
      then AppointmentStatus.pending_payment
      else AppointmentStatus.confirmed;
  booking_channel = booking_channel;
  notes = none;
}

module _ (zones : Zones) (payload : DiscoveryBookingCreate) (booking_channel : BookingChannel)
    (service : Service) (provider : Provider) (location : Location) (organization : Organization)
    (db : Database)
    (valid : Validated db.directory payload service provider location organization) where
  check_service-valid :
      check_service db.directory provider.organization_id location.id (some payload.service_id)
      ≡ ok tt
  unfolding check_service
  check_service-valid =
      simp (valid.service_found, valid.service_active, valid.service_of, valid.service_there) refl

  new_appointment-valid :
      (start end : ℤ) (customer : Customer)
      → has_customer db.customers customer.id ≡ true
      → check_interval zones db.directory db.appointments provider.id payload.location_id
          (some payload.service_id)
          none
          start
        ≡ ok end
      → new_appointment zones db (booking_request payload booking_channel service start customer)
        ≡ ok (
            booked_row db.next_id payload booking_channel service start end customer provider
              location)
  unfolding new_appointment ensure_aware_utc
  new_appointment-valid start end customer known checked =
      simp
        (
          valid.provider_found, valid.provider_active, status_accepted, valid.organization_is,
          valid.organization_found, valid.organization_active, valid.location_found,
          valid.location_active, valid.location_of, valid.at_location, known, check_service-valid,
          checked,
        )
        refl

IsConsistent-AllAssigned :
    (db : Database) (p : ℕ) → IsConsistent db → AllAssigned db.directory db.appointments p
IsConsistent-AllAssigned db p h a i b =
    subst (λ (k : ℕ). StaysAssigned db.directory k a.service_id) (blocks_provider p none a b)
      (IsBooked-stays db.directory db.next_id db.appointments h a i)

book-resolved :
    (context : BookingContext) (payload : DiscoveryBookingCreate) (booking_channel : BookingChannel)
    (service : Service) (start now : ℤ) (customer : Customer) (r : Result Customer × Database)
    → r.0 ≡ ok customer
    → book context payload booking_channel service start now r
      ≡ checkout_booking context service now customer (
          create_appointment context.zones
            (booking_request payload booking_channel service start customer)
            r.1)
unfolding book
book-resolved context payload booking_channel service start now customer (err e, db) q = cc
book-resolved context payload booking_channel service start now customer (ok c, db) q =
    let same : c ≡ customer = eq_of_ok q in rw same refl

-- What a booking at a slot leaves: one more appointment, of the slot, the provider and the customer.
abbrev pub IsBookedAt : DiscoveryBookingCreate → Customer → Slot → Database → Database → Type 0
IsBookedAt payload customer s db after =
    (a : Appointment) × (after.appointments ≡ a ∷ db.appointments)
    × (a.start_datetime ≡ aware s.start_datetime)
    × (a.end_datetime ≡ aware s.end_datetime)
    × (a.provider_id ≡ payload.provider_id)
    × (a.customer_id ≡ customer.id)

module _ (context : BookingContext) (payload : DiscoveryBookingCreate)
    (booking_channel : BookingChannel) (service : Service) (provider : Provider)
    (location : Location) (organization : Organization) (now : ℤ) (s : Slot) where
  -- From the customer on.
  book-IsBookedAt :
      (customer : Customer) (db : Database) (r : Result Customer × Database)
      → Validated db.directory payload service provider location organization
      → SameBookings db r.1
      → r.0 ≡ ok customer
      → has_customer r.1.customers customer.id ≡ true
      → check_interval context.zones db.directory db.appointments provider.id payload.location_id
          (some payload.service_id)
          none
          s.start_datetime
        ≡ ok s.end_datetime
      → IsBookedAt payload customer s db
          (book context payload booking_channel service s.start_datetime now r).1
  unfolding create_appointment
  book-IsBookedAt customer db r valid (d, a, n) resolved known checked =
      let request = booking_request payload booking_channel service s.start_datetime customer in
      let row =
        booked_row r.1.next_id payload booking_channel service s.start_datetime s.end_datetime
          customer provider location in
      let valid' =
        subst (λ (x : Directory). Validated x payload service provider location organization)
          (sym d) valid in
      let checked' : check_interval context.zones r.1.directory r.1.appointments provider.id
            payload.location_id (some payload.service_id) none s.start_datetime
          ≡ ok s.end_datetime =
        rw (d, a) checked in
      let made =
        new_appointment-valid context.zones payload booking_channel service provider location
          organization r.1 valid' s.start_datetime s.end_datetime customer known checked' in
      let created : (create_appointment context.zones request r.1).1.appointments
          ≡ row ∷ r.1.appointments =
        rw made refl in
      let (_, kept, _) =
        checkout_booking-Same context service now customer
          (create_appointment context.zones request r.1) in
      let provider_is : provider.id ≡ payload.provider_id =
        (==_iff provider.id payload.provider_id).0
          (In-of_first (λ x. x.id == payload.provider_id) db.directory.providers
            valid.provider_found).1 in
      (
        row,
        ap (λ (x : Result Booking × Database). x.1.appointments)
              (book-resolved context payload booking_channel service s.start_datetime now customer r
                resolved)
            ∙ kept
            ∙ created
            ∙ ap (λ (rows : List Appointment). row ∷ rows) a,
        refl,
        refl,
        provider_is,
        refl,
      )

listed_before_filter :
    (zones : Zones) (d : Directory) (appointments : List Appointment) (p service_id l day : ℕ)
    (now : ℤ) (slots : List Slot) (s : Slot)
    → list_visible_slots zones d appointments p service_id l day now ≡ ok slots
    → In s slots
    → (all_slots : List Slot) × (get_available_slots zones d appointments p l day day
          (some service_id)
        ≡ ok all_slots)
      × In s all_slots
      × (ltb_ℤ now s.start_datetime ≡ true)
unfolding list_visible_slots
listed_before_filter zones d appointments p service_id l day now slots s e i =
    let (all_slots, listed, h) =
      >>=-eq-ok (get_available_slots zones d appointments p l day day (some service_id)) _ e in
    let (j, later) =
      In-of_In-keep (λ t. ltb_ℤ now t.start_datetime) s all_slots
        (subst (λ (x : List Slot). In s x) (sym (eq_of_ok h)) i) in
    (all_slots, listed, j, later)

-- In a consistent database, if the entities of a request are valid, its customer can be resolved,
-- its start is that of a slot which `list_visible_slots` lists for its provider, service and
-- location on a day, that day is the local day of the start, and the slot with its buffers lies
-- between the midnights of that day, then, as long as other requests leave the bookings
-- (`Harmless`), `create_public_booking` adds one appointment to the table: from the slot's start to
-- its end, of the provider and of the customer, whatever the checkout answers.
pub create_public_booking-listed :
    (context : BookingContext) (payload : DiscoveryBookingCreate) (booking_channel : BookingChannel)
    (now : ℤ) (db : Database) (day : ℕ) (service : Service) (provider : Provider)
    (organization : Organization) (customer : Customer) (slots : List Slot) (s : Slot)
    → IsConsistent db
    → Harmless context.meanwhile
    → validate_booking_entities db.directory payload ≡ ok service
    → get_provider db.directory payload.provider_id ≡ some provider
    → get_organization db.directory provider.organization_id ≡ some organization
    → (resolve_or_create_customer context.meanwhile payload.organization_id payload.customer_name
        payload.customer_phone payload.customer_email payload.preferred_language db).0
      ≡ ok customer
    → list_visible_slots context.zones db.directory db.appointments payload.provider_id
        payload.service_id payload.location_id day now
      ≡ ok slots
    → In s slots
    → payload.scheduled_start ≡ aware s.start_datetime
    → context.zones.local_date organization.timezone s.start_datetime ≡ day
    → context.zones.to_utc organization.timezone day 0
      ≤ℤ s.start_datetime -ℤ minutes (buffers_of db.directory (some payload.service_id)).0
    → s.end_datetime +ℤ minutes (buffers_of db.directory (some payload.service_id)).1
      ≤ℤ context.zones.to_utc organization.timezone (day + 1) 0
    → IsBookedAt payload customer s db
        (create_public_booking context payload booking_channel now db).1
unfolding create_public_booking check_booking ensure_aware_utc book_checked
create_public_booking-listed context payload booking_channel now db day service provider
      organization customer slots s consistent harmless validated of_provider of_organization
      resolved listed i starts local after_midnight before_midnight =
    let d = db.directory in
    let (p', location, o', valid) = validate-Validated d payload service validated in
    let (all_slots, available, j, later) =
      listed_before_filter context.zones d db.appointments payload.provider_id payload.service_id
        payload.location_id day now slots s listed i in
    let checked =
      listed-check_interval context.zones d db.appointments payload.provider_id payload.location_id
        day (some payload.service_id) all_slots provider organization available of_provider
        of_organization s j local after_midnight before_midnight
        (IsConsistent-AllAssigned db payload.provider_id consistent) in
    let provider_is : p'.id ≡ payload.provider_id =
      (==_iff p'.id payload.provider_id).0
        (In-of_first (λ x. x.id == payload.provider_id) d.providers valid.provider_found).1 in
    let (same, _, known) =
      resolve_or_create_customer-Resolved context.meanwhile payload.organization_id
        payload.customer_name payload.customer_phone payload.customer_email
        payload.preferred_language db harmless in
    let r =
      resolve_or_create_customer context.meanwhile payload.organization_id payload.customer_name
        payload.customer_phone payload.customer_email payload.preferred_language db in
    rw (validated, starts, later)
      (book-IsBookedAt context payload booking_channel service p' location o' now s customer db r
        valid same resolved
        (has_customer-In customer r.1.customers
          (subst (λ (x : Result Customer). IsKnown x r.1) resolved known))
        (rw provider_is checked))
