-- ===== src/Discovery/Booking.antt =====
-- `create_public_booking` of backend/app/services/discovery_service.py.
use book_point.Appointments.Booking.{AppointmentCreate, create_appointment}
use book_point.Base.{ℕ, Option, none, some, ◌==◌, if◌then◌else◌}
use book_point.Base.Int.{ℤ, ltb_ℤ}
use book_point.Base.Text.{Text, codes}
use book_point.Customers.Resolve.{resolve_or_create_customer}
use book_point.Models.{
  Appointment, AppointmentStatus, BookingChannel, Customer, Database, Directory, Payment, Service,
}
use book_point.Payments.Checkout.{CheckoutProvider, create_checkout_session_for_appointment}
use book_point.Payments.Summary.{PaymentSummary, get_customer_payment_summary}
use book_point.Repositories.{
  get_location, get_organization, get_provider, get_provider_service, get_service,
  provider_at_location, service_at_location,
}
use book_point.Results.{
  Result, ok, err, ◌>>=◌, ◌>>◌, or_raise, require, location_not_visible,
  location_of_other_organization, organization_not_visible, provider_not_assigned_to_location,
  provider_not_assigned_to_service, provider_not_visible, provider_of_other_organization,
  service_not_available_at_location, service_not_visible, service_of_other_organization,
  start_not_in_future,
}
use book_point.Time.{Datetime, Zones, aware, ensure_aware_utc}

pub record DiscoveryBookingCreate : Type 0 where
  pub organization_id : ℕ
  pub location_id : ℕ
  pub provider_id : ℕ
  pub service_id : ℕ
  pub scheduled_start : Datetime
  pub customer_name : Text
  pub customer_phone : Text
  pub customer_email : Option Text
  pub preferred_language : Option Text

-- `_validate_booking_entities`
unfoldable pub validate_booking_entities : Directory → DiscoveryBookingCreate → Result Service
validate_booking_entities d payload = do
  organization ← or_raise (get_organization d payload.organization_id) organization_not_visible
  require organization.is_active organization_not_visible
  location ← or_raise (get_location d payload.location_id) location_not_visible
  require location.is_active location_not_visible
  provider ← or_raise (get_provider d payload.provider_id) provider_not_visible
  require provider.is_active provider_not_visible
  service ← or_raise (get_service d payload.service_id) service_not_visible
  require service.is_active service_not_visible
  require (location.organization_id == organization.id) location_of_other_organization
  require (provider.organization_id == organization.id) provider_of_other_organization
  require (service.organization_id == organization.id) service_of_other_organization
  require (provider_at_location d provider.id location.id) provider_not_assigned_to_location
  assigned ←
      or_raise (get_provider_service d provider.id service.id) provider_not_assigned_to_service
  require (service_at_location d service.id location.id) service_not_available_at_location
  ok service

-- The checks before the first write: the service, and the start in UTC.
unfoldable pub check_booking : Directory → DiscoveryBookingCreate → ℤ → Result (Service × ℤ)
unfolding validate_booking_entities ensure_aware_utc
check_booking d payload now = do
  service ← validate_booking_entities d payload
  start ← ensure_aware_utc payload.scheduled_start
  require (ltb_ℤ now start) start_not_in_future
  ok (service, start)

-- The appointment that a booking asks for.
abbrev pub booking_request :
    DiscoveryBookingCreate → BookingChannel → Service → ℤ → Customer → AppointmentCreate
booking_request payload booking_channel service start customer = record {
  organization_id = some payload.organization_id;
  location_id = payload.location_id;
  provider_id = payload.provider_id;
  service_id = some payload.service_id;
  customer_id = customer.id;
  start_datetime = aware start;
  status =
      if service.requires_payment
      then AppointmentStatus.pending_payment
      else AppointmentStatus.confirmed;
  booking_channel = booking_channel;
  notes = none;
}

-- What the booking gives: the appointment, the customer and the summary of the payment.
abbrev pub Booking : Type 0
Booking = Appointment × Customer × PaymentSummary

-- The services that a booking calls, and the setting of the payment's expiry.
pub record BookingContext : Type 0 where
  pub zones : Zones
  pub checkout : CheckoutProvider
  pub meanwhile : Database → Database
  pub expiration_minutes : ℕ

-- The end of a booking: the summary.
unfoldable pub summarize :
    BookingContext
    → Appointment
    → Customer
    → Result (Option Payment) × Database
    → Result Booking × Database
unfolding get_customer_payment_summary
summarize context appointment customer (err e, db) = (err e, db)
summarize context appointment customer (ok _, db) = (
  (do
    summary ← get_customer_payment_summary context.expiration_minutes db appointment
    ok (appointment, customer, summary)),
  db,
)

-- The checkout of a service that is paid; each step commits, so an exception keeps what was written.
unfoldable pub checkout_booking :
    BookingContext
    → Service
    → ℤ
    → Customer
    → Result Appointment × Database
    → Result Booking × Database
unfolding summarize create_checkout_session_for_appointment
checkout_booking context service now customer (err e, db) = (err e, db)
checkout_booking context service now customer (ok appointment, db) =
    summarize context appointment customer (
      if service.requires_payment
      then create_checkout_session_for_appointment context.checkout (codes "mock") appointment now
          db
      else (ok none, db))

unfoldable pub book :
    BookingContext
    → DiscoveryBookingCreate
    → BookingChannel
    → Service
    → ℤ
    → ℤ
    → Result Customer × Database
    → Result Booking × Database
unfolding checkout_booking create_appointment
book context payload booking_channel service start now (err e, db) = (err e, db)
book context payload booking_channel service start now (ok customer, db) =
    checkout_booking context service now customer (
      create_appointment context.zones
        (booking_request payload booking_channel service start customer) db)

unfoldable pub book_checked :
    BookingContext
    → DiscoveryBookingCreate
    → BookingChannel
    → ℤ
    → Result (Service × ℤ)
    → Database
    → Result Booking × Database
unfolding book resolve_or_create_customer
book_checked context payload booking_channel now (err e) db = (err e, db)
book_checked context payload booking_channel now (ok (service, start)) db =
    book context payload booking_channel service start now (
      resolve_or_create_customer context.meanwhile payload.organization_id payload.customer_name
        payload.customer_phone payload.customer_email payload.preferred_language db)

unfoldable pub create_public_booking :
    BookingContext
    → DiscoveryBookingCreate
    → BookingChannel
    → ℤ
    → Database
    → Result Booking × Database
unfolding check_booking book_checked
create_public_booking context payload booking_channel now db =
    book_checked context payload booking_channel now (check_booking db.directory payload now) db
