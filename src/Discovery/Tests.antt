-- ===== src/Discovery/Tests.antt =====
-- Public bookings on the sample of the tests.
use book_point.Appointments.Apart.{IsConsistent}
use book_point.Base.{◌≡◌, refl, true, none, inl, List, [], ◌∷◌, In, arith}
use book_point.Base.Int.{pos, ◌+ℤ◌, ◌-ℤ◌}
use book_point.Base.Text.{codes, strip}
use book_point.Customers.Resolve.{resolve_or_create_customer}
use book_point.Customers.Unique.{Harmless}
use book_point.Discovery.Apart.{create_public_booking-IsConsistent}
use book_point.Discovery.Bookable.{IsBookedAt, create_public_booking-listed}
use book_point.Discovery.Booking.{
  BookingContext, DiscoveryBookingCreate, create_public_booking, validate_booking_entities,
}
use book_point.Discovery.Offered.{list_visible_services-have_providers}
use book_point.Discovery.Visible.{
  list_visible_providers_for_service_at_location, list_visible_services_for_location,
  list_visible_slots,
}
use book_point.Models.{BookingChannel, Provider}
use book_point.Payments.Checkout.{mock_checkout_provider}
use book_point.Results.{ok}
use book_point.Samples.{
  ten_five, later_slots, at_minute, customer, database, directory, organization, provider, service,
  zones,
}
use book_point.Scheduling.Blocking.{
  appointment_blocked_interval, build_service_buffer_lookup, list_relevant_blocking_appointments,
}
use book_point.Scheduling.Slots.{get_available_slots}
use book_point.Scheduling.Slots.Window.{window_fuel}
use book_point.Time.{aware, as_utc}

abbrev context : BookingContext
context = record {
  zones = zones;
  checkout = mock_checkout_provider (codes "a") (codes "b");
  meanwhile = λ db. db;
  expiration_minutes = 30;
}

abbrev wish : DiscoveryBookingCreate
wish = record {
  organization_id = 1;
  location_id = 2;
  provider_id = 3;
  service_id = 4;
  scheduled_start = aware (at_minute 605);
  customer_name = codes "Ann";
  customer_phone = codes "+1 555 0100";
  customer_email = none;
  preferred_language = none;
}

three_slots :
    list_visible_slots zones directory database.appointments 3 4 2 1 (pos 0) ≡ ok later_slots
unfolding list_visible_slots get_available_slots window_fuel as_utc ◌+ℤ◌ ◌-ℤ◌
    list_relevant_blocking_appointments appointment_blocked_interval build_service_buffer_lookup
three_slots = refl

database-IsConsistent : IsConsistent database
database-IsConsistent = (omega arith, refl, tt, tt)

nothing-Harmless : Harmless (λ db. db)
nothing-Harmless db = ((refl, refl, omega arith), λ u. u)

create_public_booking-IsConsistent_example :
    IsConsistent (create_public_booking context wish BookingChannel.web (pos 0) database).1
create_public_booking-IsConsistent_example =
    create_public_booking-IsConsistent context wish BookingChannel.web (pos 0) database
      nothing-Harmless database-IsConsistent

create_public_booking-listed_example :
    IsBookedAt wish customer ten_five database
      (create_public_booking context wish BookingChannel.web (pos 0) database).1
unfolding validate_booking_entities resolve_or_create_customer strip ◌+ℤ◌ ◌-ℤ◌
create_public_booking-listed_example =
    create_public_booking-listed context wish BookingChannel.web (pos 0) database 1 service provider
      organization customer later_slots ten_five database-IsConsistent nothing-Harmless refl refl
      refl refl three_slots (inl refl) refl refl (omega arith) (omega arith)

list_visible_services-have_providers_example :
    (providers : List Provider) × (p : Provider) × (list_visible_providers_for_service_at_location
        directory 2 4
      ≡ ok providers)
    × In p providers
    × (p.is_active ≡ true)
unfolding list_visible_services_for_location
list_visible_services-have_providers_example =
    list_visible_services-have_providers directory 2 (service ∷ []) service refl (inl refl) refl
