-- ===== src/Repositories.antt =====
-- The queries of backend/app/repositories that the scheduler and the appointment service make.
use book_point.Base.{
  ℕ, Bool, true, not, ◌&&◌, Option, none, some, List, leb, ◌==◌, any, keep, first,
}
use book_point.Base.Int.{ℤ, ltb_ℤ}
use book_point.Time.{as_utc}
use book_point.Models.{
  Organization, Location, Provider, Service, ProviderService, ProviderAvailability,
  ProviderDateOverride, ProviderTimeOff, Appointment, Customer, Directory, is_blocking,
}

-- A primary-key lookup, `db.get(Model, id)`.
abbrev pub get_organization : Directory → ℕ → Option Organization
get_organization d k = first (λ o. o.id == k) d.organizations

abbrev pub get_location : Directory → ℕ → Option Location
get_location d k = first (λ l. l.id == k) d.locations

abbrev pub get_provider : Directory → ℕ → Option Provider
get_provider d k = first (λ p. p.id == k) d.providers

abbrev pub get_service : Directory → ℕ → Option Service
get_service d k = first (λ s. s.id == k) d.services

abbrev pub get_customer : List Customer → ℕ → Option Customer
get_customer customers k = first (λ c. c.id == k) customers

-- `customer_repo.get(...) is not None`
abbrev pub has_customer : List Customer → ℕ → Bool
has_customer customers k = any (λ c. c.id == k) customers

-- `get_by_provider_and_location(...) is not None`, and the same of services and locations.
abbrev pub provider_at_location : Directory → ℕ → ℕ → Bool
provider_at_location d p l = any (λ r. (r.0 == p) && (r.1 == l)) d.provider_locations

abbrev pub service_at_location : Directory → ℕ → ℕ → Bool
service_at_location d s l = any (λ r. (r.0 == s) && (r.1 == l)) d.service_locations

abbrev pub get_provider_service : Directory → ℕ → ℕ → Option ProviderService
get_provider_service d p s =
    first (λ r. (r.provider_id == p) && (r.service_id == s)) d.provider_services

-- `list_services(provider_id=..., include_inactive=True)`: the join with the assignments.
abbrev pub is_assigned : Directory → ℕ → ℕ → Bool
is_assigned d p s = any (λ r. (r.provider_id == p) && (r.service_id == s)) d.provider_services

abbrev pub list_services : Directory → ℕ → List Service
list_services d p = keep (λ s. is_assigned d p s.id) d.services

abbrev pub list_availabilities : Directory → ℕ → List ProviderAvailability
list_availabilities d p = keep (λ a. a.provider_id == p) d.availabilities

abbrev pub list_overrides : Directory → ℕ → ℕ → ℕ → List ProviderDateOverride
list_overrides d p start_date end_date =
    keep
      (λ o.
        (o.provider_id == p) && (leb start_date o.override_date && leb o.override_date end_date))
      d.overrides

abbrev pub list_time_offs : Directory → ℕ → ℤ → ℤ → List ProviderTimeOff
list_time_offs d p start_datetime end_datetime =
    keep
      (λ t.
        (t.provider_id == p)
        && (ltb_ℤ start_datetime (as_utc t.end_datetime)
            && ltb_ℤ (as_utc t.start_datetime) end_datetime))
      d.time_offs

-- `Appointment.id != exclude_appointment_id`, if one is given.
abbrev pub differs : Option ℕ → ℕ → Bool
differs none k = true
differs (some e) k = not (k == e)

-- The blocking appointments of a provider, apart from an excluded one.
abbrev pub blocks : ℕ → Option ℕ → Appointment → Bool
blocks p exclude a = (a.provider_id == p) && (is_blocking a.status && differs exclude a.id)

unfoldable pub list_blocking_for_provider :
    List Appointment → ℕ → ℤ → ℤ → Option ℕ → List Appointment
list_blocking_for_provider appointments p start_datetime end_datetime exclude =
    keep
      (λ a.
        blocks p exclude a
        && (ltb_ℤ start_datetime (as_utc a.end_datetime)
            && ltb_ℤ (as_utc a.start_datetime) end_datetime))
      appointments

abbrev pub get_appointment : List Appointment → ℕ → Option Appointment
get_appointment appointments k = first (λ a. a.id == k) appointments
