-- ===== src/Discovery/Visible.antt =====
-- The queries of backend/app/services/discovery_service.py: active organisations, and their
-- locations, services, providers and slots.
use book_point.Base.{
  ℕ, Bool, not, ◌&&◌, Option, some, List, [], ◌==◌, any, first, keep, if◌then◌else◌,
}
use book_point.Base.Int.{ℤ, ltb_ℤ}
use book_point.Base.Lists.{sort_by}
use book_point.Models.{Appointment, Directory, Location, Organization, Provider, Service}
use book_point.Repositories.{
  get_location, get_provider, get_service, is_assigned, provider_at_location, service_at_location,
}
use book_point.Results.{
  Result, ok, ◌>>=◌, ◌>>◌, or_raise, require, location_not_visible, organization_not_visible,
  provider_not_visible, service_not_visible,
}
use book_point.Scheduling.Slots.{get_available_slots}
use book_point.Scheduling.Slots.Window.{Slot}
use book_point.Time.{Zones}

unfoldable pub list_visible_organizations : Directory → List Organization
unfolding sort_by
list_visible_organizations d =
    sort_by (λ o. o.id)
      (keep (λ o. o.is_active && any (λ l. (l.organization_id == o.id) && l.is_active) d.locations)
        d.organizations)

unfoldable pub get_visible_organization : Directory → ℕ → Option Organization
get_visible_organization d organization_id =
    first (λ o. (o.id == organization_id) && o.is_active) d.organizations

-- `location_repo.list_by_organization(..., include_inactive=False)`
unfoldable pub list_active_locations : Directory → ℕ → List Location
unfolding sort_by
list_active_locations d organization_id =
    sort_by (λ l. l.id)
      (keep (λ l. (l.organization_id == organization_id) && l.is_active) d.locations)

unfoldable pub list_visible_locations : Directory → ℕ → Result (List Location)
unfolding get_visible_organization list_active_locations
list_visible_locations d organization_id = do
  organization ← or_raise (get_visible_organization d organization_id) organization_not_visible
  ok (list_active_locations d organization_id)

unfoldable pub get_visible_location : Directory → ℕ → Result Location
unfolding get_visible_organization
get_visible_location d location_id = do
  location ← or_raise (get_location d location_id) location_not_visible
  require location.is_active location_not_visible
  organization ← or_raise (get_visible_organization d location.organization_id) location_not_visible
  ok location

unfoldable pub get_visible_service : Directory → ℕ → Result Service
unfolding get_visible_organization
get_visible_service d service_id = do
  service ← or_raise (get_service d service_id) service_not_visible
  require service.is_active service_not_visible
  organization ← or_raise (get_visible_organization d service.organization_id) service_not_visible
  ok service

unfoldable pub get_visible_provider : Directory → ℕ → Result Provider
unfolding get_visible_organization
get_visible_provider d provider_id = do
  provider ← or_raise (get_provider d provider_id) provider_not_visible
  require provider.is_active provider_not_visible
  organization ← or_raise (get_visible_organization d provider.organization_id) provider_not_visible
  ok provider

-- The join of a service with a provider: an assignment, an active provider of the organisation, and
-- its place at the location.
unfoldable pub performs_at : Directory → Location → ℕ → Provider → Bool
performs_at d location service_id p =
    is_assigned d p.id service_id
    && (provider_at_location d p.id location.id
        && (p.is_active && (p.organization_id == location.organization_id)))

abbrev pub is_offered_at : Directory → Location → Service → Bool
unfolding performs_at
is_offered_at d location s =
    service_at_location d s.id location.id
    && (s.is_active
        && ((s.organization_id == location.organization_id)
            && any (performs_at d location s.id) d.providers))

unfoldable pub list_visible_services_for_location : Directory → ℕ → Result (List Service)
unfolding get_visible_location performs_at sort_by
list_visible_services_for_location d location_id = do
  location ← get_visible_location d location_id
  ok (sort_by (λ s. s.id) (keep (is_offered_at d location) d.services))

unfoldable pub list_visible_providers_for_service_at_location :
    Directory → ℕ → ℕ → Result (List Provider)
unfolding get_visible_location get_visible_service performs_at sort_by
list_visible_providers_for_service_at_location d location_id service_id = do
  location ← get_visible_location d location_id
  service ← get_visible_service d service_id
  let providers = sort_by (λ p. p.id) (keep (performs_at d location service.id) d.providers)
  ok (
      if not (service.organization_id == location.organization_id)
      then []
      else if not (service_at_location d service.id location.id)
      then []
      else providers)

unfoldable pub list_visible_slots :
    Zones → Directory → List Appointment → ℕ → ℕ → ℕ → ℕ → ℤ → Result (List Slot)
unfolding get_available_slots
list_visible_slots zones d appointments provider_id service_id location_id slot_date now = do
  slots ←
      get_available_slots zones d appointments provider_id location_id slot_date slot_date
        (some service_id)
  ok (keep (λ s. ltb_ℤ now s.start_datetime) slots)
