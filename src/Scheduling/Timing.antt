-- ===== src/Scheduling/Timing.antt =====
-- `ServiceTiming` and `resolve_service_timing` of backend/app/services/scheduling_service.py.
pub mod Resolve
use book_point.Base.{ℕ, suc, ◌+◌, Bool, not, ◌&&◌, Option, none, some, ◌==◌}
use book_point.Models.{Location, Provider, Directory}
use book_point.Repositories.{
  get_location, get_provider, get_service, get_provider_service, provider_at_location,
  service_at_location,
}
use book_point.Results.{
  Result, ok, ◌>>=◌, ◌>>◌, require, raise_if, or_raise, provider_not_found, location_not_found,
  location_inactive, organization_mismatch, provider_not_at_location, service_not_found,
  provider_lacks_service, service_not_at_location,
}

pub record ServiceTiming : Type 0 where
  pub visible_duration_minutes : ℕ
  pub buffer_before_minutes : ℕ
  pub buffer_after_minutes : ℕ

unfoldable pub total_block_minutes : ServiceTiming → ℕ
total_block_minutes t =
    t.visible_duration_minutes + t.buffer_before_minutes + t.buffer_after_minutes

-- `provider_service.duration_minutes_override or service.duration_minutes`
abbrev pub or_duration : Option ℕ → ℕ → ℕ
or_duration (some (suc n)) d = suc n
or_duration _ d = d

-- The part of `resolve_service_timing` that follows the test of `service_id`.
unfoldable pub timing_of_service :
    Directory → Provider → Location → Bool → Option ℕ → Result ServiceTiming
timing_of_service d provider location require_active_service none = ok (record {
  visible_duration_minutes = provider.appointment_duration_minutes;
  buffer_before_minutes = 0;
  buffer_after_minutes = 0;
})
timing_of_service d provider location require_active_service (some service_id) = do
  service ← or_raise (get_service d service_id) service_not_found
  raise_if (require_active_service && not service.is_active) service_not_found
  require
      ((service.organization_id == provider.organization_id)
        && (service.organization_id == location.organization_id))
      organization_mismatch
  provider_service ← or_raise (get_provider_service d provider.id service.id) provider_lacks_service
  require (service_at_location d service.id location.id) service_not_at_location
  ok (record {
    visible_duration_minutes =
        or_duration provider_service.duration_minutes_override service.duration_minutes;
    buffer_before_minutes = service.buffer_before_minutes;
    buffer_after_minutes = service.buffer_after_minutes;
  })

unfoldable pub resolve_service_timing :
    Directory → ℕ → ℕ → Option ℕ → Bool → Bool → Result ServiceTiming
unfolding timing_of_service
resolve_service_timing d provider_id location_id service_id require_active_service
      require_active_location =
    do
      provider ← or_raise (get_provider d provider_id) provider_not_found
      location ← or_raise (get_location d location_id) location_not_found
      raise_if (require_active_location && not location.is_active) location_inactive
      require (location.organization_id == provider.organization_id) organization_mismatch
      require (provider_at_location d provider.id location.id) provider_not_at_location
      timing_of_service d provider location require_active_service service_id
