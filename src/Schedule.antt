-- ===== src/Schedule.antt =====
-- The services that keep a provider's schedule: backend/app/services/provider_availability_service.py,
-- provider_date_override_service.py and provider_time_off_service.py.
pub mod Pairwise
pub mod Availability
pub mod Overrides
pub mod TimeOff
pub mod Weekly
pub mod Dated
pub mod History
pub mod Windows
pub mod Tests
