-- ===== src/Scheduling.antt =====
-- backend/app/services/scheduling_service.py
pub mod Timing
pub mod Blocking
pub mod Slots
pub mod Tests
