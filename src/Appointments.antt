-- ===== src/Appointments.antt =====
-- backend/app/services/appointment_service.py
pub mod Booking
pub mod Checks
pub mod Apart
pub mod Move
pub mod Cancel
pub mod Release
pub mod Refunded
pub mod Cancelled
pub mod Tests
pub mod Bookable
