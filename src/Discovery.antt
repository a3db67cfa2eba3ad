-- ===== src/Discovery.antt =====
-- What a customer may see and book: backend/app/services/discovery_service.py.
pub mod Visible
pub mod Booking
pub mod Apart
pub mod Bookable
pub mod Offered
pub mod Tests
