-- ===== src/Customers.antt =====
-- backend/app/utils/phone.py, backend/app/repositories/customer_repository.py, and the customers of
-- backend/app/services/discovery_service.py.
pub mod Phone
pub mod Resolve
pub mod Unique
pub mod Contact
pub mod Tests
