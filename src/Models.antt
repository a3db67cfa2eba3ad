-- ===== src/Models.antt =====
-- The tables of backend/app/models that the services read and write, as rows of one database.
pub mod Enums
pub mod Tables
pub use Enums.*
pub use Tables.*
