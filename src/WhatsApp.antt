-- ===== src/WhatsApp.antt =====
-- backend/app/services/whatsapp: the ids that the messages of a conversation offer, the
-- menu the choices of a booking, and the changes of one that is booked.
pub mod Calendar
pub mod Actions
pub mod ReadBack
pub mod State
pub mod Menu
pub mod Choices
pub mod Slots
pub mod Manage
pub mod Owned
pub mod Fitting
pub mod Choosing
pub mod Prompt
pub mod Turns
pub mod Tests
