-- ===== src/Payments.antt =====
-- Money: backend/app/utils/{commission,payment}.py and backend/app/services/payments.
pub mod Transaction
pub mod Rounding
pub mod Commission
pub mod Rows
pub mod Earnings
pub mod RefundPolicy
pub mod Refunds
pub mod Payouts
pub mod Policy
pub mod Checkout
pub mod Status
pub mod Expiry
pub mod Paid
pub mod Tests
pub mod Summary
