-- ===== src/Billing.antt =====
-- Billing: backend/internal/billing.
pub mod Amounts
pub mod Dates
pub mod Calendar
pub mod Rows
pub mod Policy
pub mod Plan
pub mod Selection
pub mod Settlement
pub mod Periods
pub mod Refunds
pub mod Adjustments
