-- ===== src/Dating.antt =====
-- Dating: the quotas of backend/apps/api/src/services/dating.service.ts.
pub mod Tables
pub mod Quotas
pub mod Uses
pub mod Charges
pub mod Limits
pub mod Daily
