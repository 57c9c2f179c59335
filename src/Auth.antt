-- ===== src/Auth.antt =====
-- Sign-in by phone: backend/apps/api/src/services/phone-otp.service.ts (Codes) and the phone codes,
-- sessions and logout of backend/apps/api/src/services/auth.service.ts (Phone, Sessions).
pub mod Tables
pub mod Codes
pub mod Numbers
pub mod Phone
pub mod Sessions
pub mod Verify
pub mod Fresh
pub mod Kept
pub mod Histories
pub mod Replay
pub mod Accepted
pub mod Attempts
pub mod Derived
