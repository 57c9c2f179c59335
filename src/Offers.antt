-- ===== src/Offers.antt =====
-- Partner offer codes: backend/apps/api/src/services/partner-offer-code.service.ts.
pub mod Tables
pub mod Codes
pub mod Service
pub mod Issue
pub mod Histories
pub mod Once
pub mod Rate
