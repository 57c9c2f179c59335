-- ===== src/Evening.antt =====
-- Generated evening routes: the validator of
-- backend/apps/api/src/services/evening-route-ai-validator.service.ts.
pub mod Hours
pub mod Validator
pub mod Route
