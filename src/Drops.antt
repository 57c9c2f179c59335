-- ===== src/Drops.antt =====
-- Frendly Drops: reward tickets and their draw
-- (backend/apps/api/src/services/drops-reward.service.ts and drops-draw.service.ts).
pub mod Tables
pub mod Grant
pub mod Confirm
pub mod Limits
pub mod Claims
pub mod Runs
pub mod Histories
pub mod Idempotency
pub mod Draw
pub mod Order
pub mod Outcome
pub mod Ends
