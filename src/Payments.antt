-- ===== src/Payments.antt =====
-- Payment orders, the bank's notifications and what a confirmed order gives
-- (backend/apps/api/src/services/payments.service.ts).
pub mod Tables
pub mod Snapshot
pub mod Orders
pub mod Bank
pub mod Products
pub mod Opening
