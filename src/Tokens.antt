-- ===== src/Tokens.antt =====
-- Token wallets, their ledger and promotions (backend/apps/api/src/services/tokens.service.ts).
pub mod Tables
pub mod Wallet
pub mod Ledger
pub mod Money
pub mod Spend
pub mod Promotion
pub mod Histories
pub mod Promoted
pub mod Bank
pub mod Others
pub mod Refined
