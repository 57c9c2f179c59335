-- ===== src/Tests.antt =====
-- The theorems at concrete inputs, by the part of the program.
pub mod Rewards
pub mod SignIns
pub mod Draws
pub mod Wallets
pub mod Banks
pub mod Orders
pub mod Catalogs
pub mod Evenings
pub mod Datings
