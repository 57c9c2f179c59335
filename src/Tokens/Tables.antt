-- ===== src/Tokens/Tables.antt =====
-- The tables of the token wallets, after backend/packages/database/prisma/schema.prisma (TokenWallet,
-- TokenLedgerEntry, TokenPromotion), and the state of `TokensService`.
use frendly.Common.{ℕ, String, Option, List, Bool}
use frendly.Common.Int.{ℤ}
use frendly.Catalog.{TokenPromotionOption}
use frendly.Drops.Tables.{Drops}

pub data TokenLedgerReason : Type 0 where
  purchase promotion_spend subscription_spend dating_spend reward_grant admin_adjustment :
      TokenLedgerReason

pub record TokenWallet : Type 0 where
  pub id : ℕ
  pub user_id : ℕ
  pub balance : ℤ

pub record TokenLedgerEntry : Type 0 where
  pub id : ℕ
  pub wallet_id : ℕ
  pub payment_order_id : Option ℕ
  pub amount : ℤ
  pub reason : TokenLedgerReason
  pub created_at : ℕ

pub record TokenPromotion : Type 0 where
  pub id : ℕ
  pub user_id : ℕ
  pub event_id : Option ℕ
  pub chat_id : Option ℕ
  pub option_id : String
  pub expires_at : ℕ
  pub ledger_entry_id : ℕ

-- The columns of an event and of a chat's member that the promotion's guard reads.
pub record EventRow : Type 0 where
  pub id : ℕ
  pub host_id : ℕ
  pub canceled_at : Option ℕ

pub record ChatMember : Type 0 where
  pub chat_id : ℕ
  pub user_id : ℕ

-- What `getWallet` returns.
pub record HistoryItem : Type 0 where
  pub id : ℕ
  pub is_topup : Bool
  pub amount : ℕ
  pub note : String
  pub timestamp : ℕ

pub record PromotedItem : Type 0 where
  pub target_id : ℕ
  pub option_id : String
  pub expires_at : ℕ

pub record WalletView : Type 0 where
  pub balance : ℤ
  pub history : List HistoryItem
  pub promoted : List PromotedItem
  pub promo_options : List TokenPromotionOption

-- A cached view: of a user, until a time.
pub record CachedWallet : Type 0 where
  pub user_id : ℕ
  pub expires_at : ℕ
  pub view : WalletView

-- `next_id` stands for the database's default `cuid()`; `cache` is the wallet's part of Redis.
pub record Tokens : Type 0 where
  pub wallets : List TokenWallet
  pub entries : List TokenLedgerEntry
  pub promotions : List TokenPromotion
  pub events : List EventRow
  pub chat_members : List ChatMember
  pub cache : List CachedWallet
  pub next_id : ℕ
  pub drops : Drops
