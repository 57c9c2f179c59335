-- ===== src/Tokens/Wallet.antt =====
-- `TokensService`: `getWallet`, `creditPurchasedTokens`, `spendTokens` and what they call
-- (backend/apps/api/src/services/tokens.service.ts). Loads in flight (`pendingWalletLoads`) are
-- shared between concurrent calls; here a call ends before the next begins, so there is none.
use frendly.Common.{
  ℕ, suc, ◌+◌, ◌*◌, ltb, leb, ◌==◌, Bool, false, not, ◌&&◌, String, Option, none, some, List, [],
  ◌∷◌, ◌++◌, if◌then◌else◌, keep, find, change, count, take,
}
use frendly.Common.Int.{ℤ, pos, ◌+ℤ◌, ◌-ℤ◌, ltb_ℤ, pos_part, neg_part}
use frendly.Common.Action.{
  Action, ApiError, Result, ok, err, pure, gets, ◌>>=◌, ◌>>◌, raise_if, modify,
}
use frendly.Common.Sort.{sort_by}
use frendly.Catalog.{TokenPackProduct, find_token_pack_product, token_promotion_options}
use frendly.Tokens.Tables.{
  TokenLedgerReason, TokenWallet, TokenLedgerEntry, TokenPromotion, HistoryItem, PromotedItem,
  WalletView, Tokens,
}

-- `TOKEN_WALLET_CACHE_SECONDS`, in milliseconds
abbrev pub wallet_cache_ms : ℕ
wallet_cache_ms = 5 * 1000

-- `ledgerNotes`
abbrev pub ledger_note : TokenLedgerReason → String
ledger_note TokenLedgerReason.purchase = "Пополнение токенов"
ledger_note TokenLedgerReason.promotion_spend = "Продвижение"
ledger_note TokenLedgerReason.subscription_spend = "Frendly+"
ledger_note TokenLedgerReason.dating_spend = "Дейтинг"
ledger_note TokenLedgerReason.reward_grant = "Подарок сезона"
ledger_note TokenLedgerReason.admin_adjustment = "Корректировка"

-- `tokenWallet.create`, with a balance of 0
unfoldable pub create_wallet : ℕ → Action Tokens TokenWallet
create_wallet user s =
    let wallet : TokenWallet = record { id = s.next_id; user_id = user; balance = pos 0 } in
    (ok wallet, record s { wallets = s.wallets ++ (wallet ∷ []); next_id = suc s.next_id })

unfoldable pub ensure_wallet : ℕ → Action Tokens TokenWallet
unfolding create_wallet
ensure_wallet user s = elim (find (λ w. w.user_id == user) s.wallets) [
  | some wallet ↦ (ok wallet, s)
  | none ↦ create_wallet user s
]

-- `clearWalletCache`
unfoldable pub clear_wallet_cache : ℕ → Action Tokens (Unit {0})
clear_wallet_cache user =
    modify (λ s. record s { cache = keep (λ c. not (c.user_id == user)) s.cache })

abbrev pub is_order : ℕ → Option ℕ → Bool
is_order order none = false
is_order order (some o) = o == order

-- The column `paymentOrderId` is unique: an order has at most one entry.
abbrev pub order_taken : Option ℕ → List TokenLedgerEntry → Bool
order_taken none entries = false
order_taken (some order) entries = ltb 0 (count (λ e. is_order order e.payment_order_id) entries)

abbrev pub new_entry : ℕ → ℕ → Option ℕ → ℤ → TokenLedgerReason → ℕ → TokenLedgerEntry
new_entry id wallet order amount reason now = record {
  id = id;
  wallet_id = wallet;
  payment_order_id = order;
  amount = amount;
  reason = reason;
  created_at = now;
}

-- `tokenLedgerEntry.create`
unfoldable pub create_entry :
    ℕ → Option ℕ → ℤ → TokenLedgerReason → ℕ → Action Tokens TokenLedgerEntry
create_entry wallet order amount reason now s =
    let entry = new_entry s.next_id wallet order amount reason now in
    if order_taken order s.entries
    then (err ApiError.unique_violation, s)
    else (ok entry, record s { entries = s.entries ++ (entry ∷ []); next_id = suc s.next_id })

-- `tokenWallet.update` with `balance: { increment }`
abbrev pub credited : ℤ → TokenWallet → TokenWallet
credited amount w = record w { balance = w.balance +ℤ amount }

unfoldable pub increment_balance : ℕ → ℤ → Action Tokens (Unit {0})
increment_balance wallet amount =
    modify (λ s. record s { wallets = change (λ w. w.id == wallet) (credited amount) s.wallets })

-- `packInput`: the id of a pack of the price list, or a pack as it was sold.
pub data PackInput : Type 0 where
  of_id : String → PackInput
  of_pack : String → ℕ → ℕ → PackInput

abbrev pub tokens_of : Result TokenPackProduct → Result ℕ
tokens_of (ok p) = ok p.tokens
tokens_of (err e) = err e

unfoldable pub pack_tokens : PackInput → Result ℕ
pack_tokens (PackInput.of_id id) = tokens_of (find_token_pack_product id)
pack_tokens (PackInput.of_pack id tokens bonus) = ok (tokens + bonus)

abbrev pub lift_result : {S A : Type 0} → Result A → Action S A
lift_result r s = (r, s)

-- The writes of `creditPurchasedTokens`, once the pack is resolved.
unfoldable pub credit_tokens : ℕ → ℕ → ℕ → ℕ → Action Tokens (Unit {0})
credit_tokens user tokens order now = do
  wallet ← ensure_wallet user
  create_entry wallet.id (some order) (pos tokens) TokenLedgerReason.purchase now
  increment_balance wallet.id (pos tokens)
  clear_wallet_cache user

unfoldable pub credit_purchased_tokens : ℕ → PackInput → ℕ → ℕ → Action Tokens (Unit {0})
credit_purchased_tokens user pack order now = do
  tokens ← lift_result (pack_tokens pack)
  credit_tokens user tokens order now

-- `tokenWallet.updateMany` with `balance: { gte: amount }`: the debit, and how many rows it changed.
abbrev pub can_debit : ℕ → ℕ → TokenWallet → Bool
can_debit wallet amount w = w.id == wallet && not (ltb_ℤ w.balance (pos amount))

abbrev pub debited : ℕ → TokenWallet → TokenWallet
debited amount w = record w { balance = w.balance -ℤ pos amount }

unfoldable pub debit_wallet : ℕ → ℕ → Action Tokens ℕ
debit_wallet wallet amount s = (
  ok (count (can_debit wallet amount) s.wallets),
  record s { wallets = change (can_debit wallet amount) (debited amount) s.wallets },
)

-- `spendTokens`
unfoldable pub spend_tokens : ℕ → ℕ → TokenLedgerReason → ℕ → Action Tokens TokenLedgerEntry
spend_tokens user amount reason now = do
  wallet ← ensure_wallet user
  raise_if (ltb_ℤ wallet.balance (pos amount)) ApiError.tokens_insufficient
  changed ← debit_wallet wallet.id amount
  raise_if (not (changed == 1)) ApiError.tokens_insufficient
  entry ← create_entry wallet.id none (pos 0 -ℤ pos amount) reason now
  clear_wallet_cache user
  pure entry

abbrev pub absolute : ℤ → ℕ
absolute a = pos_part a + neg_part a

abbrev pub to_history : TokenLedgerEntry → HistoryItem
to_history e = record {
  id = e.id;
  is_topup = not (ltb_ℤ e.amount (pos 0));
  amount = absolute e.amount;
  note = ledger_note e.reason;
  timestamp = e.created_at;
}

abbrev pub target_of : TokenPromotion → Option ℕ
target_of p = elim p.event_id [ some id ↦ some id | none ↦ p.chat_id ]

-- The promotions with a target.
abbrev pub to_promoted : List TokenPromotion → List PromotedItem
to_promoted [] = []
to_promoted (p ∷ ps) = elim (target_of p) [
  | none ↦ to_promoted ps
  | some id ↦
      record { target_id = id; option_id = p.option_id; expires_at = p.expires_at } ∷ to_promoted ps
]

abbrev pub to_items : List TokenLedgerEntry → List HistoryItem
to_items [] = []
to_items (e ∷ es) = to_history e ∷ to_items es

unfoldable pub wallet_view : TokenWallet → ℕ → Tokens → WalletView
wallet_view wallet now s = record {
  balance = wallet.balance;
  history = to_items (
      take 50 (
        sort_by (λ a b. leb b.created_at a.created_at)
          (keep (λ e. e.wallet_id == wallet.id) s.entries)));
  promoted = to_promoted (
      sort_by (λ a b. leb b.expires_at a.expires_at)
        (keep (λ p. p.user_id == wallet.user_id && ltb now p.expires_at) s.promotions));
  promo_options = token_promotion_options;
}

unfoldable pub load_fresh_wallet : ℕ → ℕ → Action Tokens WalletView
load_fresh_wallet user now = do wallet ← ensure_wallet user; gets (wallet_view wallet now)

abbrev pub cache_wallet : ℕ → ℕ → WalletView → Action Tokens (Unit {0})
cache_wallet user now view = modify (λ s. record s {
  cache =
      record { user_id = user; expires_at = now + wallet_cache_ms; view = view }
      ∷ keep (λ c. not (c.user_id == user)) s.cache;
})

unfoldable pub fill_cache : ℕ → ℕ → Action Tokens WalletView
fill_cache user now = do view ← load_fresh_wallet user now; cache_wallet user now view; pure view

-- `getWallet` outside a transaction: from the cache, or loaded and cached.
unfoldable pub get_wallet : ℕ → ℕ → Action Tokens WalletView
get_wallet user now s = elim (find (λ c. c.user_id == user && ltb now c.expires_at) s.cache) [
  | some c ↦ (ok c.view, s)
  | none ↦ fill_cache user now s
]
