-- ===== src/Tokens/Promotion.antt =====
-- `TokensService.createPromotion` (backend/apps/api/src/services/tokens.service.ts): a host pays for a
-- place in the lists. The clock is read once per call.
use frendly.Common.{
  is_none, ℕ, suc, ◌+◌, ◌*◌, ◌==◌, Bool, true, false, ◌&&◌, String, str_eq, Option, none, some, [],
  ◌∷◌, ◌++◌, if◌then◌else◌, find,
}
use frendly.Common.Action.{
  Action, ApiError, ok, pure, ◌>>=◌, ◌>>◌, raise_if, or_raise, attempt_within, on, Transaction,
}
use frendly.Calendar.{hour_ms}
use frendly.Catalog.{TokenPromotionOption, find_token_promotion_option}
use frendly.Drops.Tables.{Drops}
use frendly.Drops.Grant.{RewardResult, take_back as take_back_drops}
use frendly.Drops.Claims.{grant_boost_reward}
use frendly.Tokens.Tables.{
  TokenLedgerReason, TokenPromotion, EventRow, ChatMember, WalletView, Tokens,
}
use frendly.Tokens.Wallet.{lift_result, spend_tokens, load_fresh_wallet, clear_wallet_cache}

pub data TargetKind : Type 0 where
  event chat : TargetKind

abbrev pub target_kind_of : String → Option TargetKind
target_kind_of kind =
    if str_eq kind "event"
    then some TargetKind.event
    else (if str_eq kind "chat" then some TargetKind.chat else none)

abbrev pub is_live : Option ℕ → Bool
is_live none = true
is_live (some t) = false

-- The rows that `assertPromotionAccess` looks for.
abbrev pub is_hosted : ℕ → ℕ → EventRow → Bool
is_hosted user id e = e.id == id && e.host_id == user && is_live e.canceled_at

abbrev pub is_member : ℕ → ℕ → ChatMember → Bool
is_member user id m = m.chat_id == id && m.user_id == user

unfoldable pub assert_promotion_access : ℕ → TargetKind → ℕ → Action Tokens (Unit {0})
assert_promotion_access user TargetKind.event id s =
    raise_if (is_none (find (is_hosted user id) s.events)) ApiError.token_promotion_forbidden s
assert_promotion_access user TargetKind.chat id s =
    raise_if (is_none (find (is_member user id) s.chat_members)) ApiError.token_promotion_forbidden
      s

abbrev pub event_of : TargetKind → ℕ → Option ℕ
event_of TargetKind.event id = some id
event_of TargetKind.chat id = none

abbrev pub chat_of : TargetKind → ℕ → Option ℕ
chat_of TargetKind.event id = none
chat_of TargetKind.chat id = some id

-- `tokenPromotion.create`
unfoldable pub create_token_promotion :
    ℕ → TargetKind → ℕ → TokenPromotionOption → ℕ → ℕ → Action Tokens TokenPromotion
create_token_promotion user kind id option entry_id now s =
    let promotion : TokenPromotion = record {
      id = s.next_id;
      user_id = user;
      event_id = event_of kind id;
      chat_id = chat_of kind id;
      option_id = option.id;
      expires_at = now + option.duration_hours * hour_ms;
      ledger_entry_id = entry_id;
    } in
    (
      ok promotion,
      record s { promotions = s.promotions ++ (promotion ∷ []); next_id = suc s.next_id },
    )

-- A call of the reward service, which shares the database.
abbrev pub with_drops : Tokens → Drops → Tokens
with_drops s d = record s { drops = d }

abbrev pub on_drops : {A : Type 0} → Action Drops A → Action Tokens A
on_drops m = on (λ s. s.drops) with_drops m

-- `grantDropsBoostReward`: a reward that the service refuses does not block the promotion.
unfoldable pub grant_drops_boost_reward :
    ℕ → ℕ → TargetKind → ℕ → ℕ → Action Tokens (Option RewardResult)
grant_drops_boost_reward user promotion_id TargetKind.event id now =
    attempt_within (on_drops (grant_boost_reward none user promotion_id (some id) now))
grant_drops_boost_reward user promotion_id TargetKind.chat id now = pure none

-- The callback of the transaction.
unfoldable pub promote : ℕ → TargetKind → ℕ → TokenPromotionOption → ℕ → Action Tokens WalletView
promote user kind id option now = do
  assert_promotion_access user kind id
  entry ← spend_tokens user option.cost TokenLedgerReason.promotion_spend now
  promotion ← create_token_promotion user kind id option entry.id now
  grant_drops_boost_reward user promotion.id kind id now
  load_fresh_wallet user now

-- A rollback takes back the tables; the cache is not in the database.
abbrev pub take_back : Tokens → Tokens → Tokens
take_back before at_throw = record before {
  cache = at_throw.cache;
  drops = take_back_drops before.drops at_throw.drops;
}

-- `createPromotion`; a missing or empty `targetId` is `none`.
unfoldable pub create_promotion :
    Transaction Tokens take_back → ℕ → String → Option ℕ → String → ℕ → Action Tokens WalletView
create_promotion tx user target_kind target_id option_id now = do
  option ← lift_result (find_token_promotion_option option_id)
  kind ← or_raise (target_kind_of target_kind) ApiError.invalid_token_promotion_target
  id ← or_raise target_id ApiError.invalid_token_promotion_target
  wallet ← tx.run WalletView (promote user kind id option now)
  clear_wallet_cache user
  pure wallet
