-- ===== src/Tests/Wallets.antt =====
-- Token wallets and subscriptions at concrete inputs.
use frendly.Common.{ℕ, IsIn, false, ◌*◌, none, some, List, [], ◌∷◌, ◌≡◌, refl, arith, ◌⊎◌}
use frendly.Common.Int.{pos, ltb_ℤ, ◌+ℤ◌}
use frendly.Common.Action.{ApiError, ok, err, Transaction, settling}
use frendly.Common.Sort.{sort_by}
use frendly.Calendar.{day_ms}
use frendly.Catalog.{TokenPromotionOption, find_token_promotion_option, SubscriptionProduct}
use frendly.Tokens.Tables.{TokenLedgerReason, Tokens}
use frendly.Tokens.Wallet.{
  PackInput, credit_tokens, spend_tokens, ensure_wallet, create_entry, increment_balance,
  clear_wallet_cache, create_wallet,
}
use frendly.Tokens.Promotion.{take_back, TargetKind, assert_promotion_access, create_promotion}
use frendly.Tokens.Promoted.{Promoted, BoostFits, create_promotion-Promoted}
use frendly.Tokens.Ledger.{IsSound, balance_of}
use frendly.Tokens.Money.{Credited, credit_tokens-Credited, credit_tokens_again}
use frendly.Tokens.Spend.{Refused, Spent, spend_tokens-Spent}
use frendly.Tokens.Histories.{WalletCall, perform_all, perform_all-IsSound}
use frendly.Subscription.{
  Billing, UserSubscription, SubscriptionStatus, latest_subscription, find_catalog_product,
  load_catalog_products,
}
use frendly.Subscription.Service.{
  subscribe_with_tokens, take_back as take_back_billing, activate_paid_subscription,
}
use frendly.Subscription.Bought.{Declined, Bought, subscribe_with_tokens-Bought}
use frendly.Subscription.Status.{
  IsPaidUntil, Extends, RewardFits, activate_paid_subscription-IsPaidUntil,
}
use frendly.Drops.Grant.{
  grant_reward, grant_reward_in_transaction, create_reward, normalize_ticket_count,
  assert_monthly_limit, write_reward, codes_clash, new_tickets,
}
use frendly.Drops.Claims.{grant_subscription_reward, grant_boost_reward}
use frendly.Tests.Rewards.{no_drops}

abbrev pub no_tokens : Tokens
no_tokens = record {
  wallets = [];
  entries = [];
  promotions = [];
  events = record { id = 2; host_id = 7; canceled_at = none } ∷ [];
  chat_members = [];
  cache = [];
  next_id = 1;
  drops = no_drops;
}

pub no_tokens-IsSound : IsSound no_tokens
no_tokens-IsSound = record {
  backed = tt;
  older = tt;
  once = λ order. omega arith;
  unique = λ id. omega arith;
}

abbrev tokens_tx : Transaction Tokens take_back
tokens_tx = settling Tokens take_back

abbrev calls : List WalletCall
calls =
    WalletCall.credit 7 (PackInput.of_id "p2") 40 1000
    ∷ WalletCall.promotion 7 "event" (some 2) "boost-6" 2000
    ∷ WalletCall.spend 7 900 TokenLedgerReason.dating_spend 3000
    ∷ WalletCall.credit 8 (PackInput.of_pack "p1" 100 5) 40 4000
    ∷ []

perform_all-IsSound_example : IsSound (perform_all tokens_tx calls no_tokens)
perform_all-IsSound_example = perform_all-IsSound tokens_tx calls no_tokens no_tokens-IsSound

credit_tokens-Credited_example :
    let r = credit_tokens 7 350 40 1000 no_tokens in (r.0 ≡ ok tt) × Credited 7 350 40 no_tokens r.1
credit_tokens-Credited_example =
    credit_tokens-Credited 7 350 40 1000 no_tokens no_tokens-IsSound refl

abbrev paid : Tokens
paid = (credit_tokens 7 350 40 1000 no_tokens).1

spend_tokens-Spent_example :
    Refused 7 100 paid (spend_tokens 7 100 TokenLedgerReason.promotion_spend 2000 paid)
    ⊎ Spent 7 100 paid (spend_tokens 7 100 TokenLedgerReason.promotion_spend 2000 paid)
spend_tokens-Spent_example =
    spend_tokens-Spent 7 100 TokenLedgerReason.promotion_spend 2000 paid
      (credit_tokens-Credited 7 350 40 1000 no_tokens no_tokens-IsSound refl).1.sound

credit_tokens_again_example :
    let r = credit_tokens 8 350 40 1500 paid in
    (r.0 ≡ err ApiError.unique_violation)
    × (r.1.entries ≡ paid.entries)
    × (balance_of 8 r.1 ≡ balance_of 8 paid)
credit_tokens_again_example =
    credit_tokens_again 8 350 40 1500 paid
      (credit_tokens-Credited 7 350 40 1000 no_tokens no_tokens-IsSound refl).1.sound
      (credit_tokens-Credited 7 350 40 1000 no_tokens no_tokens-IsSound refl).1.recorded

abbrev trial_of_seven : UserSubscription
trial_of_seven = record {
  id = 1;
  user_id = 7;
  plan = "year";
  status = SubscriptionStatus.trial;
  started_at = some 100;
  renews_at = some 9000;
  trial_ends_at = some 500;
  created_at = 100;
}

abbrev pub billing : Billing
billing = record {
  plans = [];
  subscriptions = trial_of_seven ∷ [];
  current_cache = [];
  next_id = 2;
  tokens = no_tokens;
}

abbrev month : SubscriptionProduct
month = record {
  id = "month";
  label = "Месячный";
  description = "Frendly+ на месяц";
  amount_kopecks = 79900;
  price_rub = 799;
  price_monthly_rub = 799;
  token_cost = 799;
  token_monthly_cost = 799;
  trial_days = 0;
  duration_days = 30;
  badge = none;
  benefits = [];
}

has_month : find_catalog_product "month" billing ≡ (ok month, billing)
unfolding find_catalog_product load_catalog_products sort_by
has_month = refl

reward-fits : (source : ℕ) → some 40 ≡ some source → RewardFits 7 source 1000 no_drops
unfolding grant_subscription_reward grant_reward grant_reward_in_transaction create_reward
    normalize_ticket_count assert_monthly_limit write_reward codes_clash new_tickets
reward-fits source e = refl

activate_paid_subscription-IsPaidUntil_example :
    let r = activate_paid_subscription 7 "month" (some 40) 1000 billing in
    (u : UserSubscription) × (until : ℕ) × (r.0 ≡ ok u)
    × IsIn u r.1.subscriptions
    × IsPaidUntil 7 "month" until 1000 u
    × Extends (latest_subscription 7 billing) 1000 (30 * day_ms) until
activate_paid_subscription-IsPaidUntil_example =
    activate_paid_subscription-IsPaidUntil 7 "month" (some 40) 1000 billing month has_month
      (ground arith) reward-fits

abbrev billing_tx : Transaction Billing take_back_billing
billing_tx = settling Billing take_back_billing

abbrev rich : Billing
rich = record billing { tokens = (credit_tokens 7 900 41 500 no_tokens).1 }

rich-month : find_catalog_product "month" rich ≡ (ok month, rich)
unfolding find_catalog_product load_catalog_products sort_by
rich-month = refl

rich-fits : (source : ℕ) → RewardFits 7 source 1000 rich.tokens.drops
unfolding grant_subscription_reward grant_reward grant_reward_in_transaction create_reward
    normalize_ticket_count assert_monthly_limit write_reward codes_clash new_tickets credit_tokens
    ensure_wallet create_entry increment_balance clear_wallet_cache
rich-fits source = refl

subscribe_with_tokens-Bought_example :
    Declined 7 month rich (subscribe_with_tokens billing_tx 7 "month" 1000 rich)
    ⊎ Bought 7 month 1000 rich (subscribe_with_tokens billing_tx 7 "month" 1000 rich)
subscribe_with_tokens-Bought_example =
    subscribe_with_tokens-Bought billing_tx 7 "month" 1000 rich month
      (credit_tokens-Credited 7 900 41 500 no_tokens no_tokens-IsSound refl).1.sound rich-month
      (ground arith) rich-fits

abbrev impulse : TokenPromotionOption
impulse = record {
  id = "boost-6";
  title = "Импульс";
  subtitle = "Топ радара · 1 час";
  cost = 100;
  duration_hours = 1;
}

has_impulse : find_token_promotion_option "boost-6" ≡ ok impulse
unfolding find_token_promotion_option
has_impulse = refl

hosts_event : assert_promotion_access 7 TargetKind.event 2 paid ≡ (ok tt, paid)
unfolding assert_promotion_access credit_tokens ensure_wallet create_entry increment_balance
    clear_wallet_cache create_wallet
hosts_event = refl

has_enough : ltb_ℤ (balance_of 7 paid) (pos 100) ≡ false
unfolding credit_tokens ensure_wallet create_entry increment_balance clear_wallet_cache
    create_wallet ◌+ℤ◌
has_enough = refl

boost-fits : BoostFits 7 TargetKind.event 2 2000 paid.drops
unfolding grant_boost_reward grant_reward grant_reward_in_transaction create_reward
    normalize_ticket_count assert_monthly_limit write_reward codes_clash new_tickets credit_tokens
    ensure_wallet create_entry increment_balance clear_wallet_cache
boost-fits e source = refl

create_promotion-Promoted_example :
    Promoted 7 TargetKind.event 2 impulse 2000 paid
      (create_promotion tokens_tx 7 "event" (some 2) "boost-6" 2000 paid)
create_promotion-Promoted_example =
    create_promotion-Promoted tokens_tx 7 "event" TargetKind.event 2 "boost-6" impulse 2000 paid
      (credit_tokens-Credited 7 350 40 1000 no_tokens no_tokens-IsSound refl).1.sound has_impulse
      refl hosts_event has_enough boost-fits
