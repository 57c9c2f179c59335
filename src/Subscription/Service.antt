-- ===== src/Subscription/Service.antt =====
-- The calls of `SubscriptionService` on a user's subscription
-- (backend/apps/api/src/services/subscription.service.ts). The clock is read once per call, and a call
-- ends before the next begins, so no load is in flight (`pendingCurrentLoads`).
use frendly.Common.{
  ℕ, suc, ◌+◌, ◌*◌, ltb, ◌==◌, Bool, false, not, ◌&&◌, String, str_eq, Option, none, some, [], ◌∷◌,
  ◌++◌, if◌then◌else◌, keep, find, change,
}
use frendly.Common.Action.{
  Action, ok, pure, gets, ◌>>=◌, ◌>>◌, modify, attempt_within, on, Transaction,
}
use frendly.Calendar.{day_ms}
use frendly.Catalog.{SubscriptionProduct}
use frendly.Drops.Grant.{RewardResult}
use frendly.Drops.Claims.{grant_subscription_reward}
use frendly.Tokens.Tables.{TokenLedgerReason, Tokens}
use frendly.Tokens.Wallet.{spend_tokens}
use frendly.Tokens.Promotion.{on_drops, take_back as take_back_tokens}
use frendly.Subscription.{
  SubscriptionStatus, UserSubscription, CurrentSubscription, CachedCurrent, Billing,
  find_catalog_product, latest_subscription, resolve_status, map_current, is_premium_status,
}

-- `CURRENT_SUBSCRIPTION_CACHE_SECONDS`, in milliseconds
abbrev pub current_cache_ms : ℕ
current_cache_ms = 5 * 1000

unfoldable pub clear_current_cache : ℕ → Action Billing (Unit {0})
clear_current_cache user =
    modify (λ s. record s { current_cache = keep (λ c. not (c.user_id == user)) s.current_cache })

-- `getCurrent`, where its cache is enabled
unfoldable pub get_current : ℕ → ℕ → Action Billing CurrentSubscription
get_current user now s =
    let fresh = map_current (latest_subscription user s) now in
    let row : CachedCurrent = record {
      user_id = user;
      expires_at = now + current_cache_ms;
      value = fresh;
    } in
    elim (find (λ c. c.user_id == user && ltb now c.expires_at) s.current_cache) [
      | some c ↦ (ok c.value, s)
      | none ↦ (
        ok fresh,
        record s { current_cache = row ∷ keep (λ c. not (c.user_id == user)) s.current_cache },
      )
    ]

unfoldable pub has_premium_access : ℕ → ℕ → Action Billing Bool
has_premium_access user now = do
  current ← get_current user now
  pure (is_premium_status current.status)

-- `userSubscription.create`
unfoldable pub create_subscription :
    ℕ → String → SubscriptionStatus → Option ℕ → Option ℕ → ℕ → Action Billing UserSubscription
create_subscription user plan status renews_at trial_ends_at now s =
    let row : UserSubscription = record {
      id = s.next_id;
      user_id = user;
      plan = plan;
      status = status;
      started_at = some now;
      renews_at = renews_at;
      trial_ends_at = trial_ends_at;
      created_at = now;
    } in
    (ok row, record s { subscriptions = s.subscriptions ++ (row ∷ []); next_id = suc s.next_id })

-- `current && (currentStatus === 'trial' || currentStatus === 'active')`
abbrev pub runs_now : Option UserSubscription → ℕ → Bool
runs_now none now = false
runs_now (some u) now = is_premium_status (resolve_status (some u) now)

abbrev pub has_plan : Option UserSubscription → String → Bool
has_plan none plan = false
has_plan (some u) plan = str_eq u.plan plan

-- The row that `subscribe` creates: the plan of a year starts with a trial of a week.
abbrev pub create_subscribed : ℕ → SubscriptionProduct → ℕ → Action Billing UserSubscription
create_subscribed user product now =
    let is_trial = str_eq product.id "year" in
    create_subscription user product.id
      (if is_trial then SubscriptionStatus.trial else SubscriptionStatus.active)
      (some (now + product.duration_days * day_ms))
      (if is_trial then some (now + 7 * day_ms) else none) now

abbrev pub subscribe_to : ℕ → SubscriptionProduct → ℕ → Action Billing CurrentSubscription
subscribe_to user product now = do
  row ← create_subscribed user product now
  clear_current_cache user
  pure (map_current (some row) now)

unfoldable pub subscribe : ℕ → String → ℕ → Action Billing CurrentSubscription
subscribe user plan now = do
  product ← find_catalog_product plan
  current ← gets (latest_subscription user)
  (if has_plan current plan && runs_now current now
      then pure (map_current current now)
      else subscribe_to user product now)

abbrev pub with_tokens : Billing → Tokens → Billing
with_tokens s t = record s { tokens = t }

abbrev pub on_tokens : {A : Type 0} → Action Tokens A → Action Billing A
on_tokens m = on (λ s. s.tokens) with_tokens m

-- `grantDropsSubscriptionReward`: a reward that the service refuses does not block the activation.
unfoldable pub grant_drops_subscription_reward : ℕ → ℕ → ℕ → Action Billing (Option RewardResult)
grant_drops_subscription_reward user source_id now =
    attempt_within (on_tokens (on_drops (grant_subscription_reward none user source_id now)))

-- The later of a time, if there is one, and now.
abbrev pub later_of : Option ℕ → ℕ → ℕ
later_of none now = now
later_of (some t) now = if ltb now t then t else now

abbrev pub base_time : Option UserSubscription → ℕ → ℕ
base_time none now = now
base_time (some u) now = later_of u.renews_at now

abbrev pub renewed : SubscriptionProduct → ℕ → UserSubscription → UserSubscription
renewed product renews_at u = record u {
  plan = product.id;
  status = SubscriptionStatus.active;
  renews_at = some renews_at;
  trial_ends_at = none;
}

-- `userSubscription.update({ where: { id } })`
unfoldable pub renew : UserSubscription → SubscriptionProduct → ℕ → Action Billing UserSubscription
renew u product renews_at s = (
  ok (renewed product renews_at u),
  record s {
    subscriptions = change (λ r. r.id == u.id) (renewed product renews_at) s.subscriptions;
  },
)

-- The running subscription is renewed, and another user gets a new one.
unfoldable pub activate :
    ℕ → Option UserSubscription → SubscriptionProduct → ℕ → Action Billing UserSubscription
activate user none product now =
    create_subscription user product.id SubscriptionStatus.active
      (some (base_time none now + product.duration_days * day_ms)) none now
activate user (some u) product now =
    let renews_at = base_time (some u) now + product.duration_days * day_ms in
    if is_premium_status (resolve_status (some u) now)
    then renew u product renews_at
    else create_subscription user product.id SubscriptionStatus.active (some renews_at) none now

unfoldable pub reward_order : ℕ → Option ℕ → ℕ → Action Billing (Option RewardResult)
reward_order user none now = pure none
reward_order user (some order) now = grant_drops_subscription_reward user order now

unfoldable pub activate_paid_subscription :
    ℕ → String → Option ℕ → ℕ → Action Billing UserSubscription
activate_paid_subscription user plan payment_order now = do
  product ← find_catalog_product plan
  current ← gets (latest_subscription user)
  subscription ← activate user current product now
  reward_order user payment_order now
  clear_current_cache user
  pure subscription

-- The callback of the transaction of `subscribeWithTokens`.
unfoldable pub buy_with_tokens : ℕ → SubscriptionProduct → ℕ → Action Billing CurrentSubscription
buy_with_tokens user product now = do
  entry ← on_tokens (spend_tokens user product.token_cost TokenLedgerReason.subscription_spend now)
  subscription ← activate_paid_subscription user product.id none now
  grant_drops_subscription_reward user entry.id now
  pure (map_current (some subscription) now)

-- A rollback takes back the tables; the caches are not in the database.
abbrev pub take_back : Billing → Billing → Billing
take_back before at_throw = record before {
  current_cache = at_throw.current_cache;
  tokens = take_back_tokens before.tokens at_throw.tokens;
}

unfoldable pub subscribe_with_tokens :
    Transaction Billing take_back → ℕ → String → ℕ → Action Billing CurrentSubscription
subscribe_with_tokens tx user plan now = do
  product ← find_catalog_product plan
  current ← tx.run CurrentSubscription (buy_with_tokens user product now)
  clear_current_cache user
  pure current
