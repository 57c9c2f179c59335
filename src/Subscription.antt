-- ===== src/Subscription.antt =====
-- `SubscriptionService`: the plans, the status of a subscription, and its activation
-- (backend/apps/api/src/services/subscription.service.ts).
pub mod Service
pub mod Status
pub mod Bought
use frendly.Common.{
  ℕ, suc, ◌+◌, ◌*◌, ltb, leb, ◌==◌, Bool, true, false, not, ◌&&◌, ◌||◌, String, str_eq, Option,
  none, some, List, [], ◌∷◌, ◌++◌, if◌then◌else◌, keep, find, change,
}
use frendly.Common.Sort.{sort_by}
use frendly.Common.Action.{
  Action, ApiError, Result, ok, err, pure, gets, ◌>>=◌, ◌>>◌, or_raise, modify, attempt, on,
  Transaction,
}
use frendly.Calendar.{day_ms}
use frendly.Catalog.{SubscriptionProduct, subscription_products}
use frendly.Drops.Tables.{Drops}
use frendly.Drops.Grant.{RewardResult}
use frendly.Drops.Claims.{grant_subscription_reward}
use frendly.Tokens.Tables.{TokenLedgerReason, Tokens}
use frendly.Tokens.Wallet.{spend_tokens}
use frendly.Tokens.Promotion.{on_drops, take_back as take_back_tokens}

pub data SubscriptionStatus : Type 0 where
  inactive trial active canceled : SubscriptionStatus

pub record UserSubscription : Type 0 where
  pub id : ℕ
  pub user_id : ℕ
  pub plan : String
  pub status : SubscriptionStatus
  pub started_at : Option ℕ
  pub renews_at : Option ℕ
  pub trial_ends_at : Option ℕ
  pub created_at : ℕ

-- A row of `SubscriptionCatalogPlan`.
pub record CatalogPlan : Type 0 where
  pub product : SubscriptionProduct
  pub active : Bool
  pub sort_order : ℕ
  pub created_at : ℕ

-- What `getCurrent` returns.
pub record CurrentSubscription : Type 0 where
  pub plan : Option String
  pub status : SubscriptionStatus
  pub started_at : Option ℕ
  pub renews_at : Option ℕ
  pub trial_ends_at : Option ℕ

pub record CachedCurrent : Type 0 where
  pub user_id : ℕ
  pub expires_at : ℕ
  pub value : CurrentSubscription

-- The tables that the service reads and writes, with those of the token service, and its cache in
-- memory.
pub record Billing : Type 0 where
  pub plans : List CatalogPlan
  pub subscriptions : List UserSubscription
  pub current_cache : List CachedCurrent
  pub next_id : ℕ
  pub tokens : Tokens

abbrev pub products_of : List CatalogPlan → List SubscriptionProduct
products_of [] = []
products_of (p ∷ ps) = p.product ∷ products_of ps

-- `orderBy: [{ sortOrder: 'asc' }, { createdAt: 'asc' }]`
abbrev pub plan_before : CatalogPlan → CatalogPlan → Bool
plan_before a b =
    ltb a.sort_order b.sort_order || a.sort_order == b.sort_order && leb a.created_at b.created_at

abbrev pub or_default : List SubscriptionProduct → List SubscriptionProduct
or_default [] = subscription_products
or_default (p ∷ ps) = p ∷ ps

-- `loadCatalogProducts`, with `includeInactive` false
unfoldable pub load_catalog_products : Billing → List SubscriptionProduct
load_catalog_products s =
    or_default (products_of (sort_by plan_before (keep (λ p. p.active) s.plans)))

unfoldable pub find_catalog_product : String → Action Billing SubscriptionProduct
find_catalog_product plan s =
    or_raise (find (λ p. str_eq p.id plan) (load_catalog_products s))
      ApiError.invalid_subscription_plan s

-- Whether a moment is there and later than `now`.
abbrev pub is_later : Option ℕ → ℕ → Bool
is_later none now = false
is_later (some t) now = ltb now t

abbrev pub renewed_status : SubscriptionStatus → SubscriptionStatus
renewed_status SubscriptionStatus.canceled = SubscriptionStatus.active
renewed_status SubscriptionStatus.inactive = SubscriptionStatus.inactive
renewed_status SubscriptionStatus.trial = SubscriptionStatus.trial
renewed_status SubscriptionStatus.active = SubscriptionStatus.active

unfoldable pub resolve_status : Option UserSubscription → ℕ → SubscriptionStatus
resolve_status none now = SubscriptionStatus.inactive
resolve_status (some u) now =
    if is_later u.trial_ends_at now
    then SubscriptionStatus.trial
    else (if is_later u.renews_at now then renewed_status u.status else SubscriptionStatus.inactive)

unfoldable pub is_premium_status : SubscriptionStatus → Bool
is_premium_status SubscriptionStatus.trial = true
is_premium_status SubscriptionStatus.active = true
is_premium_status SubscriptionStatus.inactive = false
is_premium_status SubscriptionStatus.canceled = false

abbrev pub head_of : {A : Type 0} → List A → Option A
head_of [] = none
head_of (x ∷ xs) = some x

-- `userSubscription.findFirst` with `orderBy: { createdAt: 'desc' }`
unfoldable pub latest_subscription : ℕ → Billing → Option UserSubscription
latest_subscription user s =
    head_of (
      sort_by (λ a b. leb b.created_at a.created_at)
        (keep (λ u. u.user_id == user) s.subscriptions))

unfoldable pub map_current : Option UserSubscription → ℕ → CurrentSubscription
unfolding resolve_status
map_current none now = record {
  plan = none;
  status = resolve_status none now;
  started_at = none;
  renews_at = none;
  trial_ends_at = none;
}
map_current (some u) now = record {
  plan = some u.plan;
  status = resolve_status (some u) now;
  started_at = u.started_at;
  renews_at = u.renews_at;
  trial_ends_at = u.trial_ends_at;
}
