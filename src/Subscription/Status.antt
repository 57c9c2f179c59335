-- ===== src/Subscription/Status.antt =====
-- What a paid plan gives: `activatePaidSubscription` and `resolveStatus`
-- (backend/apps/api/src/services/subscription.service.ts).
use frendly.Common.{
  ℕ, ◌+◌, ◌*◌, ◌≤◌, ◌<◌, String, Option, none, some, ◌≡◌, refl, arith, Bool-cases, inl, inr, ◌⊎◌,
  sym, ◌∙◌, subst, IsIn, IsIn-append_last, IsIn-keep, IsIn-change, keep, leb, ltb, ◌==◌, List, [],
  ◌∷◌, false,
}
use frendly.Common.Action.{Result, ok, aborts, caught_within_ok}
use frendly.Common.Sort.{sort_by, IsIn-sort_by}
use frendly.Drops.Tables.{Drops}
use frendly.Drops.Claims.{grant_subscription_reward}
use frendly.Tokens.Promotion.{on_drops}
use frendly.Calendar.{day_ms}
use frendly.Catalog.{SubscriptionProduct}
use frendly.Drops.Grant.{RewardResult}
use frendly.Subscription.{
  SubscriptionStatus, UserSubscription, Billing, find_catalog_product, latest_subscription,
  resolve_status, is_premium_status, head_of,
}
use frendly.Subscription.Service.{
  activate, activate_paid_subscription, base_time, create_subscription, renew, reward_order,
  grant_drops_subscription_reward, clear_current_cache, on_tokens, renewed,
}

-- A plan that was paid at `now`: it is active and lasts until `until`.
pub record IsPaidUntil (user : ℕ) (plan : String) (until now : ℕ) (u : UserSubscription)
    : Type 0 where
  pub user_of : u.user_id ≡ user
  pub active : u.status ≡ SubscriptionStatus.active
  pub plan_of : u.plan ≡ plan
  pub ends : u.renews_at ≡ some until
  pub no_trial : u.trial_ends_at ≡ none
  pub status : resolve_status (some u) now ≡ SubscriptionStatus.active

-- The end of a payment for some time, beside the subscription that was there: that time after now, or
-- after the end that was paid for, whichever is later.
pub record Extends (current : Option UserSubscription) (now length until : ℕ) : Type 0 where
  pub from_now : now + length ≤ until
  pub from_paid :
      (c : UserSubscription) (t : ℕ) → current ≡ some c → c.renews_at ≡ some t → t + length ≤ until
  pub exact :
      (until ≡ now + length)
      ⊎ ((c : UserSubscription) × (t : ℕ) × (current ≡ some c)
          × (c.renews_at ≡ some t)
          × (until ≡ t + length))

base_time-Extends :
    (current : Option UserSubscription) (now length : ℕ)
    → Extends current now length (base_time current now + length)
base_time-Extends none now length = record {
  from_now = omega arith;
  from_paid = λ c t e f. cc;
  exact = inl refl;
}
base_time-Extends (some u) now length = by_end u.renews_at refl
  where
    by_end :
        (r : Option ℕ)
        → u.renews_at ≡ r
        → Extends (some u) now length (base_time (some u) now + length)
    by_end none h = record {
      from_now = rw h (omega arith);
      from_paid =
          λ c t e f. let same : u.renews_at ≡ some t = cc in absurd (none_some (sym h ∙ same));
      exact = rw h (inl refl);
    }
      where
        none_some : {t : ℕ} → ◌≡◌ {A = Option ℕ} none (some t) → ⊥
        none_some e = cc
    by_end (some t) h = record {
      from_now = rw h (ground arith);
      from_paid = λ c t' e f.
          let same : u.renews_at ≡ some t' = cc in
          let times : t ≡ t' = cc in rw h (ground (arith, times));
      exact = elim (Bool-cases (ltb now t)) [
        | inl later ↦ inr (u, t, refl, h, rw (h, later) refl)
        | inr over ↦ inl (rw (h, over) refl)
      ];
    }

latest_subscription-IsIn :
    (user : ℕ) (s : Billing) (c : UserSubscription)
    → latest_subscription user s ≡ some c
    → (c.user_id ≡ user) × IsIn c s.subscriptions
unfolding latest_subscription
latest_subscription-IsIn user s c h =
    let newest = λ (a b : UserSubscription). leb b.created_at a.created_at in
    let sorted : IsIn c (sort_by newest (keep (λ u. u.user_id == user) s.subscriptions)) =
      head_of-IsIn _ c h in
    let (mine, kept) =
      IsIn-keep (λ u. u.user_id == user) s.subscriptions c (IsIn-sort_by newest _ c sorted) in
    (ground (arith, mine), kept)
  where
    head_of-IsIn :
        (xs : List UserSubscription) (x : UserSubscription) → head_of xs ≡ some x → IsIn x xs
    head_of-IsIn [] x e = absurd (cc)
    head_of-IsIn (y ∷ ys) x e = inl (cc)

resolve_paid :
    (u : UserSubscription) (until now : ℕ)
    → u.trial_ends_at ≡ none
    → u.renews_at ≡ some until
    → u.status ≡ SubscriptionStatus.active
    → now < until
    → resolve_status (some u) now ≡ SubscriptionStatus.active
unfolding resolve_status
resolve_paid u until now none_left ends active late = rw (none_left, ends, active) (ground arith)

-- Whether granting the reward of a source would break a unique column: the codes of its tickets are
-- drawn at random, and one may be taken.
abbrev pub RewardFits : ℕ → ℕ → ℕ → Drops → Type 0
RewardFits user source now d = aborts (grant_subscription_reward none user source now d).0 ≡ false

reward_order_ok :
    (user : ℕ) (order : Option ℕ) (now : ℕ) (s : Billing)
    → ((source : ℕ) → order ≡ some source → RewardFits user source now s.tokens.drops)
    → (x : Option RewardResult) × (t : Billing) × (reward_order user order now s ≡ (ok x, t))
      × (t.subscriptions ≡ s.subscriptions)
unfolding reward_order grant_drops_subscription_reward
reward_order_ok user none now s fits = (none, s, refl, refl)
reward_order_ok user (some order) now s fits =
    let (x, e) =
      caught_within_ok (on_tokens (on_drops (grant_subscription_reward none user order now)) s)
        (fits order refl) in
    (x, _, e, refl)

module _ (user : ℕ) (product : SubscriptionProduct) (now : ℕ) (s : Billing)
    (some_days : 0 < product.duration_days) where
  abbrev until : Option UserSubscription → ℕ
  until current = base_time current now + product.duration_days * day_ms

  until-now : (current : Option UserSubscription) → now < until current
  until-now current =
      omega (arith, (base_time-Extends current now (product.duration_days * day_ms)).from_now)

  -- An activation: the row is in the table, for the days of the plan, and no token moves.
  abbrev Activates : Option UserSubscription → Result UserSubscription × Billing → Type 0
  Activates current r =
      (u : UserSubscription) × (t : Billing) × (r ≡ (ok u, t))
      × IsPaidUntil user product.id (until current) now u
      × IsIn u t.subscriptions
      × (t.tokens ≡ s.tokens)

  created :
      (current : Option UserSubscription)
      → Activates current (
          create_subscription user product.id SubscriptionStatus.active
            (some (until current))
            none
            now
            s)
  unfolding create_subscription
  created current = (
    _,
    _,
    refl,
    record {
      user_of = refl;
      active = refl;
      plan_of = refl;
      ends = refl;
      no_trial = refl;
      status = resolve_paid _ (until current) now refl refl refl (until-now current);
    },
    IsIn-append_last s.subscriptions _,
    refl,
  )

  renews :
      (c : UserSubscription)
      → c.user_id ≡ user
      → IsIn c s.subscriptions
      → Activates (some c) (renew c product (until (some c)) s)
  unfolding renew
  renews c mine here = (
    _,
    _,
    refl,
    record {
      user_of = mine;
      active = refl;
      plan_of = refl;
      ends = refl;
      no_trial = refl;
      status = resolve_paid _ (until (some c)) now refl refl refl (until-now (some c));
    },
    IsIn-change (λ r. r.id == c.id) (renewed product (until (some c))) s.subscriptions c here
        (ground arith),
    refl,
  )

  activated :
      (current : Option UserSubscription)
      → ((c : UserSubscription) → current ≡ some c → (c.user_id ≡ user) × IsIn c s.subscriptions)
      → Activates current (activate user current product now s)
  unfolding activate
  activated none own = created none
  activated (some c) own = elim (Bool-cases (is_premium_status (resolve_status (some c) now))) [
    | inl runs ↦ rw (runs, activate) (renews c (own c refl).0 (own c refl).1)
    | inr over ↦ rw (over, activate) (created (some c))
  ]

-- Paying for a plan of the catalog with at least one day, where the reward of the order breaks no unique
-- column, always succeeds, also if the reward service refuses the reward. The returned subscription is in
-- the table: it is the user's, has that plan, is active, and ends the days of the plan after now or after
-- the end that was paid for already, whichever is later.
pub activate_paid_subscription-IsPaidUntil :
    (user : ℕ) (plan : String) (order : Option ℕ) (now : ℕ) (s : Billing)
    (product : SubscriptionProduct)
    → find_catalog_product plan s ≡ (ok product, s)
    → 0 < product.duration_days
    → ((source : ℕ) → order ≡ some source → RewardFits user source now s.tokens.drops)
    → let r = activate_paid_subscription user plan order now s in
      (u : UserSubscription) × (until : ℕ) × (r.0 ≡ ok u)
      × IsIn u r.1.subscriptions
      × IsPaidUntil user product.id until now u
      × Extends (latest_subscription user s) now (product.duration_days * day_ms) until
unfolding activate_paid_subscription clear_current_cache
activate_paid_subscription-IsPaidUntil user plan order now s product found some_days fits =
    let current = latest_subscription user s in
    let (u, t, returned, paid, stored, same) =
      activated user product now s some_days current (latest_subscription-IsIn user s) in
    let (x, t', rewarded, kept) =
      reward_order_ok user order now t
        (λ source e. subst (λ k. RewardFits user source now k.drops) (sym same) (fits source e)) in
    (
      u,
      base_time current now + product.duration_days * day_ms,
      rw (found, activate_paid_subscription) (rw returned (rw rewarded)),
      rw (found, activate_paid_subscription)
          (rw returned (rw rewarded (subst (IsIn u) (sym kept) stored))),
      paid,
      base_time-Extends current now (product.duration_days * day_ms),
    )

-- An activation that no payment order is for touches no table of the tokens.
pub activate_paid_subscription_alone :
    (user : ℕ) (plan : String) (now : ℕ) (s : Billing) (product : SubscriptionProduct)
    → find_catalog_product plan s ≡ (ok product, s)
    → 0 < product.duration_days
    → (u : UserSubscription) × (t : Billing) × (until : ℕ) × (activate_paid_subscription user plan
          none now s
        ≡ (ok u, t))
      × IsIn u t.subscriptions
      × IsPaidUntil user product.id until now u
      × Extends (latest_subscription user s) now (product.duration_days * day_ms) until
      × (t.tokens ≡ s.tokens)
unfolding activate_paid_subscription clear_current_cache reward_order
activate_paid_subscription_alone user plan now s product found some_days =
    let (u, t, returned, paid, stored, same) =
      activated user product now s some_days (latest_subscription user s)
        (latest_subscription-IsIn user s) in
    (
      u,
      (clear_current_cache user t).1,
      base_time (latest_subscription user s) now + product.duration_days * day_ms,
      rw (found, activate_paid_subscription) (rw returned),
      stored,
      paid,
      base_time-Extends (latest_subscription user s) now (product.duration_days * day_ms),
      same,
    )
