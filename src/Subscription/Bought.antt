-- ===== src/Subscription/Bought.antt =====
-- A plan that is paid with tokens: `subscribeWithTokens`
-- (backend/apps/api/src/services/subscription.service.ts).
use frendly.Common.{
  ℕ, ◌*◌, ◌<◌, true, false, String, str_eq, eq_iff, find, Option, none, some, find-passes, ◌≡◌,
  refl, sym, ap, ◌∙◌, subst, inl, inr, ◌⊎◌, Option-cases, IsIn, [], ◌∷◌, ◌++◌,
}
use frendly.Common.Int.{pos, ◌-ℤ◌, ltb_ℤ}
use frendly.Common.Action.{ApiError, Result, ok, err, caught_within_ok, settle, Transaction}
use frendly.Catalog.{SubscriptionProduct}
use frendly.Drops.Grant.{RewardResult}
use frendly.Drops.Claims.{grant_subscription_reward}
use frendly.Tokens.Promotion.{on_drops}
use frendly.Tokens.Tables.{TokenLedgerReason, TokenLedgerEntry, Tokens}
use frendly.Tokens.Wallet.{spend_tokens}
use frendly.Tokens.Ledger.{IsSound, balance_of}
use frendly.Tokens.Spend.{spend_tokens-Spent}
use frendly.Subscription.{
  UserSubscription, CurrentSubscription, Billing, find_catalog_product, load_catalog_products,
  map_current, latest_subscription,
}
use frendly.Subscription.Status.{IsPaidUntil, Extends, RewardFits, activate_paid_subscription_alone}
use frendly.Calendar.{day_ms}
use frendly.Subscription.Service.{
  grant_drops_subscription_reward, clear_current_cache, with_tokens, on_tokens, buy_with_tokens,
  subscribe_with_tokens, take_back,
}

-- The wallets and the ledger are the same.
abbrev SameBooks : Tokens → Tokens → Type 0
SameBooks t t' = (t'.wallets ≡ t.wallets) × (t'.entries ≡ t.entries)

-- A reward that is granted beside a purchase leaves the wallets, the ledger and the subscriptions.
rewarded :
    (user source now : ℕ) (s : Billing)
    → RewardFits user source now s.tokens.drops
    → (x : Option RewardResult) × (t : Billing) × (grant_drops_subscription_reward user source now s
        ≡ (ok x, t))
      × SameBooks s.tokens t.tokens
      × (t.subscriptions ≡ s.subscriptions)
unfolding grant_drops_subscription_reward
rewarded user source now s fits =
    let (x, e) =
      caught_within_ok (on_tokens (on_drops (grant_subscription_reward none user source now)) s)
        fits in
    (x, _, e, (refl, refl), refl)

-- What buying a plan with tokens leaves, by how it ends.
pub record Bought (user : ℕ) (product : SubscriptionProduct) (now : ℕ) (s : Billing)
    (r : Result CurrentSubscription × Billing) : Type 0 where
  pub enough : ltb_ℤ (balance_of user s.tokens) (pos product.token_cost) ≡ false
  pub subscription : UserSubscription
  pub until : ℕ
  pub answer : r.0 ≡ ok (map_current (some subscription) now)
  pub stored : IsIn subscription r.1.subscriptions
  pub paid : IsPaidUntil user product.id until now subscription
  pub extends : Extends (latest_subscription user s) now (product.duration_days * day_ms) until
  pub balance : balance_of user r.1.tokens ≡ balance_of user s.tokens -ℤ pos product.token_cost
  pub entry : TokenLedgerEntry
  pub amount_of : entry.amount ≡ pos 0 -ℤ pos product.token_cost
  pub entries : r.1.tokens.entries ≡ s.tokens.entries ++ (entry ∷ [])

pub record Declined (user : ℕ) (product : SubscriptionProduct) (s : Billing)
    (r : Result CurrentSubscription × Billing) : Type 0 where
  pub short : ltb_ℤ (balance_of user s.tokens) (pos product.token_cost) ≡ true
  pub answer : r.0 ≡ err ApiError.tokens_insufficient
  pub books : SameBooks s.tokens r.1.tokens
  pub subscriptions : r.1.subscriptions ≡ s.subscriptions

balance_of_same :
    (user : ℕ) (t t' : Tokens) → t'.wallets ≡ t.wallets → balance_of user t' ≡ balance_of user t
balance_of_same user t t' same = rw (balance_of, same)

module _ (user : ℕ) (product : SubscriptionProduct) (now : ℕ) (s : Billing)
    (found : (t : Tokens)
      → find_catalog_product product.id (with_tokens s t) ≡ (ok product, with_tokens s t))
    (some_days : 0 < product.duration_days) where
  abbrev spent : Result TokenLedgerEntry × Tokens
  spent = spend_tokens user product.token_cost TokenLedgerReason.subscription_spend now s.tokens

  buys :
      (entry : TokenLedgerEntry)
      → spent.0 ≡ ok entry
      → RewardFits user entry.id now spent.1.drops
      → (u : UserSubscription) × (t : Billing) × (until : ℕ) × (buy_with_tokens user product now s
          ≡ (ok (map_current (some u) now), t))
        × IsIn u t.subscriptions
        × IsPaidUntil user product.id until now u
        × Extends (latest_subscription user s) now (product.duration_days * day_ms) until
        × SameBooks spent.1 t.tokens
  unfolding buy_with_tokens latest_subscription
  buys entry e fits =
      let (u, t, until, returned, stored, paid, extends, same) =
        activate_paid_subscription_alone user product.id now (with_tokens s spent.1) product
          (found spent.1) some_days in
      let (x, t', rewarded_it, books, kept) =
        rewarded user entry.id now t
          (subst (λ k. RewardFits user entry.id now k.drops) (sym same) fits) in
      (
        u,
        t',
        until,
        rw (e, buy_with_tokens) (rw returned (rw rewarded_it)),
        subst (IsIn u) (sym kept) stored,
        paid,
        extends,
        (books.0 ∙ ap (λ k. k.wallets) same, books.1 ∙ ap (λ k. k.entries) same),
      )

  declines : (e : ApiError) → spent.0 ≡ err e → (buy_with_tokens user product now s).0 ≡ err e
  unfolding buy_with_tokens
  declines e h = rw (h, buy_with_tokens)

-- A plan that was found is found again by its own id, whatever the wallets hold.
found_again :
    (plan : String) (s : Billing) (product : SubscriptionProduct)
    → find_catalog_product plan s ≡ (ok product, s)
    → (t : Tokens)
    → find_catalog_product product.id (with_tokens s t) ≡ (ok product, with_tokens s t)
unfolding find_catalog_product load_catalog_products
found_again plan s product h t =
    elim (Option-cases (find (λ p. str_eq p.id plan) (load_catalog_products s))) [
      | inl none_found ↦ let r = rw (none_found, find_catalog_product) at h in absurd (cc)
      | inr (q, found) ↦
          let r = rw (found, find_catalog_product) at h in
          let same : q ≡ product = cc in
          let named : product.id ≡ plan = rw (sym same) (
            (eq_iff q.id plan).0
              (find-passes (λ p. str_eq p.id plan) (load_catalog_products s) q found)) in
          subst (λ id. find_catalog_product id (with_tokens s t) ≡ (ok product, with_tokens s t))
            (sym named) (rw (found, find_catalog_product) (ap (λ p. (ok p, with_tokens s t)) same))
    ]

settled_err :
    {A : Type 0} (s : Billing) (r : Result A × Billing) (e : ApiError)
    → r.0 ≡ err e
    → (t : Billing) × (settle take_back s r ≡ (err e, take_back s t))
settled_err s (ok a, t) e h = absurd (cc)
settled_err s (err e', t) e h = (t, rw h)

-- From books that agree, buying a plan of the catalog that lasts at least a day, with tokens, where the
-- reward for it breaks no unique column: either the balance is smaller than the plan's cost, and then the
-- call throws and no wallet, entry or subscription changes; or the balance is enough, and then the call
-- returns a subscription that is in the table. It is the user's, active and of the plan, and it ends the
-- plan's days after now or after the end that was paid for, whichever is later; the balance is less by
-- the cost, which one new entry of the ledger shows.
pub subscribe_with_tokens-Bought :
    (tx : Transaction Billing take_back) (user : ℕ) (plan : String) (now : ℕ) (s : Billing)
    (product : SubscriptionProduct)
    → IsSound s.tokens
    → find_catalog_product plan s ≡ (ok product, s)
    → 0 < product.duration_days
    → ((source : ℕ) → RewardFits user source now s.tokens.drops)
    → Declined user product s (subscribe_with_tokens tx user plan now s)
      ⊎ Bought user product now s (subscribe_with_tokens tx user plan now s)
unfolding subscribe_with_tokens clear_current_cache
subscribe_with_tokens-Bought tx user plan now s product sound found some_days fits =
    elim (spend_tokens-Spent user product.token_cost TokenLedgerReason.subscription_spend now
      s.tokens sound) [
        | inl refused ↦
            let (t, ended) =
              settled_err s (buy_with_tokens user product now s) ApiError.tokens_insufficient (
                declines user product now s again some_days ApiError.tokens_insufficient
                  refused.answer) in
            let throws =
              tx.run_settles CurrentSubscription (buy_with_tokens user product now) s ∙ ended in
            rw (found, subscribe_with_tokens)
              (rw throws (
                inl (record {
                  short = refused.short;
                  answer = refl;
                  books = (refl, refl);
                  subscriptions = refl;
                })))
        | inr spent_it ↦
            let (u, t, until, returned, stored, paid, extends, books) =
              buys user product now s again some_days spent_it.entry spent_it.answer (
                subst (RewardFits user spent_it.entry.id now) (sym spent_it.drops)
                  (fits spent_it.entry.id)) in
            let after =
              (spend_tokens user product.token_cost TokenLedgerReason.subscription_spend now
                s.tokens).1 in
            let commits =
              tx.run_settles CurrentSubscription (buy_with_tokens user product now) s
              ∙ ap (settle take_back s) returned in
            rw (found, subscribe_with_tokens)
              (rw commits (
                inr (record {
                  enough = spent_it.enough;
                  subscription = u;
                  until = until;
                  answer = refl;
                  stored = stored;
                  paid = paid;
                  extends = extends;
                  balance = balance_of_same user after t.tokens books.0 ∙ spent_it.balance;
                  entry = spent_it.entry;
                  amount_of = spent_it.amount_of;
                  entries = books.1 ∙ spent_it.entries;
                })))
      ]
  where
    again :
        (t : Tokens)
        → find_catalog_product product.id (with_tokens s t) ≡ (ok product, with_tokens s t)
    again = found_again plan s product found
