-- ===== src/Catalog/Prices.antt =====
-- The price list is consistent, and a lookup gives the product that was asked for
-- (backend/apps/api/src/services/payment-catalog.ts).
use frendly.Common.{
  ◌*◌, ◌<◌, true, String, str_eq, eq_iff, none, some, ◌≡◌, refl, arith, All, All-find, find,
  find-passes, inl, inr, Option, Bool-cases, subst, sym,
}
use frendly.Common.Action.{ApiError, Result, ok, err}
use frendly.Catalog.{
  SubscriptionProduct, TokenPackProduct, PaymentProduct, subscription_products, token_pack_products,
  find_payment_product, of_subscription, of_tokens,
}

abbrev pub product_id : PaymentProduct → String
product_id (PaymentProduct.subscription p) = p.id
product_id (PaymentProduct.tokens p) = p.id

abbrev pub kind_name : PaymentProduct → String
kind_name (PaymentProduct.subscription p) = "subscription"
kind_name (PaymentProduct.tokens p) = "tokens"

-- Kopecks are a hundred to the rouble; a plan costs as many tokens as roubles, lasts, and a pack
-- gives tokens.
abbrev pub IsConsistent : PaymentProduct → Type 0
IsConsistent (PaymentProduct.subscription p) =
    (p.amount_kopecks ≡ p.price_rub * 100) × (p.token_cost ≡ p.price_rub) × (0 < p.duration_days)
IsConsistent (PaymentProduct.tokens p) =
    (p.amount_kopecks ≡ p.price_rub * 100) × (0 < p.tokens) × (0 < p.amount_kopecks)

plans-IsConsistent : All (λ p. IsConsistent (PaymentProduct.subscription p)) subscription_products
plans-IsConsistent = omega arith

packs-IsConsistent : All (λ p. IsConsistent (PaymentProduct.tokens p)) token_pack_products
packs-IsConsistent = omega arith

abbrev Answers : String → String → PaymentProduct → Type 0
Answers kind id p = (kind_name p ≡ kind) × (product_id p ≡ id) × IsConsistent p

subscription-Answers :
    (kind id : String) (p : PaymentProduct) (found : Option SubscriptionProduct)
    → find (λ q. str_eq q.id id) subscription_products ≡ found
    → str_eq kind "subscription" ≡ true
    → of_subscription found ≡ ok p
    → Answers kind id p
subscription-Answers kind id p none e k h = absurd (cc)
subscription-Answers kind id p (some q) e k h = subst (Answers kind id) (same p h) (
  sym ((eq_iff kind "subscription").0 k),
  (eq_iff q.id id).0 (find-passes (λ r. str_eq r.id id) subscription_products q e),
  All-find (λ r. IsConsistent (PaymentProduct.subscription r)) (λ r. str_eq r.id id)
      subscription_products q e plans-IsConsistent,
)
  where
    same :
        (p : PaymentProduct) → of_subscription (some q) ≡ ok p → PaymentProduct.subscription q ≡ p
    same p h = cc

tokens-Answers :
    (kind id : String) (p : PaymentProduct) (found : Option TokenPackProduct)
    → find (λ q. str_eq q.id id) token_pack_products ≡ found
    → str_eq kind "tokens" ≡ true
    → of_tokens found ≡ ok p
    → Answers kind id p
tokens-Answers kind id p none e k h = absurd (cc)
tokens-Answers kind id p (some q) e k h = subst (Answers kind id) (same p h) (
  sym ((eq_iff kind "tokens").0 k),
  (eq_iff q.id id).0 (find-passes (λ r. str_eq r.id id) token_pack_products q e),
  All-find (λ r. IsConsistent (PaymentProduct.tokens r)) (λ r. str_eq r.id id) token_pack_products q
      e packs-IsConsistent,
)
  where
    same : (p : PaymentProduct) → of_tokens (some q) ≡ ok p → PaymentProduct.tokens q ≡ p
    same p h = cc

-- A product that is found is of the kind and has the id that were asked for, its kopecks are a
-- hundred to the rouble, and a plan costs as many tokens as roubles and lasts.
pub find_payment_product-finds :
    (kind id : String) (p : PaymentProduct)
    → find_payment_product kind id ≡ ok p
    → (kind_name p ≡ kind) × (product_id p ≡ id) × IsConsistent p
unfolding find_payment_product
find_payment_product-finds kind id p h = elim (Bool-cases (str_eq kind "subscription")) [
  | inl k ↦ subscription-Answers kind id p _ refl k (rw (k, find_payment_product) at h)
  | inr other ↦ elim (Bool-cases (str_eq kind "tokens")) [
    | inl k ↦ tokens-Answers kind id p _ refl k (rw (other, k, find_payment_product) at h)
    | inr neither ↦ absurd (refused p (rw (other, neither, find_payment_product) at h))
  ]
]
  where
    refused :
        (p : PaymentProduct)
        → ◌≡◌ {A = Result PaymentProduct} (err ApiError.payment_product_not_found) (ok p)
        → ⊥
    refused p h = cc
