-- ===== src/Payments/Products.antt =====
-- Prices with a discount, bundles, and the opening of an order: `discountAmountToWholeRubles`,
-- `resolveTokenPaymentProductForUser`, `resolveCheckoutBundleProduct`, `mapTokenPack` and the part of
-- `initPaymentInternal` that writes the order (backend/apps/api/src/services/payments.service.ts). The
-- catalog's rows, the buyer's discount and the new order's id (`randomUUID`) are arguments.
use frendly.Common.{
  ℕ, ◌+◌, ◌-◌, ◌*◌, ◌/◌, ltb, max, Bool, true, false, String, str_eq, Option, none, some, [], ◌∷◌,
  ◌++◌, if◌then◌else◌, find,
}
use frendly.Common.Action.{Action, ApiError, Result, ok, err, ◌>>=◌, ◌>>◌, raise}
use frendly.Catalog.{SubscriptionProduct, TokenPackProduct}
use frendly.Payments.Tables.{
  PaymentOrderStatus, PaymentProvider, PaymentProductKind, Json, PaymentOrder, OrderView, Payments,
}
use frendly.Payments.Snapshot.{DiscountedPack, token_pack_snapshot, checkout_bundle_snapshot}
use frendly.Payments.Orders.{map_order, update_order}

-- What the order and the bank's form take of a product.
pub record ResolvedPaymentProduct : Type 0 where
  pub kind : PaymentProductKind
  pub id : String
  pub amount_kopecks : ℕ
  pub price_rub : ℕ
  pub product_snapshot : Option Json
  pub receipt_name : Option String

-- `TokenPackView`: what `mapTokenPack` returns, without the names that it copies.
pub record TokenPackPrice : Type 0 where
  pub price_rub : ℕ
  pub original_price_rub : Option ℕ
  pub discount_percent : ℕ

-- `round_rubles amount rest` is the floating-point `Math.round(amount / 100 * (rest / 100))` of the
-- language, where a number below 0 counts as 0.
module _ (round_rubles : ℕ → ℕ → ℕ) where
  unfoldable pub discount_amount_to_whole_rubles : ℕ → ℕ → ℕ
  discount_amount_to_whole_rubles amount percent =
      max 100 (round_rubles amount (100 - percent) * 100)

  -- `resolveTokenPaymentProductForUser`, once the pack and the discount are known
  unfoldable pub resolve_token_payment_product : TokenPackProduct → ℕ → DiscountedPack
  resolve_token_payment_product product percent =
      if ltb 0 percent
      then record {
        pack = record product {
          amount_kopecks = discount_amount_to_whole_rubles product.amount_kopecks percent;
          price_rub = discount_amount_to_whole_rubles product.amount_kopecks percent / 100;
        };
        original_price_rub = some product.price_rub;
        discount_percent = percent;
      }
      else record { pack = product; original_price_rub = none; discount_percent = 0 }

  -- The prices of `mapTokenPack`
  unfoldable pub map_token_pack : TokenPackProduct → ℕ → TokenPackPrice
  map_token_pack product percent =
      let discounted =
        if ltb 0 percent
        then discount_amount_to_whole_rubles product.amount_kopecks percent
        else product.amount_kopecks in
      record {
        price_rub = discounted / 100;
        original_price_rub = if ltb 0 percent then some product.price_rub else none;
        discount_percent = percent;
      }

abbrev pub amount_of_pack : Option DiscountedPack → ℕ
amount_of_pack none = 0
amount_of_pack (some p) = p.pack.amount_kopecks

abbrev pub receipt_of : Option DiscountedPack → String
receipt_of none = "Frendly+"
receipt_of (some p) = "Frendly+ и FT"

-- `resolveCheckoutBundleProduct`, once its products are resolved
unfoldable pub resolve_checkout_bundle_product :
    SubscriptionProduct → Option DiscountedPack → ResolvedPaymentProduct
resolve_checkout_bundle_product subscription pack =
    let amount = subscription.amount_kopecks + amount_of_pack pack in
    record {
      kind = PaymentProductKind.subscription;
      id = subscription.id;
      amount_kopecks = amount;
      price_rub = amount / 100;
      product_snapshot = some (checkout_bundle_snapshot subscription pack);
      receipt_name = some (receipt_of pack);
    }

-- A pack on its own; `initPaymentInternal` makes its snapshot.
abbrev pub token_product : DiscountedPack → ResolvedPaymentProduct
token_product p = record {
  kind = PaymentProductKind.tokens;
  id = p.pack.id;
  amount_kopecks = p.pack.amount_kopecks;
  price_rub = p.pack.price_rub;
  product_snapshot = some (token_pack_snapshot p);
  receipt_name = none;
}

-- An answer of the bank to `Init`.
pub record TbankInit : Type 0 where
  pub payment_id : Option String
  pub payment_url : Option String
  pub status : Option String

abbrev pub order_ttl_ms : ℕ
order_ttl_ms = 30 * 60 * 1000

abbrev pub new_order : ℕ → ℕ → ResolvedPaymentProduct → String → ℕ → PaymentOrder
new_order id user product order_id now = record {
  id = id;
  user_id = user;
  provider = PaymentProvider.tbank;
  product_kind = product.kind;
  product_id = product.id;
  amount_kopecks = product.amount_kopecks;
  order_id = order_id;
  provider_payment_id = none;
  payment_url = none;
  status = PaymentOrderStatus.pending;
  confirmed_at = none;
  failed_at = none;
  expires_at = some (now + order_ttl_ms);
  raw_status = none;
  product_snapshot = product.product_snapshot;
}

abbrev pub order_id_taken : String → Option PaymentOrder → Bool
order_id_taken order_id none = false
order_id_taken order_id (some o) = true

-- `paymentOrder.create`; the column `orderId` is unique, and `id` is the database's new key.
unfoldable pub create_order :
    ℕ → ℕ → ResolvedPaymentProduct → String → ℕ → Action Payments PaymentOrder
create_order id user product order_id now s =
    if order_id_taken order_id (find (λ o. str_eq o.order_id order_id) s.orders)
    then (err ApiError.unique_violation, s)
    else (
      ok (new_order id user product order_id now),
      record s { orders = s.orders ++ (new_order id user product order_id now ∷ []) },
    )

abbrev pub opened : TbankInit → PaymentOrder → PaymentOrder
opened r o = record o {
  provider_payment_id = r.payment_id;
  payment_url = r.payment_url;
  raw_status = r.status;
}

abbrev pub failed_open : ℕ → PaymentOrder → PaymentOrder
failed_open now o = record o { status = PaymentOrderStatus.failed; failed_at = some now }

-- The `catch`: the order is marked as failed, and the error is thrown again.
unfoldable pub fail_order : PaymentOrder → ApiError → ℕ → Action Payments OrderView
fail_order o e now = update_order o (failed_open now) >> raise e

abbrev pub or_fail : PaymentOrder → ℕ → Result PaymentOrder × Payments → Result OrderView × Payments
or_fail o now (ok row, s) = (ok (map_order row), s)
or_fail o now (err e, s) = fail_order o e now s

abbrev pub after_init : PaymentOrder → ℕ → Result TbankInit → Action Payments OrderView
after_init o now (ok r) s = or_fail o now (update_order o (opened r) s)
after_init o now (err e) s = fail_order o e now s

-- `initPaymentInternal` from the creation of the order on; `init` is the bank's answer for the amount
-- and the order.
unfoldable pub open_order :
    (ℕ → String → Result TbankInit)
    → ℕ
    → ℕ
    → ResolvedPaymentProduct
    → String
    → ℕ
    → Action Payments OrderView
open_order init id user product order_id now = do
  o ← create_order id user product order_id now
  after_init o now (init product.amount_kopecks o.order_id)
