-- ===== src/Tests/Catalogs.antt =====
-- The price list and prices with a discount at concrete inputs.
use native.Mathlib.Nat.{mul-le-mul_left}
use frendly.Common.{ℕ, ◌*◌, ◌≤◌, ◌<◌, ◌/◌, ◌+◌, ◌≡◌, refl, arith, false}
use frendly.Common.Action.{ok}
use frendly.Catalog.{PaymentProduct, TokenPackProduct, find_payment_product}
use frendly.Catalog.Prices.{kind_name, product_id, IsConsistent, find_payment_product-finds}
use frendly.Payments.Products.{resolve_token_payment_product, map_token_pack}
use frendly.Payments.Opening.{resolve_token_payment_product-map_token_pack}

abbrev pub basic_pack : TokenPackProduct
basic_pack = record {
  id = "p1";
  label = "Базовый";
  description = "Frendly Tokens: 100";
  amount_kopecks = 19900;
  price_rub = 199;
  tokens = 100;
  bonus = 0;
  best = false;
}

found : find_payment_product "tokens" "p1" ≡ ok (PaymentProduct.tokens basic_pack)
unfolding find_payment_product
found = refl

find_payment_product-finds_example :
    (kind_name (PaymentProduct.tokens basic_pack) ≡ "tokens")
    × (product_id (PaymentProduct.tokens basic_pack) ≡ "p1")
    × IsConsistent (PaymentProduct.tokens basic_pack)
find_payment_product-finds_example =
    find_payment_product-finds "tokens" "p1" (PaymentProduct.tokens basic_pack) found

-- Rounding to the nearest rouble.
abbrev nearest : ℕ → ℕ → ℕ
nearest amount rest = (amount * rest + 5000) / 10000

nearest_mono : (amount a b : ℕ) → a ≤ b → nearest amount a ≤ nearest amount b
nearest_mono amount a b le = omega (arith, mul-le-mul_left amount le)

nearest_whole : (rubles : ℕ) → nearest (rubles * 100) 100 ≡ rubles
nearest_whole rubles = omega arith

resolve_token_payment_product-map_token_pack_example :
    let charged = (resolve_token_payment_product nearest basic_pack 15).pack in
    (charged.price_rub ≡ (map_token_pack nearest basic_pack 15).price_rub)
    × (charged.amount_kopecks ≡ charged.price_rub * 100)
    × (0 < charged.price_rub)
    × (charged.amount_kopecks ≤ 19900)
    × ((more : ℕ)
        → 15 ≤ more
        → (resolve_token_payment_product nearest basic_pack more).pack.amount_kopecks
          ≤ charged.amount_kopecks)
resolve_token_payment_product-map_token_pack_example =
    resolve_token_payment_product-map_token_pack nearest nearest_mono nearest_whole basic_pack 15
      refl (ground arith)
