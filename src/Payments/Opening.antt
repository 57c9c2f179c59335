-- ===== src/Payments/Opening.antt =====
-- Prices and new orders (backend/apps/api/src/services/payments.service.ts).
use frendly.Common.{
  ℕ, ◌-◌, true, ◌*◌, ◌≤◌, ◌<◌, ltb, max, false, String, str_eq, eq_iff, none, some, List, [], ◌∷◌,
  ◌++◌, ◌==◌, find, change, find-append, count, not, ◌&&◌, ◌≡◌, refl, arith, ◌∙◌, Bool-cases, inl,
  inr, ◌+◌, ◌⊎◌,
}
use frendly.Common.Action.{ApiError, Result, ok, err}
use frendly.Catalog.{TokenPackProduct}
use frendly.Payments.Tables.{PaymentOrderStatus, PaymentProvider, PaymentOrder, OrderView, Payments}
use frendly.Payments.Orders.{map_order, update_order, payment_id_taken, has_payment_id}
use frendly.Tokens.Money.{find-change}
use frendly.Payments.Products.{
  discount_amount_to_whole_rubles, resolve_token_payment_product, map_token_pack, TbankInit,
  open_order, create_order, ResolvedPaymentProduct, new_order, opened, failed_open, fail_order,
}

-- Rounding in the language: a product with a larger factor is not rounded to less, and a whole number
-- of roubles times 1 is that number.
module _ (round_rubles : ℕ → ℕ → ℕ)
    (round_mono : (amount a b : ℕ) → a ≤ b → round_rubles amount a ≤ round_rubles amount b)
    (round_whole : (rubles : ℕ) → round_rubles (rubles * 100) 100 ≡ rubles) where
  whole_rubles :
      (amount percent : ℕ)
      → discount_amount_to_whole_rubles round_rubles amount percent
        ≡ max 1 (round_rubles amount (100 - percent)) * 100
  unfolding discount_amount_to_whole_rubles
  whole_rubles amount percent = omega arith

  not_above : (rubles percent : ℕ) → round_rubles (rubles * 100) (100 - percent) ≤ rubles
  not_above rubles percent =
      omega (arith, round_mono (rubles * 100) (100 - percent) 100 (omega arith), round_whole rubles)

  -- For a pack of a whole number of roubles, at least one, and any discount: the pack that is charged has
  -- the price that the catalog shows, in whole roubles, at least one, and not above the pack's own price.
  -- A larger discount is not charged more. Of the language's rounding this takes that it keeps the order
  -- and that a whole number times 1 stays itself.
  pub resolve_token_payment_product-map_token_pack :
      (product : TokenPackProduct) (percent : ℕ)
      → product.amount_kopecks ≡ product.price_rub * 100
      → 0 < product.price_rub
      → let charged = (resolve_token_payment_product round_rubles product percent).pack in
        (charged.price_rub ≡ (map_token_pack round_rubles product percent).price_rub)
        × (charged.amount_kopecks ≡ charged.price_rub * 100)
        × (0 < charged.price_rub)
        × (charged.amount_kopecks ≤ product.amount_kopecks)
        × ((more : ℕ)
            → percent ≤ more
            → (resolve_token_payment_product round_rubles product more).pack.amount_kopecks
              ≤ charged.amount_kopecks)
  unfolding resolve_token_payment_product map_token_pack
  resolve_token_payment_product-map_token_pack product percent whole positive =
      elim (Bool-cases (ltb 0 percent)) [
        | inl t ↦
            rw (t, whole_rubles product.amount_kopecks percent, whole)
              (
                refl,
                omega arith,
                omega arith,
                omega (arith, not_above product.price_rub percent, positive),
                λ more le.
                    let t' : ltb 0 more ≡ true = ground (arith, t, le) in
                    rw (t', whole_rubles (product.price_rub * 100) more)
                      (omega (
                        arith,
                        round_mono (product.price_rub * 100) (100 - more) (100 - percent)
                            (omega (arith, le)),
                      )),
              )
        | inr f ↦ rw f (
          omega arith,
          whole,
          positive,
          omega arith,
          λ more le. elim (Bool-cases (ltb 0 more)) [
            | inl t' ↦
                rw (t', whole_rubles product.amount_kopecks more, whole)
                  (omega (arith, not_above product.price_rub more, positive))
            | inr f' ↦ rw f' (omega arith)
          ],
        )
      ]

no_payment_id :
    (o : PaymentOrder) (rows : List PaymentOrder)
    → o.provider_payment_id ≡ none
    → payment_id_taken o rows ≡ false
no_payment_id o rows h = rw h (rw (unmatched rows))
  where
    unmatched :
        (rows : List PaymentOrder)
        → count (λ r. not (r.id == o.id) && has_payment_id none r.provider_payment_id) rows ≡ 0
    unmatched [] = refl
    unmatched (r ∷ rs) = ground (arith, unmatched rs)

module _ (init : ℕ → String → Result TbankInit) (id user : ℕ) (product : ResolvedPaymentProduct)
    (order_id : String) (now : ℕ) (s : Payments)
    (fresh : find (λ o. str_eq o.order_id order_id) s.orders ≡ none) where
  abbrev row : PaymentOrder
  row = new_order id user product order_id now

  abbrev with_row : Payments
  with_row = record s { orders = s.orders ++ (row ∷ []) }

  created : create_order id user product order_id now s ≡ (ok row, with_row)
  unfolding create_order
  created = rw (fresh, create_order)

  here : find (λ o. str_eq o.order_id order_id) with_row.orders ≡ some row
  here = find-append _ s.orders _ fresh ∙ rw ((eq_iff order_id order_id).1 refl)

  found_after :
      (f : PaymentOrder → PaymentOrder) (same : (o : PaymentOrder) → (f o).order_id ≡ o.order_id)
      → find (λ o. str_eq o.order_id order_id) (change (λ r. r.id == id) f with_row.orders)
        ≡ some (f row)
  found_after f same =
      find-change _ (λ r. r.id == id) f with_row.orders row (λ o. rw (same o)) here ∙ ground arith

  -- The order that a call keeps: of the user, the product and its amount, with its snapshot.
  pub record IsOrderOf (o : PaymentOrder) : Type 0 where
    pub id_of : o.id ≡ id
    pub user_of : o.user_id ≡ user
    pub provider_of : o.provider ≡ PaymentProvider.tbank
    pub kind_of : o.product_kind ≡ product.kind
    pub product_of : o.product_id ≡ product.id
    pub amount_of : o.amount_kopecks ≡ product.amount_kopecks
    pub order_of : o.order_id ≡ order_id
    pub snapshot_of : o.product_snapshot ≡ product.product_snapshot
    pub expires : o.expires_at ≡ some (now + 30 * 60 * 1000)
    pub not_confirmed : o.confirmed_at ≡ none

  -- The order that the tables hold under its id
  abbrev pub Kept : PaymentOrder → Payments → Type 0
  Kept o t = find (λ r. str_eq r.order_id order_id) t.orders ≡ some o

  pub record Started (r : TbankInit) (t : Result OrderView × Payments) : Type 0 where
    pub order : PaymentOrder
    pub kept : Kept order t.1
    pub of_product : IsOrderOf order
    pub waits : order.status ≡ PaymentOrderStatus.pending
    pub payment : order.provider_payment_id ≡ r.payment_id
    pub url : order.payment_url ≡ r.payment_url
    pub returned :
        (v : OrderView) × (t.0 ≡ ok v)
        × (v.order_id ≡ order_id)
        × (v.payment_id ≡ r.payment_id)
        × (v.payment_url ≡ r.payment_url)
        × (v.status ≡ PaymentOrderStatus.pending)

  pub record Failed (e : ApiError) (t : Result OrderView × Payments) : Type 0 where
    pub order : PaymentOrder
    pub kept : Kept order t.1
    pub of_product : IsOrderOf order
    pub failed : order.status ≡ PaymentOrderStatus.failed
    pub failed_at : order.failed_at ≡ some now
    pub no_payment : order.provider_payment_id ≡ none
    pub thrown : t.0 ≡ err e

  -- By the bank's answer: a payment is started, unless another order has its id already; or the order
  -- fails with what the bank's call threw.
  abbrev pub Opened : Result TbankInit → Result OrderView × Payments → Type 0
  Opened (err e) t = Failed e t
  Opened (ok r) t =
      (count (λ o. not (o.id == id) && has_payment_id r.payment_id o.provider_payment_id)
            with_row.orders
          ≡ 0)
        × Started r t
      ⊎ (0
          < count (λ o. not (o.id == id) && has_payment_id r.payment_id o.provider_payment_id)
              with_row.orders)
        × Failed ApiError.unique_violation t

  fails : (e : ApiError) → Failed e (fail_order row e now with_row)
  unfolding update_order fail_order
  fails e = rw (no_payment_id (failed_open now row) with_row.orders refl) (record {
    order = failed_open now row;
    kept = found_after (failed_open now) (λ o. refl);
    of_product = record {
      id_of = refl;
      user_of = refl;
      provider_of = refl;
      kind_of = refl;
      product_of = refl;
      amount_of = refl;
      order_of = refl;
      snapshot_of = refl;
      expires = refl;
      not_confirmed = refl;
    };
    failed = refl;
    failed_at = refl;
    no_payment = refl;
    thrown = refl;
  })

  answered :
      (answer : Result TbankInit)
      → init product.amount_kopecks order_id ≡ answer
      → Opened answer (open_order init id user product order_id now s)
  unfolding open_order update_order map_order
  answered (err e) h = rw (created, open_order) (rw h (fails e))
  answered (ok r) h =
      rw (created, open_order)
        (rw h (elim (Bool-cases (payment_id_taken (opened r row) with_row.orders)) [
          | inl taken ↦ rw taken (inr (ground (arith, taken), fails ApiError.unique_violation))
          | inr free ↦ rw free (
              inl (
                ground (arith, free),
                record {
                  order = opened r row;
                  kept = found_after (opened r) (λ o. refl);
                  of_product = record {
                    id_of = refl;
                    user_of = refl;
                    provider_of = refl;
                    kind_of = refl;
                    product_of = refl;
                    amount_of = refl;
                    order_of = refl;
                    snapshot_of = refl;
                    expires = refl;
                    not_confirmed = refl;
                  };
                  waits = refl;
                  payment = refl;
                  url = refl;
                  returned = (map_order (opened r row), refl, refl, refl, refl, refl);
                },
              ))
        ]))

  -- An order whose id is new is kept whatever the bank answers, for its user, product and amount, for
  -- thirty minutes. Where the bank starts a payment whose id no other order has, the order waits with the
  -- payment's id and address, and the call returns them. Where the bank refuses, or another order has the
  -- payment's id, the order is kept as failed, and the call throws what the bank's call, or the database,
  -- threw.
  pub open_order-Opened :
      Opened (init product.amount_kopecks order_id) (open_order init id user product order_id now s)
  open_order-Opened = answered (init product.amount_kopecks order_id) refl
