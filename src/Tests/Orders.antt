-- ===== src/Tests/Orders.antt =====
-- Payment orders at concrete inputs.
use frendly.Common.{ℕ, ◌+◌, String, str_eq, none, some, [], ◌∷◌, ◌≡◌, refl, arith, find, ap}
use frendly.Common.Int.{pos}
use frendly.Common.Action.{ApiError, Result, ok, err, Transaction, settling}
use frendly.Catalog.{SubscriptionProduct}
use frendly.Tokens.Money.{Credited}
use frendly.Payments.Tables.{Fields, Tbank, Number, Json, PaymentOrder, OrderView, Payments}
use frendly.Payments.Snapshot.{
  DiscountedPack, token_pack_snapshot, checkout_bundle_snapshot, parse_token_pack_snapshot,
  parse_checkout_bundle_snapshot,
}
use frendly.Payments.Snapshot.RoundTrip.{
  parse_token_pack_snapshot-token_pack_snapshot,
  parse_checkout_bundle_snapshot-checkout_bundle_snapshot,
}
use frendly.Payments.Orders.{
  ConfirmPaymentInput, map_order, confirmed, take_back, confirm_payment_order,
}
use frendly.Payments.Orders.Outcomes.{
  SameTables, Confirmed, confirm_payment_order_twice, confirm_payment_order_mismatch,
}
use frendly.Payments.Orders.Paid.{
  IsPayable, confirm_payment_order-Credited, confirm_payment_order_credited,
}
use frendly.Payments.Bank.{handle_tbank_webhook}
use frendly.Payments.Bank.Notified.{
  Notified, handle_tbank_webhook_unsigned, handle_tbank_webhook-marked,
}
use frendly.Payments.Products.{TbankInit, new_order, opened, token_product, open_order}
use frendly.Payments.Opening.{Opened, open_order-Opened}
use frendly.Tests.Wallets.{no_tokens, no_tokens-IsSound, billing}
use frendly.Tests.Catalogs.{basic_pack}

abbrev to_number : Json → Number
to_number j = Number.not_finite

abbrev pack : DiscountedPack
pack = record { pack = basic_pack; original_price_rub = some 249; discount_percent = 20 }

abbrev the_order : PaymentOrder
the_order = new_order 40 7 (token_product pack) "fr_1" 1000

abbrev no_orders : Payments
no_orders = record { orders = []; billing = billing }

abbrev started : TbankInit
started = record { payment_id = some "91"; payment_url = some "https://pay"; status = some "NEW" }

abbrev one_order : Payments
one_order = record { orders = opened started the_order ∷ []; billing = billing }

abbrev payment : ConfirmPaymentInput
payment = record {
  order_id = "fr_1";
  payment_id = some "91";
  amount_kopecks = Number.integer (pos 19900);
  raw_status = "CONFIRMED";
}

abbrev cheap : ConfirmPaymentInput
cheap = record payment { amount_kopecks = Number.integer (pos 100) }

abbrev payments_tx : Transaction Payments take_back
payments_tx = settling Payments take_back

is_payable : IsPayable payment 2000 one_order (opened started the_order) pack
is_payable = record {
  found = refl;
  amount = refl;
  open_yet = refl;
  free_id = refl;
  of_tokens = refl;
  snapshot = refl;
  named = refl;
  some_tokens = ground arith;
}

confirm_payment_order-Credited_example :
    let r = confirm_payment_order to_number payments_tx payment 2000 one_order in
    (r.0 ≡ ok (map_order (confirmed payment 2000 (opened started the_order))))
    × (find (λ o. str_eq o.order_id "fr_1") r.1.orders
        ≡ some (confirmed payment 2000 (opened started the_order)))
    × Credited 7 (100 + 0) 40 no_tokens r.1.billing.tokens
confirm_payment_order-Credited_example =
    confirm_payment_order-Credited to_number payment 2000 one_order (opened started the_order) pack
      is_payable payments_tx no_tokens-IsSound refl

-- The state after the confirmation, and the one where the bank's notification of a refusal came late.
abbrev after_payment : Payments
after_payment = (confirm_payment_order to_number payments_tx payment 2000 one_order).1

abbrev reopened : Payments
reopened = record after_payment { orders = one_order.orders }

confirm_payment_order_credited_example :
    let r = confirm_payment_order to_number payments_tx payment 3000 reopened in
    (r.0 ≡ err ApiError.unique_violation) × SameTables reopened r.1
confirm_payment_order_credited_example =
    confirm_payment_order_credited to_number payment 3000 reopened (opened started the_order) pack
      (record {
        found = refl;
        amount = refl;
        open_yet = refl;
        free_id = refl;
        of_tokens = refl;
        snapshot = refl;
        named = refl;
        some_tokens = ground arith;
      })
      payments_tx
      (confirm_payment_order-Credited to_number payment 2000 one_order (opened started the_order)
        pack is_payable payments_tx no_tokens-IsSound refl).2.sound
      (confirm_payment_order-Credited to_number payment 2000 one_order (opened started the_order)
        pack is_payable payments_tx no_tokens-IsSound refl).2.recorded

-- What the confirmation returns.
abbrev view : OrderView
view = map_order (confirmed payment 2000 (opened started the_order))

returned :
    confirm_payment_order to_number payments_tx payment 2000 one_order ≡ (ok view, after_payment)
returned =
    ap (λ r. (r, after_payment))
      (confirm_payment_order-Credited to_number payment 2000 one_order (opened started the_order)
        pack is_payable payments_tx no_tokens-IsSound refl).0

confirm_payment_order_twice_example :
    Confirmed payment after_payment view
    × (confirm_payment_order to_number payments_tx payment 3000 after_payment
        ≡ (ok view, after_payment))
confirm_payment_order_twice_example =
    confirm_payment_order_twice to_number payments_tx payment 2000 3000 one_order after_payment view
      returned

confirm_payment_order_mismatch_example :
    let r = confirm_payment_order to_number payments_tx cheap 2000 one_order in
    ((e : ApiError) × (r.0 ≡ err e)) × SameTables one_order r.1
confirm_payment_order_mismatch_example =
    confirm_payment_order_mismatch to_number payments_tx cheap 2000 one_order
      (opened started the_order) refl refl

parse_token_pack_snapshot-token_pack_snapshot_example :
    parse_token_pack_snapshot to_number (some (token_pack_snapshot pack))
    ≡ some (record { pack_id = "p1"; tokens = 100; bonus = 0 })
parse_token_pack_snapshot-token_pack_snapshot_example =
    parse_token_pack_snapshot-token_pack_snapshot to_number pack refl (ground arith)

abbrev month : SubscriptionProduct
month = record {
  id = "month";
  label = "Месячный";
  description = "Frendly+ на месяц";
  amount_kopecks = 79900;
  price_rub = 799;
  price_monthly_rub = 799;
  token_cost = 799;
  token_monthly_cost = 799;
  trial_days = 0;
  duration_days = 30;
  badge = none;
  benefits = [];
}

parse_checkout_bundle_snapshot-checkout_bundle_snapshot_example :
    (parse_checkout_bundle_snapshot to_number (some (checkout_bundle_snapshot month (some pack)))
      ≡ some (some (record { pack_id = "p1"; tokens = 100; bonus = 0 })))
    × (parse_checkout_bundle_snapshot to_number (some (checkout_bundle_snapshot month none))
        ≡ some none)
parse_checkout_bundle_snapshot-checkout_bundle_snapshot_example =
    parse_checkout_bundle_snapshot-checkout_bundle_snapshot to_number month pack refl (ground arith)

abbrev answers : ℕ → String → Result TbankInit
answers amount order = ok started

abbrev refuses : ℕ → String → Result TbankInit
refuses amount order = err ApiError.payment_not_initialized

open_order-Opened_example :
    Opened answers 40 7
      (token_product pack)
      "fr_1"
      1000
      no_orders
      refl
      (ok started)
      (open_order answers 40 7 (token_product pack) "fr_1" 1000 no_orders)
open_order-Opened_example =
    open_order-Opened answers 40 7 (token_product pack) "fr_1" 1000 no_orders refl

failed_opening :
    Opened refuses 40 7
      (token_product pack)
      "fr_1"
      1000
      no_orders
      refl
      (err ApiError.payment_not_initialized)
      (open_order refuses 40 7 (token_product pack) "fr_1" 1000 no_orders)
failed_opening = open_order-Opened refuses 40 7 (token_product pack) "fr_1" 1000 no_orders refl

abbrev bank : Tbank
bank = record {
  terminal_key = "T";
  build_token = λ body. "signature";
  get_state = λ id. err ApiError.payment_not_initialized;
}

abbrev notification : String → Fields
notification token = Fields.field "TerminalKey" (Json.text "T") (
    Fields.field "Token" (Json.text token) (
      Fields.field "OrderId" (Json.text "fr_1") (
        Fields.field "Status" (Json.text "REJECTED")
          (Fields.field "Amount" (Json.number (Number.integer (pos 19900))) Fields.no_fields))))

abbrev paid_order : PaymentOrder
paid_order = confirmed payment 2000 (opened started the_order)

abbrev paid_orders : Payments
paid_orders = record one_order { orders = paid_order ∷ [] }

handle_tbank_webhook_unsigned_example :
    (e : ApiError) × (handle_tbank_webhook to_number payments_tx bank
        (notification "guess")
        3000
        paid_orders
      ≡ (err e, paid_orders))
handle_tbank_webhook_unsigned_example =
    handle_tbank_webhook_unsigned to_number payments_tx bank (notification "guess") 3000 paid_orders
      refl

handle_tbank_webhook-marked_example :
    let r =
      handle_tbank_webhook to_number payments_tx bank (notification "signature") 3000 paid_orders in
    (r.0 ≡ ok "OK")
    × (r.1.billing ≡ paid_orders.billing)
    × ((x : PaymentOrder) × (find (λ o. str_eq o.order_id "fr_1") r.1.orders ≡ some x)
        × Notified "REJECTED" 3000 paid_order x)
handle_tbank_webhook-marked_example =
    handle_tbank_webhook-marked to_number payments_tx bank (notification "signature") 3000
      paid_orders paid_order refl refl refl refl refl refl refl refl
