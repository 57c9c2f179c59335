-- ===== src/Payments/Orders.antt =====
-- The life of a payment order: `confirmPaymentOrder` and `markPaymentStatus`
-- (backend/apps/api/src/services/payments.service.ts). The clock is read once per call. The conversion
-- `Number` of texts (`to_number`) is a parameter.
pub mod Outcomes
pub mod Paid
use frendly.Common.{
  ℕ, suc, ◌==◌, Bool, true, false, not, ◌&&◌, ◌||◌, String, str_eq, Option, none, some, List, [],
  ◌∷◌, if◌then◌else◌, find, change, count, ltb,
}
use frendly.Common.Int.{ℤ, pos, negsuc}
use frendly.Common.Text.{is_empty}
use frendly.Common.Action.{
  Action, ApiError, Result, ok, err, pure, gets, ◌>>=◌, ◌>>◌, raise, raise_if, or_raise, modify, on,
  Transaction,
}
use frendly.Tokens.Wallet.{PackInput, credit_purchased_tokens, lift_result}
use frendly.Subscription.{Billing}
use frendly.Subscription.Service.{
  on_tokens, activate_paid_subscription, take_back as take_back_billing,
}
use frendly.Payments.Tables.{
  PaymentOrderStatus, PaymentProductKind, Number, Json, Fields, get_field, PaymentOrder, OrderView,
  Payments, TbankState, Tbank,
}
use frendly.Payments.Snapshot.{
  PackSnapshot, whole, text_of, number_of, parse_token_pack_snapshot,
  parse_checkout_bundle_snapshot,
}

-- The argument of `confirmPaymentOrder`.
pub record ConfirmPaymentInput : Type 0 where
  pub order_id : String
  pub payment_id : Option String
  pub amount_kopecks : Number
  pub raw_status : String

unfoldable pub map_tbank_status : String → PaymentOrderStatus
map_tbank_status status =
    if str_eq status "CONFIRMED"
    then PaymentOrderStatus.confirmed
    else (if str_eq status "DEADLINE_EXPIRED"
        then PaymentOrderStatus.expired
        else (if str_eq status "CANCELED"
            then PaymentOrderStatus.canceled
            else (if str_eq status "REJECTED"
                  || str_eq status "REFUNDED"
                  || str_eq status "PARTIAL_REFUNDED"
                then PaymentOrderStatus.failed
                else PaymentOrderStatus.pending)))

unfoldable pub map_order : PaymentOrder → OrderView
map_order o = record {
  order_id = o.order_id;
  payment_id = o.provider_payment_id;
  payment_url = o.payment_url;
  status = o.status;
  product_kind = o.product_kind;
  product_id = o.product_id;
}

abbrev pub is_confirmed : PaymentOrderStatus → Bool
is_confirmed PaymentOrderStatus.confirmed = true
is_confirmed PaymentOrderStatus.pending = false
is_confirmed PaymentOrderStatus.failed = false
is_confirmed PaymentOrderStatus.expired = false
is_confirmed PaymentOrderStatus.canceled = false

abbrev pub is_pending : PaymentOrderStatus → Bool
is_pending PaymentOrderStatus.pending = true
is_pending PaymentOrderStatus.confirmed = false
is_pending PaymentOrderStatus.failed = false
is_pending PaymentOrderStatus.expired = false
is_pending PaymentOrderStatus.canceled = false

abbrev pub is_amount : Number → ℕ → Bool
is_amount (Number.integer (pos n)) amount = n == amount
is_amount (Number.integer (negsuc n)) amount = false
is_amount Number.fraction amount = false
is_amount Number.not_finite amount = false

abbrev pub or_old : {A : Type 0} → Option A → Option A → Option A
or_old none old = old
or_old (some a) old = some a

-- `paymentOrder.findUnique({ where: { orderId } })`
unfoldable pub find_order : String → Action Payments (Option PaymentOrder)
find_order order_id = gets (λ s. find (λ o. str_eq o.order_id order_id) s.orders)

-- The column `providerPaymentId` is unique.
abbrev pub has_payment_id : Option String → Option String → Bool
has_payment_id none id = false
has_payment_id (some p) none = false
has_payment_id (some p) (some id) = str_eq p id

abbrev pub payment_id_taken : PaymentOrder → List PaymentOrder → Bool
payment_id_taken row orders = ltb 0 (
    count
      (λ o. not (o.id == row.id) && has_payment_id row.provider_payment_id o.provider_payment_id)
      orders)

-- `paymentOrder.update` of a row that was read
unfoldable pub update_order :
    PaymentOrder → (PaymentOrder → PaymentOrder) → Action Payments PaymentOrder
update_order o f s =
    if payment_id_taken (f o) s.orders
    then (err ApiError.unique_violation, s)
    else (ok (f o), record s { orders = change (λ r. r.id == o.id) f s.orders })

abbrev pub is_closed : PaymentOrderStatus → Bool
is_closed PaymentOrderStatus.failed = true
is_closed PaymentOrderStatus.expired = true
is_closed PaymentOrderStatus.canceled = true
is_closed PaymentOrderStatus.pending = false
is_closed PaymentOrderStatus.confirmed = false

-- A column whose new value is `undefined` is left as it is.
abbrev pub marked : PaymentOrderStatus → Option String → ℕ → PaymentOrder → PaymentOrder
marked status raw_status now o = record o {
  status = status;
  failed_at = if is_closed status then some now else o.failed_at;
  raw_status = or_old raw_status o.raw_status;
}

-- `markPaymentStatus`
unfoldable pub mark_payment_status :
    String → PaymentOrderStatus → Option String → ℕ → Action Payments PaymentOrder
mark_payment_status order_id status raw_status now = do
  found ← find_order order_id
  o ← or_raise found ApiError.record_missing
  update_order o (marked status raw_status now)

abbrev pub mismatched : ConfirmPaymentInput → ℕ → PaymentOrder → PaymentOrder
mismatched input now o = record o {
  status = PaymentOrderStatus.failed;
  failed_at = some now;
  raw_status = some input.raw_status;
}

abbrev pub confirmed : ConfirmPaymentInput → ℕ → PaymentOrder → PaymentOrder
confirmed input now o = record o {
  status = PaymentOrderStatus.confirmed;
  confirmed_at = some now;
  provider_payment_id = or_old input.payment_id o.provider_payment_id;
  raw_status = some input.raw_status;
}

abbrev pub with_billing : Payments → Billing → Payments
with_billing s b = record s { billing = b }

abbrev pub on_billing : {A : Type 0} → Action Billing A → Action Payments A
on_billing m = on (λ s. s.billing) with_billing m

abbrev pub input_of : PackSnapshot → PackInput
input_of p = PackInput.of_pack p.pack_id p.tokens p.bonus

abbrev pub pack_or_id : Option PackSnapshot → String → PackInput
pack_or_id none product_id = PackInput.of_id product_id
pack_or_id (some p) product_id = input_of p

-- `bundle?.tokenPack`
abbrev pub pack_of_bundle : Option (Option PackSnapshot) → Option PackSnapshot
pack_of_bundle none = none
pack_of_bundle (some pack) = pack

abbrev pub credit_pack : Option PackSnapshot → ℕ → ℕ → ℕ → Action Billing (Unit {0})
credit_pack none user order now = pure tt
credit_pack (some p) user order now =
    on_tokens (credit_purchased_tokens user (input_of p) order now)

-- A rollback takes back the tables; the caches are not in the database.
abbrev pub take_back : Payments → Payments → Payments
take_back before at_throw = record before {
  billing = take_back_billing before.billing at_throw.billing;
}

module _ (to_number : Json → Number) where
  -- What a confirmed order gives, by the kind of its product.
  unfoldable pub deliver : PaymentProductKind → PaymentOrder → ℕ → Action Billing (Unit {0})
  deliver PaymentProductKind.subscription o now = do
    activate_paid_subscription o.user_id o.product_id (some o.id) now
    credit_pack (pack_of_bundle (parse_checkout_bundle_snapshot to_number o.product_snapshot))
        o.user_id o.id now
  deliver PaymentProductKind.tokens o now = on_tokens (
      credit_purchased_tokens o.user_id
        (pack_or_id (parse_token_pack_snapshot to_number o.product_snapshot) o.product_id) o.id now)

  unfoldable pub confirm_new : PaymentOrder → ConfirmPaymentInput → ℕ → Action Payments OrderView
  confirm_new o input now = do
    row ← update_order o (confirmed input now)
    on_billing (deliver o.product_kind o now)
    pure (map_order row)

  -- The amounts differ: the order is marked, and the call throws.
  unfoldable pub refuse_amount : PaymentOrder → ConfirmPaymentInput → ℕ → Action Payments OrderView
  refuse_amount o input now = do
    update_order o (mismatched input now)
    raise ApiError.payment_amount_mismatch

  unfoldable pub confirm_found : PaymentOrder → ConfirmPaymentInput → ℕ → Action Payments OrderView
  confirm_found o input now s =
      if not (is_amount input.amount_kopecks o.amount_kopecks)
      then refuse_amount o input now s
      else (if is_confirmed o.status then (ok (map_order o), s) else confirm_new o input now s)

  -- The callback of the transaction of `confirmPaymentOrder`.
  unfoldable pub confirm : ConfirmPaymentInput → ℕ → Action Payments OrderView
  confirm input now = do
    found ← find_order input.order_id
    o ← or_raise found ApiError.payment_order_not_found
    confirm_found o input now

  module _ (tx : Transaction Payments take_back) where
    unfoldable pub confirm_payment_order : ConfirmPaymentInput → ℕ → Action Payments OrderView
    confirm_payment_order input now = tx.run OrderView (confirm input now)
