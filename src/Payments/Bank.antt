-- ===== src/Payments/Bank.antt =====
-- The bank's side of a payment order: `checkPayment` and `handleTbankWebhook`
-- (backend/apps/api/src/services/payments.service.ts).
pub mod Notified
use frendly.Common.{
  ℕ, suc, ◌==◌, Bool, true, false, not, ◌&&◌, ◌||◌, String, str_eq, Option, none, some, List, [],
  ◌∷◌, if◌then◌else◌, find, change, count, ltb,
}
use frendly.Common.Int.{ℤ, pos, negsuc}
use frendly.Common.Text.{is_empty}
use frendly.Common.Action.{
  Action, ApiError, Result, ok, err, pure, gets, ◌>>=◌, ◌>>◌, raise, raise_if, or_raise, modify, on,
  Transaction,
}
use frendly.Tokens.Wallet.{PackInput, credit_purchased_tokens, lift_result}
use frendly.Subscription.{Billing}
use frendly.Subscription.Service.{
  on_tokens, activate_paid_subscription, take_back as take_back_billing,
}
use frendly.Payments.Tables.{
  PaymentOrderStatus, PaymentProductKind, Number, Json, Fields, get_field, PaymentOrder, OrderView,
  Payments, TbankState, Tbank,
}
use frendly.Payments.Snapshot.{
  PackSnapshot, whole, text_of, number_of, parse_token_pack_snapshot,
  parse_checkout_bundle_snapshot,
}
use frendly.Payments.Orders.{
  ConfirmPaymentInput, map_tbank_status, map_order, is_confirmed, is_pending, is_amount, or_old,
  find_order, mark_payment_status, take_back, confirm_payment_order,
}

abbrev pub is_finite : Number → Bool
is_finite (Number.integer n) = true
is_finite Number.fraction = true
is_finite Number.not_finite = false

-- `typeof value === 'string' ? value : null`
abbrev pub text_or_none : Option Json → Option String
text_or_none none = none
text_or_none (some (Json.text s)) = some s
text_or_none (some Json.null) = none
text_or_none (some (Json.boolean b)) = none
text_or_none (some (Json.number n)) = none
text_or_none (some (Json.array xs)) = none
text_or_none (some (Json.object o)) = none

abbrev pub or_empty : Option String → String
or_empty none = ""
or_empty (some s) = s

-- `fresh ?? order`
abbrev pub fresh_or : Option PaymentOrder → PaymentOrder → PaymentOrder
fresh_or none o = o
fresh_or (some fresh) o = fresh

abbrev pub of_user : ℕ → Option PaymentOrder → Option PaymentOrder
of_user user none = none
of_user user (some o) = if o.user_id == user then some o else none

-- `!order.providerPaymentId`: an empty text is no id.
abbrev pub some_text : Option String → Option String
some_text none = none
some_text (some s) = if is_empty s then none else some s

module _ (to_number : Json → Number) (tx : Transaction Payments take_back) (tbank : Tbank) where
  -- `handleTbankWebhook`, from its guards on
  unfoldable pub take_notification :
      String → String → Option String → Number → ℕ → Action Payments String
  take_notification order_id status payment_id amount now =
      let input : ConfirmPaymentInput = record {
        order_id = order_id;
        payment_id = payment_id;
        amount_kopecks = amount;
        raw_status = status;
      } in
      if str_eq status "CONFIRMED"
      then confirm_payment_order to_number tx input now >> pure "OK"
      else (mark_payment_status order_id (map_tbank_status status) (some status) now >> pure "OK")

  unfoldable pub handle_tbank_webhook : Fields → ℕ → Action Payments String
  handle_tbank_webhook body now = do
    raise_if (not (str_eq (text_of (get_field "TerminalKey" body)) tbank.terminal_key))
        ApiError.tbank_terminal_mismatch
    raise_if
        (is_empty (text_of (get_field "Token" body))
          || not (str_eq (text_of (get_field "Token" body)) (tbank.build_token body)))
        ApiError.tbank_invalid_token
    raise_if
        (is_empty (text_of (get_field "OrderId" body))
          || not (is_finite (number_of to_number (get_field "Amount" body))))
        ApiError.tbank_invalid_payload
    take_notification (text_of (get_field "OrderId" body)) (text_of (get_field "Status" body))
        (text_or_none (get_field "PaymentId" body)) (number_of to_number (get_field "Amount" body))
        now

  -- `Number(state.Amount ?? order.amountKopecks)`
  abbrev pub stated_amount : Option Json → PaymentOrder → Number
  stated_amount none o = Number.integer (pos o.amount_kopecks)
  stated_amount (some Json.null) o = Number.integer (pos o.amount_kopecks)
  stated_amount (some (Json.number n)) o = n
  stated_amount (some (Json.boolean b)) o = number_of to_number (some (Json.boolean b))
  stated_amount (some (Json.text s)) o = to_number (Json.text s)
  stated_amount (some (Json.array xs)) o = to_number (Json.array xs)
  stated_amount (some (Json.object f)) o = to_number (Json.object f)

  -- The status is written unless the bank still waits.
  unfoldable pub mark_unless_pending : PaymentOrder → TbankState → ℕ → Action Payments (Unit {0})
  mark_unless_pending o state now =
      let status = map_tbank_status (or_empty state.status) in
      if is_pending status
      then pure tt
      else (mark_payment_status o.order_id status state.status now >> pure tt)

  -- `checkPayment`, with the bank's answer
  unfoldable pub check_state : PaymentOrder → String → TbankState → ℕ → Action Payments OrderView
  check_state o payment_id state now =
      let amount = stated_amount state.amount o in
      let input : ConfirmPaymentInput = record {
        order_id = o.order_id;
        payment_id = or_old state.payment_id (some payment_id);
        amount_kopecks = amount;
        raw_status = or_empty state.status;
      } in
      if not (is_amount amount o.amount_kopecks)
      then (mark_payment_status o.order_id PaymentOrderStatus.failed state.status now
          >> raise ApiError.payment_amount_mismatch)
      else (if str_eq (or_empty state.status) "CONFIRMED"
          then confirm_payment_order to_number tx input now
          else (do
            mark_unless_pending o state now
            fresh ← find_order o.order_id
            pure (map_order (fresh_or fresh o))))

  abbrev pub ask_bank : PaymentOrder → ℕ → Action Payments OrderView
  ask_bank o now = do
    payment_id ← or_raise (some_text o.provider_payment_id) ApiError.payment_not_initialized
    state ← lift_result (tbank.get_state payment_id)
    check_state o payment_id state now

  unfoldable pub check_payment : ℕ → String → ℕ → Action Payments OrderView
  check_payment user order_id now = do
    found ← find_order order_id
    o ← or_raise (of_user user found) ApiError.payment_order_not_found
    (if is_confirmed o.status then pure (map_order o) else ask_bank o now)
