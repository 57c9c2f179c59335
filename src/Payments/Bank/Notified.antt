-- ===== src/Payments/Bank/Notified.antt =====
-- What a notification of the bank does to an order: `handleTbankWebhook`
-- (backend/apps/api/src/services/payments.service.ts).
use frendly.Common.{
  ℕ, ◌==◌, true, false, String, str_eq, eq_iff, ◌≢◌, some, find, ◌≡◌, refl, arith, ◌∙◌, Bool-cases,
  inl, inr,
}
use frendly.Common.Text.{is_empty}
use frendly.Common.Action.{ApiError, ok, err, Transaction}
use frendly.Tokens.Money.{find-change}
use frendly.Payments.Tables.{
  Number, Json, Fields, get_field, PaymentOrderStatus, PaymentOrder, Payments, Tbank,
}
use frendly.Payments.Snapshot.{text_of, number_of}
use frendly.Payments.Orders.{
  take_back, find_order, update_order, marked, payment_id_taken, map_tbank_status,
  mark_payment_status,
}
use frendly.Payments.Bank.{take_notification, handle_tbank_webhook, is_finite}

-- What the bank's words mean for an order.
abbrev pub Means : String → PaymentOrderStatus → Type 0
Means word status =
    (word ≡ "CONFIRMED" → status ≡ PaymentOrderStatus.confirmed)
    × (word ≡ "DEADLINE_EXPIRED" → status ≡ PaymentOrderStatus.expired)
    × (word ≡ "CANCELED" → status ≡ PaymentOrderStatus.canceled)
    × (word ≡ "REJECTED" → status ≡ PaymentOrderStatus.failed)
    × (word ≡ "REFUNDED" → status ≡ PaymentOrderStatus.failed)
    × (word ≡ "PARTIAL_REFUNDED" → status ≡ PaymentOrderStatus.failed)
    × (word ≢ "CONFIRMED"
        → word ≢ "DEADLINE_EXPIRED"
        → word ≢ "CANCELED"
        → word ≢ "REJECTED"
        → word ≢ "REFUNDED"
        → word ≢ "PARTIAL_REFUNDED"
        → status ≡ PaymentOrderStatus.pending)

not_equal : (a b : String) → a ≢ b → str_eq a b ≡ false
not_equal a b ne = elim (Bool-cases (str_eq a b)) [
  | inl e ↦ absurd (ne ((eq_iff a b).0 e))
  | inr f ↦ f
]

map_tbank_status-Means : (word : String) → Means word (map_tbank_status word)
unfolding map_tbank_status
map_tbank_status-Means word = (
  λ e. rw e refl,
  λ e. rw e refl,
  λ e. rw e refl,
  λ e. rw e refl,
  λ e. rw e refl,
  λ e. rw e refl,
  λ a b c d e f.
      rw
        (
          not_equal word "CONFIRMED" a,
          not_equal word "DEADLINE_EXPIRED" b,
          not_equal word "CANCELED" c,
          not_equal word "REJECTED" d,
          not_equal word "REFUNDED" e,
          not_equal word "PARTIAL_REFUNDED" f,
        )
        refl,
)

-- An order after a notification: what was sold is as it was, and the status is what the word means.
pub record Notified (word : String) (now : ℕ) (o x : PaymentOrder) : Type 0 where
  pub status : Means word x.status
  pub raw : x.raw_status ≡ some word
  pub failed_at :
      (x.status ≡ PaymentOrderStatus.failed → x.failed_at ≡ some now)
      × (x.status ≡ PaymentOrderStatus.pending → x.failed_at ≡ o.failed_at)
  pub id_of : x.id ≡ o.id
  pub user_of : x.user_id ≡ o.user_id
  pub product_of : x.product_id ≡ o.product_id
  pub amount_of : x.amount_kopecks ≡ o.amount_kopecks
  pub payment_of : x.provider_payment_id ≡ o.provider_payment_id
  pub confirmed_of : x.confirmed_at ≡ o.confirmed_at

marked-Notified :
    (word : String) (now : ℕ) (o : PaymentOrder)
    → Notified word now o (marked (map_tbank_status word) (some word) now o)
marked-Notified word now o = record {
  status = map_tbank_status-Means word;
  raw = refl;
  failed_at = ((λ e. rw e refl), (λ e. rw e refl));
  id_of = refl;
  user_of = refl;
  product_of = refl;
  amount_of = refl;
  payment_of = refl;
  confirmed_of = refl;
}

module _ (to_number : Json → Number) (tx : Transaction Payments take_back) (tbank : Tbank)
    (body : Fields) (now : ℕ) (s : Payments) where
  -- A notification that is not signed with the terminal's key and password is refused, and changes
  -- nothing.
  pub handle_tbank_webhook_unsigned :
      str_eq (text_of (get_field "Token" body)) (tbank.build_token body) ≡ false
      → (e : ApiError) × (handle_tbank_webhook to_number tx tbank body now s ≡ (err e, s))
  unfolding handle_tbank_webhook
  handle_tbank_webhook_unsigned unsigned =
      elim (Bool-cases (str_eq (text_of (get_field "TerminalKey" body)) tbank.terminal_key)) [
        | inl here ↦ elim (Bool-cases (is_empty (text_of (get_field "Token" body)))) [
          | inl no_token ↦
              (ApiError.tbank_invalid_token, rw (here, handle_tbank_webhook) (rw no_token))
          | inr some_token ↦ (
            ApiError.tbank_invalid_token,
            rw (here, handle_tbank_webhook) (rw (some_token, unsigned)),
          )
        ]
        | inr elsewhere ↦ (ApiError.tbank_terminal_mismatch, rw (elsewhere, handle_tbank_webhook))
      ]

  -- A signed notification for an order that is there, of any status but CONFIRMED, whose write breaks no
  -- unique column, is taken: the order has the status that the bank's word means, whatever its status was
  -- before, also if it was confirmed. A failure has its time, and the order's owner, product, amount,
  -- payment and time of confirmation stay, and so do the subscriptions, wallets and rewards.
  pub handle_tbank_webhook-marked :
      (o : PaymentOrder)
      → str_eq (text_of (get_field "TerminalKey" body)) tbank.terminal_key ≡ true
      → is_empty (text_of (get_field "Token" body)) ≡ false
      → str_eq (text_of (get_field "Token" body)) (tbank.build_token body) ≡ true
      → is_empty (text_of (get_field "OrderId" body)) ≡ false
      → is_finite (number_of to_number (get_field "Amount" body)) ≡ true
      → str_eq (text_of (get_field "Status" body)) "CONFIRMED" ≡ false
      → find (λ r. str_eq r.order_id (text_of (get_field "OrderId" body))) s.orders ≡ some o
      → let status = text_of (get_field "Status" body) in
        payment_id_taken (marked (map_tbank_status status) (some status) now o) s.orders ≡ false
        → let r = handle_tbank_webhook to_number tx tbank body now s in
          (r.0 ≡ ok "OK")
          × (r.1.billing ≡ s.billing)
          × ((x : PaymentOrder) × (find
                  (λ r. str_eq r.order_id (text_of (get_field "OrderId" body)))
                  r.1.orders
                ≡ some x)
              × Notified status now o x)
  unfolding handle_tbank_webhook take_notification mark_payment_status find_order update_order
  handle_tbank_webhook-marked o here some_token signed some_order finite other found free =
      rw (here, handle_tbank_webhook)
        (rw (some_token, signed)
          (rw (some_order, finite)
            (rw (other) (
              rw found (
                rw free (
                  refl,
                  refl,
                  (
                    _,
                    find-change _ (λ r. r.id == o.id) _ s.orders o (λ x. refl) found ∙ ground arith,
                    marked-Notified (text_of (get_field "Status" body)) now o,
                  ),
                ))))))
