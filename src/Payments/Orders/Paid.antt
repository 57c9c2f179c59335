-- ===== src/Payments/Orders/Paid.antt =====
-- What a confirmed order of tokens gives, from the snapshot of its pack to the wallet
-- (backend/apps/api/src/services/payments.service.ts and tokens.service.ts).
use frendly.Common.{
  ℕ, ◌+◌, ◌<◌, ◌==◌, true, false, str_eq, some, find, change, ◌≡◌, refl, arith, ap, ◌∙◌,
}
use frendly.Common.Text.{is_empty}
use frendly.Common.Action.{ApiError, Result, ok, err, then_do, pure, settle, Transaction}
use frendly.Tokens.Tables.{Tokens}
use frendly.Tokens.Wallet.{credit_purchased_tokens, credit_tokens, pack_tokens}
use frendly.Tokens.Ledger.{IsSound, entries_of_order}
use frendly.Tokens.Money.{Credited, credit_tokens-Credited, credit_tokens_again, find-change}
use frendly.Payments.Tables.{PaymentProductKind, Number, Json, PaymentOrder, OrderView, Payments}
use frendly.Payments.Snapshot.{DiscountedPack, token_pack_snapshot}
use frendly.Payments.Snapshot.RoundTrip.{parse_token_pack_snapshot-token_pack_snapshot}
use frendly.Payments.Orders.{
  ConfirmPaymentInput, confirm, confirm_found, confirm_new, confirmed, deliver, update_order,
  find_order, map_order, is_confirmed, is_amount, payment_id_taken, take_back,
  confirm_payment_order,
}
use frendly.Payments.Orders.Outcomes.{SameTables, settled_throw, confirm_payment_order_refused}

-- An order of tokens that can be confirmed: it is there, for the amount, not confirmed yet, the payment's
-- id is free, and it keeps the snapshot of a pack.
pub record IsPayable (input : ConfirmPaymentInput) (now : ℕ) (s : Payments) (o : PaymentOrder)
    (p : DiscountedPack) : Type 0 where
  pub found : find (λ r. str_eq r.order_id input.order_id) s.orders ≡ some o
  pub amount : is_amount input.amount_kopecks o.amount_kopecks ≡ true
  pub open_yet : is_confirmed o.status ≡ false
  pub free_id : payment_id_taken (confirmed input now o) s.orders ≡ false
  pub of_tokens : o.product_kind ≡ PaymentProductKind.tokens
  pub snapshot : o.product_snapshot ≡ some (token_pack_snapshot p)
  pub named : is_empty p.pack.id ≡ false
  pub some_tokens : 0 < p.pack.tokens

module _ (to_number : Json → Number) (input : ConfirmPaymentInput) (now : ℕ) (s : Payments)
    (o : PaymentOrder) (p : DiscountedPack) (h : IsPayable input now s o p) where
  abbrev credit : Result (Unit {0}) × Tokens
  credit = credit_tokens o.user_id (p.pack.tokens + p.pack.bonus) o.id now s.billing.tokens

  delivered :
      deliver to_number o.product_kind o now s.billing
      ≡ (credit.0, record s.billing { tokens = credit.1 })
  unfolding deliver credit_purchased_tokens pack_tokens
  delivered =
      rw (h.of_tokens, deliver)
        (rw (
          h.snapshot,
          parse_token_pack_snapshot-token_pack_snapshot to_number p h.named h.some_tokens,
        ))

  confirm_settles :
      confirm to_number input now s
      ≡ then_do
          (λ _. pure (map_order (confirmed input now o)))
          (
            credit.0,
            record s {
              orders = change (λ r. r.id == o.id) (confirmed input now) s.orders;
              billing = record s.billing { tokens = credit.1 };
            },
          )
  unfolding confirm find_order confirm_found confirm_new update_order
  confirm_settles = rw (h.found, confirm) (rw (h.amount, h.open_yet) (rw h.free_id (rw delivered)))

  delivered_ok :
      credit.0 ≡ ok tt
      → confirm to_number input now s ≡ (
        ok (map_order (confirmed input now o)),
        record s {
          orders = change (λ r. r.id == o.id) (confirmed input now) s.orders;
          billing = record s.billing { tokens = credit.1 };
        },
      )
  delivered_ok e = confirm_settles ∙ rw e

  delivered_err : (e : ApiError) → credit.0 ≡ err e → (confirm to_number input now s).0 ≡ err e
  delivered_err e t = ap (λ r. r.0) confirm_settles ∙ rw t

  found_again :
      find
        (λ r. str_eq r.order_id input.order_id)
        (change (λ r. r.id == o.id) (confirmed input now) s.orders)
      ≡ some (confirmed input now o)
  found_again =
      find-change (λ r. str_eq r.order_id input.order_id) (λ r. r.id == o.id) (confirmed input now)
        s.orders o (λ x. refl) h.found
      ∙ ground arith

  module _ (tx : Transaction Payments take_back) (sound : IsSound s.billing.tokens) where
    -- From books that agree, an order of tokens that can be confirmed, and that the ledger does
    -- not hold yet, is confirmed and credited: the call returns, the order is confirmed, the
    -- user's balance grows by the tokens and the bonus of the pack in the order's snapshot, the
    -- ledger holds one entry for the order, and the books still agree.
    pub confirm_payment_order-Credited :
        entries_of_order o.id s.billing.tokens.entries ≡ 0
        → let r = confirm_payment_order to_number tx input now s in
          (r.0 ≡ ok (map_order (confirmed input now o)))
          × (find (λ r. str_eq r.order_id input.order_id) r.1.orders ≡ some (confirmed input now o))
          × Credited o.user_id
              (p.pack.tokens + p.pack.bonus)
              o.id
              s.billing.tokens
              r.1.billing.tokens
    unfolding confirm_payment_order
    confirm_payment_order-Credited new =
        let (returned, c) =
          credit_tokens-Credited o.user_id (p.pack.tokens + p.pack.bonus) o.id now s.billing.tokens
            sound new in
        rw
          (tx.run_settles OrderView (confirm to_number input now) s
            ∙ ap (settle take_back s) (delivered_ok returned))
          (refl, found_again, c)

    -- From books that agree, an order of tokens that is not confirmed but otherwise can be, and
    -- that the ledger already holds, is not credited again: the call throws that a unique column
    -- is violated, and changes no table.
    pub confirm_payment_order_credited :
        entries_of_order o.id s.billing.tokens.entries ≡ 1
        → let r = confirm_payment_order to_number tx input now s in
          (r.0 ≡ err ApiError.unique_violation) × SameTables s r.1
    unfolding confirm_payment_order
    confirm_payment_order_credited once =
        let again =
          credit_tokens_again o.user_id (p.pack.tokens + p.pack.bonus) o.id now s.billing.tokens
            sound once in
        let throws : (confirm_payment_order to_number tx input now s).0
            ≡ err ApiError.unique_violation =
          rw (tx.run_settles OrderView (confirm to_number input now) s) (
            settled_throw s (confirm to_number input now s) ApiError.unique_violation
              (delivered_err ApiError.unique_violation again.0)) in
        (
          throws,
          confirm_payment_order_refused to_number tx input now s ApiError.unique_violation throws,
        )
