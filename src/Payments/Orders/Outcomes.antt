-- ===== src/Payments/Orders/Outcomes.antt =====
-- How `confirmPaymentOrder` ends (backend/apps/api/src/services/payments.service.ts): a call that throws
-- changes no table, and a call that returned can be repeated.
use frendly.Common.{
  ℕ, ◌==◌, true, false, str_eq, some, find, change, ◌≡◌, refl, arith, sym, ap, ◌∙◌, Bool-cases,
  Option-cases, inl, inr,
}
use frendly.Common.Action.{ApiError, Result, ok, err, then_do, pure, settle, Transaction}
use frendly.Subscription.{Billing}
use frendly.Tokens.Money.{find-change}
use frendly.Payments.Tables.{Number, Json, PaymentOrder, OrderView, Payments}
use frendly.Payments.Orders.{
  ConfirmPaymentInput, confirm, confirm_found, confirm_new, refuse_amount, confirmed, mismatched,
  update_order, find_order, map_order, is_confirmed, is_amount, payment_id_taken, with_billing,
  take_back, confirm_payment_order,
}

-- The tables of a state, without the caches.
pub record SameTables (s s' : Payments) : Type 0 where
  pub orders : s'.orders ≡ s.orders
  pub subscriptions : s'.billing.subscriptions ≡ s.billing.subscriptions
  pub wallets : s'.billing.tokens.wallets ≡ s.billing.tokens.wallets
  pub entries : s'.billing.tokens.entries ≡ s.billing.tokens.entries
  pub rewards : s'.billing.tokens.drops.rewards ≡ s.billing.tokens.drops.rewards
  pub tickets : s'.billing.tokens.drops.tickets ≡ s.billing.tokens.drops.tickets

taken_back : (s t : Payments) → SameTables s (take_back s t)
taken_back s t = record {
  orders = refl;
  subscriptions = refl;
  wallets = refl;
  entries = refl;
  rewards = refl;
  tickets = refl;
}

settled_err :
    {A : Type 0} (s : Payments) (r : Result A × Payments) (e : ApiError)
    → (settle take_back s r).0 ≡ err e
    → SameTables s (settle take_back s r).1
settled_err s (ok a, t) e h = cc
settled_err s (err e', t) e h = taken_back s t

module _ (to_number : Json → Number) (tx : Transaction Payments take_back) where
  -- A confirmation that throws changes no table: neither the order, nor the subscriptions, nor the wallets
  -- and their ledger, nor the rewards and their tickets.
  pub confirm_payment_order_refused :
      (input : ConfirmPaymentInput) (now : ℕ) (s : Payments) (e : ApiError)
      → (confirm_payment_order to_number tx input now s).0 ≡ err e
      → SameTables s (confirm_payment_order to_number tx input now s).1
  unfolding confirm_payment_order
  confirm_payment_order_refused input now s e h =
      rw (tx.run_settles OrderView (confirm to_number input now) s) (
        settled_err s (confirm to_number input now s) e
          (sym (ap (λ r. r.0) (tx.run_settles OrderView (confirm to_number input now) s)) ∙ h))

module _ (to_number : Json → Number) (o : PaymentOrder) (input : ConfirmPaymentInput) (now : ℕ)
    (s : Payments) where
  refuse_amount_throws : (e : ApiError) × ((refuse_amount to_number o input now s).0 ≡ err e)
  unfolding refuse_amount update_order
  refuse_amount_throws = elim (Bool-cases (payment_id_taken (mismatched input now o) s.orders)) [
    | inl t ↦ (ApiError.unique_violation, rw (t, refuse_amount))
    | inr f ↦ (ApiError.payment_amount_mismatch, rw (f, refuse_amount))
  ]

  -- What a new confirmation that returns has done with the orders.
  pub confirm_new_returned :
      (v : OrderView) (s' : Payments)
      → confirm_new to_number o input now s ≡ (ok v, s')
      → (s'.orders ≡ change (λ r. r.id == o.id) (confirmed input now) s.orders)
        × (v ≡ map_order (confirmed input now o))
  unfolding confirm_new update_order
  confirm_new_returned v s' h =
      elim (Bool-cases (payment_id_taken (confirmed input now o) s.orders)) [
        | inl t ↦ let refused = rw (t, confirm_new) at h in cc
        | inr f ↦ let delivered = rw (f, confirm_new) at h in ended _ delivered
      ]
    where
      ended :
          (r : Result (Unit {0}) × Billing)
          → then_do
              (λ _. pure (map_order (confirmed input now o)))
              (
                r.0,
                with_billing
                    (record s {
                      orders = change (λ r. r.id == o.id) (confirmed input now) s.orders;
                    })
                    r.1,
              )
            ≡ (ok v, s')
          → (s'.orders ≡ change (λ r. r.id == o.id) (confirmed input now) s.orders)
            × (v ≡ map_order (confirmed input now o))
      ended (ok x, b) h = (sym (ap (λ r. r.1.orders) h), cc)
      ended (err e, b) h = cc

-- A confirmation that returned has the order of its id, with the amount, which it left confirmed.
pub record Confirmed (input : ConfirmPaymentInput) (s' : Payments) (v : OrderView) : Type 0 where
  pub order : PaymentOrder
  pub found : find (λ o. str_eq o.order_id input.order_id) s'.orders ≡ some order
  pub amount : is_amount input.amount_kopecks order.amount_kopecks ≡ true
  pub is_confirmed : is_confirmed order.status ≡ true
  pub view : v ≡ map_order order

module _ (to_number : Json → Number) (input : ConfirmPaymentInput) where
  confirm_found-Confirmed :
      (o : PaymentOrder) (now : ℕ) (s s' : Payments) (v : OrderView)
      → find (λ r. str_eq r.order_id input.order_id) s.orders ≡ some o
      → confirm_found to_number o input now s ≡ (ok v, s')
      → Confirmed input s' v
  unfolding confirm_found
  confirm_found-Confirmed o now s s' v found h =
      elim (Bool-cases (is_amount input.amount_kopecks o.amount_kopecks)) [
        | inl amount ↦ elim (Bool-cases (is_confirmed o.status)) [
          | inl old ↦
              let r = rw (amount, old, confirm_found) at h in
              record {
                order = o;
                found = rw (sym (ap (λ r. r.1.orders) r)) found;
                amount = amount;
                is_confirmed = old;
                view = cc;
              }
          | inr new ↦
              let r =
                confirm_new_returned to_number o input now s v s'
                  (rw (amount, new, confirm_found) at h) in
              record {
                order = confirmed input now o;
                found = rw r.0 (
                    find-change _ (λ x. x.id == o.id) (confirmed input now) s.orders o (λ x. refl)
                      found
                    ∙ ground arith);
                amount = amount;
                is_confirmed = refl;
                view = r.1;
              }
        ]
        | inr differs ↦
            let (e, throws) = refuse_amount_throws to_number o input now s in
            let r = rw (differs, confirm_found) at h in cc
      ]

  confirm-Confirmed :
      (now : ℕ) (s s' : Payments) (v : OrderView)
      → confirm to_number input now s ≡ (ok v, s')
      → Confirmed input s' v
  unfolding confirm find_order
  confirm-Confirmed now s s' v h =
      elim (Option-cases (find (λ o. str_eq o.order_id input.order_id) s.orders)) [
        | inl none_found ↦ let r = rw (none_found, confirm) at h in cc
        | inr (o, found) ↦ confirm_found-Confirmed o now s s' v found (rw (found, confirm) at h)
      ]

  confirm_again :
      (now : ℕ) (s : Payments) (v : OrderView)
      → Confirmed input s v
      → confirm to_number input now s ≡ (ok v, s)
  unfolding confirm find_order confirm_found
  confirm_again now s v c = rw (c.found, confirm) (rw (c.amount, c.is_confirmed) (rw c.view))

settled_ok :
    {A : Type 0} (s s' : Payments) (r : Result A × Payments) (a : A)
    → settle take_back s r ≡ (ok a, s')
    → r ≡ (ok a, s')
settled_ok s s' (ok b, t) a h = h
settled_ok s s' (err e, t) a h = cc

-- A callback that throws makes the transaction throw the same.
pub settled_throw :
    (s : Payments) (r : Result OrderView × Payments) (e : ApiError)
    → r.0 ≡ err e
    → (settle take_back s r).0 ≡ err e
settled_throw s (ok a, t) e h = cc
settled_throw s (err e', t) e h = h

module _ (to_number : Json → Number) (tx : Transaction Payments take_back) where
  -- A confirmation that returned is confirmed: the order of its id is there, for the same amount and
  -- confirmed, and it is what the call returned. The same confirmation, at any later time, returns the
  -- same and changes nothing.
  pub confirm_payment_order_twice :
      (input : ConfirmPaymentInput) (now later : ℕ) (s s' : Payments) (v : OrderView)
      → confirm_payment_order to_number tx input now s ≡ (ok v, s')
      → Confirmed input s' v × (confirm_payment_order to_number tx input later s' ≡ (ok v, s'))
  unfolding confirm_payment_order
  confirm_payment_order_twice input now later s s' v h =
      let returned =
        settled_ok s s' (confirm to_number input now s) v
          (sym (tx.run_settles OrderView (confirm to_number input now) s) ∙ h) in
      let c = confirm-Confirmed to_number input now s s' v returned in
      (
        c,
        tx.run_settles OrderView (confirm to_number input later) s'
            ∙ ap (settle take_back s') (confirm_again to_number input later s' v c),
      )

  -- A confirmation for another amount throws, and the order keeps its status: the write that marks it
  -- as failed does not outlive the transaction.
  pub confirm_payment_order_mismatch :
      (input : ConfirmPaymentInput) (now : ℕ) (s : Payments) (o : PaymentOrder)
      → find (λ r. str_eq r.order_id input.order_id) s.orders ≡ some o
      → is_amount input.amount_kopecks o.amount_kopecks ≡ false
      → let r = confirm_payment_order to_number tx input now s in
        ((e : ApiError) × (r.0 ≡ err e)) × SameTables s r.1
  unfolding confirm confirm_found find_order confirm_payment_order
  confirm_payment_order_mismatch input now s o found differs =
      let (e, throws) = refuse_amount_throws to_number o input now s in
      let refused : (confirm to_number input now s).0 ≡ err e =
        rw (found, confirm) (rw differs throws) in
      let settled : (confirm_payment_order to_number tx input now s).0 ≡ err e =
        rw (tx.run_settles OrderView (confirm to_number input now) s)
          (settled_throw s (confirm to_number input now s) e refused) in
      ((e, settled), confirm_payment_order_refused to_number tx input now s e settled)
