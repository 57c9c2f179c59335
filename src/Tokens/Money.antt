-- ===== src/Tokens/Money.antt =====
-- Crediting and spending tokens, on every branch (backend/apps/api/src/services/tokens.service.ts).
use frendly.Common.{
  ℕ, ◌==◌, Bool, true, false, some, List, [], ◌∷◌, if◌then◌else◌, find, change, count-append, ◌≡◌,
  refl, arith, Bool-cases, inl, inr,
}
use frendly.Common.Int.{pos, ◌+ℤ◌, int_laws, +ℤ_parts}
use frendly.Common.Action.{ApiError, ok, err}
use frendly.Tokens.Tables.{TokenLedgerReason, Tokens}
use frendly.Tokens.Wallet.{
  create_entry, increment_balance, credited, is_order, order_taken, clear_wallet_cache,
  credit_tokens,
}
use frendly.Tokens.Ledger.{
  IsSound, Ensured, ensured, balance_of, entries_of_order, posted, posted-IsSound,
}

pub recached : (user : ℕ) (s : Tokens) → IsSound s → IsSound (clear_wallet_cache user s).1
unfolding clear_wallet_cache
recached user s h = record { backed = h.backed; older = h.older; once = h.once; unique = h.unique }

-- The row that a search finds is found again after a change of rows that keeps what it looks for.
pub find-change :
    {A : Type 0} (q p : A → Bool) (f : A → A) (xs : List A) (x : A)
    → ((y : A) → q (f y) ≡ q y)
    → find q xs ≡ some x
    → find q (change p f xs) ≡ some (if p x then f x else x)
find-change q p f [] x k h = cc
find-change q p f (y ∷ ys) x k h = elim (Bool-cases (q y)) [
  | inl e ↦ let same : y ≡ x = ground arith in rw (asked, e, same)
  | inr e ↦ rw (asked, e) (find-change q p f ys x k (ground arith))
]
  where
    asked : q (if p y then f y else y) ≡ q y
    asked = ground (arith, k y)

-- What a credit of a purchase leaves.
pub record Credited (user tokens order : ℕ) (s s' : Tokens) : Type 0 where
  pub sound : IsSound s'
  pub balance : balance_of user s' ≡ balance_of user s +ℤ pos tokens
  pub recorded : entries_of_order order s'.entries ≡ 1

-- The purchase's entry and the increment of the wallet that was ensured.
pub credit_posted :
    (user tokens order now : ℕ) (s : Tokens) (e : Ensured user s)
    → order_taken (some order) s.entries ≡ false
    → credit_tokens user tokens order now s ≡ (
      ok tt,
      (clear_wallet_cache user (
          posted e.state e.wallet.id
            (some order)
            (pos tokens)
            TokenLedgerReason.purchase
            now
            (λ w. w.id == e.wallet.id)
            (credited (pos tokens)))).1,
    )
unfolding credit_tokens create_entry increment_balance clear_wallet_cache
credit_posted user tokens order now s e free = rw (e.returned, credit_tokens) (rw still_free)
  where
    still_free : order_taken (some order) e.state.entries ≡ false
    still_free = rw e.entries free

-- From books that agree, a purchase that the ledger does not hold yet is credited: the user's
-- balance grows by exactly the tokens, the ledger holds one entry for the order, and the books
-- still agree.
pub credit_tokens-Credited :
    (user tokens order now : ℕ) (s : Tokens)
    → IsSound s
    → entries_of_order order s.entries ≡ 0
    → let r = credit_tokens user tokens order now s in
      (r.0 ≡ ok tt) × Credited user tokens order s r.1
unfolding clear_wallet_cache
credit_tokens-Credited user tokens order now s h new =
    rw (credit_posted user tokens order now s e (rw new)) (
      refl,
      record {
        sound = recached user _ (
            posted-IsSound e.state e.sound e.wallet.id (some order) (pos tokens)
              TokenLedgerReason.purchase now (λ w. w.id == e.wallet.id) (credited (pos tokens))
              (λ w b. refl)
              (λ w b t. (refl, refl, omega (int_laws, +ℤ_parts w.balance (pos tokens)))) (λ w. refl)
              (rw (e.entries, new)) e.backed.2);
        balance = after_credit;
        recorded =
            rw
              (
                count-append (λ r. is_order order r.payment_order_id) e.state.entries,
                e.entries,
                new,
              )
              (ground arith);
      },
    )
  where
    e : Ensured user s
    e = ensured user s h

    after_credit :
        balance_of user
          (clear_wallet_cache user (
            posted e.state e.wallet.id
              (some order)
              (pos tokens)
              TokenLedgerReason.purchase
              now
              (λ w. w.id == e.wallet.id)
              (credited (pos tokens)))).1
        ≡ balance_of user s +ℤ pos tokens
    after_credit =
        rw
          (
            e.had,
            balance_of,
            find-change (λ w. w.user_id == user) (λ w. w.id == e.wallet.id) (credited (pos tokens))
                e.state.wallets e.wallet (λ w. refl) e.here,
          )
          (ground arith)

-- From books that agree, a second credit of an order that has its entry is refused, whoever it is
-- for, and leaves the ledger and that user's balance as they are.
pub credit_tokens_again :
    (user tokens order now : ℕ) (s : Tokens)
    → IsSound s
    → entries_of_order order s.entries ≡ 1
    → let r = credit_tokens user tokens order now s in
      (r.0 ≡ err ApiError.unique_violation)
      × (r.1.entries ≡ s.entries)
      × (balance_of user r.1 ≡ balance_of user s)
unfolding credit_tokens create_entry
credit_tokens_again user tokens order now s h posted_once =
    let e : Ensured user s = ensured user s h in
    let taken : order_taken (some order) e.state.entries ≡ true = rw (e.entries, posted_once) in
    rw (e.returned, credit_tokens) (rw taken (refl, e.entries, rw (e.had, balance_of, e.here)))
