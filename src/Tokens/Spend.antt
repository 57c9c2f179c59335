-- ===== src/Tokens/Spend.antt =====
-- Spending tokens, on both branches (`spendTokens` of backend/apps/api/src/services/tokens.service.ts).
use frendly.Common.{
  ℕ, ◌==◌, true, false, none, [], ◌∷◌, ◌++◌, count, count-pos_of_find, count_mono, ◌≡◌, refl, arith,
  sym, ap, ◌∙◌, Bool-cases, inl, inr, ◌⊎◌,
}
use frendly.Common.Int.{ℤ, pos, ◌-ℤ◌, ◌≤ℤ◌, ltb_ℤ, int_laws, -ℤ_parts, +ℤ_parts}
use frendly.Common.Action.{ApiError, Result, ok, err}
use frendly.Tokens.Tables.{TokenLedgerReason, TokenWallet, TokenLedgerEntry, Tokens}
use frendly.Tokens.Wallet.{
  create_entry, new_entry, debit_wallet, can_debit, debited, clear_wallet_cache, spend_tokens,
}
use frendly.Tokens.Ledger.{
  IsSound, Backed, ledger_sum, Ensured, ensured, balance_of, posted, posted-IsSound,
}
use frendly.Tokens.Money.{recached, find-change}

-- A refused spending: the balance is too small, and no row but the wallet itself is new.
pub record Refused (user amount : ℕ) (s : Tokens) (r : Result TokenLedgerEntry × Tokens)
    : Type 0 where
  pub short : ltb_ℤ (balance_of user s) (pos amount) ≡ true
  pub answer : r.0 ≡ err ApiError.tokens_insufficient
  pub sound : IsSound r.1
  pub balance : balance_of user r.1 ≡ balance_of user s
  pub entries : r.1.entries ≡ s.entries

-- A spending: one new entry, and the balance less by its amount.
pub record Spent (user amount : ℕ) (s : Tokens) (r : Result TokenLedgerEntry × Tokens)
    : Type 0 where
  pub enough : ltb_ℤ (balance_of user s) (pos amount) ≡ false
  pub entry : TokenLedgerEntry
  pub answer : r.0 ≡ ok entry
  pub amount_of : entry.amount ≡ pos 0 -ℤ pos amount
  pub sound : IsSound r.1
  pub balance : balance_of user r.1 ≡ balance_of user s -ℤ pos amount
  pub entries : r.1.entries ≡ s.entries ++ (entry ∷ [])
  pub drops : r.1.drops ≡ s.drops
  pub promotions : r.1.promotions ≡ s.promotions

module _ (user amount : ℕ) (reason : TokenLedgerReason) (now : ℕ) (s : Tokens)
    (e : Ensured user s) where
  pub spend_refused :
      ltb_ℤ e.wallet.balance (pos amount) ≡ true
      → spend_tokens user amount reason now s ≡ (err ApiError.tokens_insufficient, e.state)
  unfolding spend_tokens
  spend_refused low = rw (e.returned, spend_tokens) (rw low)

  can_debit_it :
      ltb_ℤ e.wallet.balance (pos amount) ≡ false → can_debit e.wallet.id amount e.wallet ≡ true
  can_debit_it enough = rw enough (ground arith)

  -- The debit finds exactly the wallet, so the second guard never refuses.
  debits_one :
      ltb_ℤ e.wallet.balance (pos amount) ≡ false
      → count (can_debit e.wallet.id amount) e.state.wallets ≡ 1
  debits_one enough =
      let least =
        count-pos_of_find (λ w. w.user_id == user) (can_debit e.wallet.id amount) e.state.wallets
          e.wallet e.here (can_debit_it enough) in
      let most =
        count_mono (can_debit e.wallet.id amount) (λ w. w.id == e.wallet.id) e.state.wallets
          (λ w t. ground arith) in
      omega (arith, e.sound.unique e.wallet.id)

  abbrev pub after_debit : Tokens
  after_debit =
      posted e.state e.wallet.id none (pos 0 -ℤ pos amount) reason now
        (can_debit e.wallet.id amount) (debited amount)

  abbrev pub debit_entry : TokenLedgerEntry
  debit_entry = new_entry e.state.next_id e.wallet.id none (pos 0 -ℤ pos amount) reason now

  pub spend_posted :
      ltb_ℤ e.wallet.balance (pos amount) ≡ false
      → spend_tokens user amount reason now s
        ≡ (ok debit_entry, (clear_wallet_cache user after_debit).1)
  unfolding spend_tokens debit_wallet create_entry clear_wallet_cache
  spend_posted enough = rw (e.returned, spend_tokens) (rw enough (rw (debits_one enough)))

  -- Wallets of one id have one balance, for the same entries explain both.
  can_debit_id :
      ltb_ℤ e.wallet.balance (pos amount) ≡ false
      → (w : TokenWallet) → Backed e.state.entries e.state.next_id w
      → can_debit e.wallet.id amount w ≡ (w.id == e.wallet.id)
  can_debit_id enough w b = elim (Bool-cases (w.id == e.wallet.id)) [
    | inl t ↦
        let same : w.id ≡ e.wallet.id = ground arith in
        let one_balance : w.balance ≡ e.wallet.balance =
          b.0 ∙ ap (λ id. ledger_sum id e.state.entries) same ∙ sym e.backed.0 in
        rw (t, one_balance, enough)
    | inr f ↦ rw f
  ]

  pub after_debit-IsSound : ltb_ℤ e.wallet.balance (pos amount) ≡ false → IsSound after_debit
  after_debit-IsSound enough =
      posted-IsSound e.state e.sound e.wallet.id none (pos 0 -ℤ pos amount) reason now
        (can_debit e.wallet.id amount) (debited amount) (can_debit_id enough)
        (λ w b t. (
          omega (
            int_laws,
            -ℤ_parts w.balance (pos amount),
            -ℤ_parts (pos 0) (pos amount),
            +ℤ_parts w.balance (pos 0 -ℤ pos amount),
          ),
          refl,
          enough_left w.balance (ground arith),
        ))
        (λ w. refl) refl e.backed.2
    where
      enough_left : (b : ℤ) → ltb_ℤ b (pos amount) ≡ false → pos 0 ≤ℤ (b -ℤ pos amount)
      enough_left b t = grind (int_laws, -ℤ_parts b (pos amount))

  pub after_debit-balance :
      ltb_ℤ e.wallet.balance (pos amount) ≡ false
      → balance_of user (clear_wallet_cache user after_debit).1 ≡ e.wallet.balance -ℤ pos amount
  unfolding clear_wallet_cache
  after_debit-balance enough = rw (
    balance_of,
    find-change (λ w. w.user_id == user) (can_debit e.wallet.id amount) (debited amount)
        e.state.wallets e.wallet (λ w. refl) e.here,
    can_debit_it enough,
  )

-- From books that agree, spending tokens either is refused, because the balance is smaller than
-- the amount, and then leaves the balance and the ledger; or the balance is enough, and then the
-- ledger has one new entry and the balance is less by exactly the amount. In both cases the books
-- still agree.
pub spend_tokens-Spent :
    (user amount : ℕ) (reason : TokenLedgerReason) (now : ℕ) (s : Tokens)
    → IsSound s
    → Refused user amount s (spend_tokens user amount reason now s)
      ⊎ Spent user amount s (spend_tokens user amount reason now s)
unfolding clear_wallet_cache
spend_tokens-Spent user amount reason now s h =
    elim (Bool-cases (ltb_ℤ e.wallet.balance (pos amount))) [
      | inl low ↦ rw (spend_refused user amount reason now s e low) (
          inl (record {
            short = rw e.had low;
            answer = refl;
            sound = e.sound;
            balance = rw (e.had, balance_of, e.here);
            entries = e.entries;
          }))
      | inr enough ↦ rw (spend_posted user amount reason now s e enough) (
          inr (record {
            enough = rw e.had enough;
            entry = debit_entry user amount reason now s e;
            answer = refl;
            amount_of = refl;
            sound = recached user _ (after_debit-IsSound user amount reason now s e enough);
            balance = after_debit-balance user amount reason now s e enough ∙ rw e.had;
            entries = ap (λ es. es ++ (debit_entry user amount reason now s e ∷ [])) e.entries;
            drops = e.drops;
            promotions = e.promotions;
          }))
    ]
  where
    e : Ensured user s
    e = ensured user s h
