-- ===== src/Tokens/Refined.antt =====
-- The token service does what the bank of Tokens/Bank.antt says
-- (backend/apps/api/src/services/tokens.service.ts).
use frendly.Common.{
  ℕ, ltb, ◌==◌, ◌&&◌, not, true, false, none, some, List, [], ◌∷◌, find, count-append, ◌≡◌, refl,
  sym, ap, subst, ◌++◌, ◌∙◌, arith, All-find, Bool-cases, Option-cases, inl, inr, find-passes,
  if◌then◌else◌,
}
use frendly.Common.Int.{pos, ◌+ℤ◌, ◌-ℤ◌, ltb_ℤ}
use frendly.Common.Action.{ApiError, Result, ok, err}
use frendly.Tokens.Tables.{TokenLedgerReason, TokenLedgerEntry, CachedWallet, WalletView, Tokens}
use frendly.Tokens.Wallet.{
  PackInput, pack_tokens, credit_tokens, credit_purchased_tokens, create_entry, load_fresh_wallet,
  fill_cache, get_wallet, wallet_view, cache_wallet, order_taken, is_order, credited, debited,
  can_debit, clear_wallet_cache,
}
use frendly.Tokens.Ledger.{Ensured, ensured, posted}
use frendly.Tokens.Money.{credit_posted, Credited, credit_tokens-Credited, recached}
use frendly.Tokens.Spend.{spend_refused, spend_posted, after_debit-IsSound, after_debit-balance}
use frendly.Tokens.Bank.{
  Bank, BankCall, Answer, set_paid, credit_bank, spend_bank, step, run, answer_of, perform,
  perform_all, Represents, Refines,
}
use frendly.Tokens.Others.{after-Represents, All-keep}

-- The wallet that is made for a new user changes no balance.
ensured-Represents :
    (user : ℕ) (s : Tokens) (b : Bank) (e : Ensured user s) → Represents s b → Represents e.state b
ensured-Represents user s b e r = record {
  sound = e.sound;
  balances = λ v. e.kept v ∙ r.balances v;
  paid = λ o. rw e.entries (r.paid o);
  cached = rw e.cache r.cached;
}

order_taken-append :
    (o : ℕ) (es : List TokenLedgerEntry) (row : TokenLedgerEntry)
    → order_taken (some o) (es ++ (row ∷ []))
      ≡ (if is_order o row.payment_order_id then true else order_taken (some o) es)
order_taken-append o es row =
    rw (count-append (λ e. is_order o e.payment_order_id) es (row ∷ []))
      (elim (Bool-cases (is_order o row.payment_order_id)) [
        | inl t ↦ ground (arith, t)
        | inr f ↦ ground (arith, f)
      ])

credit_refused :
    (user tokens order now : ℕ) (s : Tokens) (e : Ensured user s)
    → order_taken (some order) s.entries ≡ true
    → credit_tokens user tokens order now s ≡ (err ApiError.unique_violation, e.state)
unfolding credit_tokens create_entry
credit_refused user tokens order now s e taken =
    let still : order_taken (some order) e.state.entries ≡ true = rw (e.entries, taken) in
    rw (e.returned, credit_tokens) (rw still refl)

module _ (user : ℕ) (s : Tokens) (b : Bank) (r : Represents s b) where
  abbrev e : Ensured user s
  e = ensured user s r.sound

  balance_in_bank : e.wallet.balance ≡ b.balances user
  balance_in_bank = sym e.had ∙ r.balances user

  spend-Refines :
      (amount : ℕ) (reason : TokenLedgerReason) (now : ℕ)
      → Refines (perform (BankCall.spend user amount reason now) s) (spend_bank user amount b)
  unfolding perform
  spend-Refines amount reason now = elim (Bool-cases (ltb_ℤ e.wallet.balance (pos amount))) [
    | inl low ↦
        let short : ltb_ℤ (b.balances user) (pos amount) ≡ true = rw balance_in_bank at low in
        rw (spend_refused user amount reason now s e low, short)
          (record { answer = refl; state = ensured-Represents user s b e r })
    | inr enough ↦
        let covered : ltb_ℤ (b.balances user) (pos amount) ≡ false = rw balance_in_bank at enough in
        rw (spend_posted user amount reason now s e enough, covered)
          (record {
            answer = refl;
            state =
                after-Represents user s e none (pos 0 -ℤ pos amount) reason now
                  (can_debit e.wallet.id amount) (debited amount) (λ w t. ground arith) (λ w. refl)
                  b (b.balances user -ℤ pos amount) b.paid r
                  (recached user _ (after_debit-IsSound user amount reason now s e enough))
                  (after_debit-balance user amount reason now s e enough
                    ∙ ap (λ x. x -ℤ pos amount) balance_in_bank)
                  (λ o. order_taken-append o e.state.entries _ ∙ rw e.entries (r.paid o));
          })
  ]

  credit-Refines :
      (tokens order now : ℕ)
      → Refines
          (let (x, t) = credit_tokens user tokens order now s in (answer_of x, t))
          (credit_bank user tokens order b)
  credit-Refines tokens order now = elim (Bool-cases (order_taken (some order) s.entries)) [
    | inl taken ↦
        let paid : b.paid order ≡ true = sym (r.paid order) ∙ taken in
        rw (credit_refused user tokens order now s e taken, paid)
          (record { answer = refl; state = ensured-Represents user s b e r })
    | inr new ↦
        let paid : b.paid order ≡ false = sym (r.paid order) ∙ new in
        let made = credit_posted user tokens order now s e new in
        let done : Credited user tokens order s
            (clear_wallet_cache user (
              posted e.state e.wallet.id (some order) (pos tokens) TokenLedgerReason.purchase now
                (λ w. w.id == e.wallet.id) (credited (pos tokens)))).1 =
          subst (λ t. Credited user tokens order s t) (ap (λ q. q.1) made)
            (credit_tokens-Credited user tokens order now s r.sound (ground (arith, new))).1 in
        rw (made, paid)
          (record {
            answer = refl;
            state =
                after-Represents user s e (some order) (pos tokens) TokenLedgerReason.purchase now
                  (λ w. w.id == e.wallet.id) (credited (pos tokens)) (λ w t. t) (λ w. refl) b
                  (b.balances user +ℤ pos tokens) (set_paid order b.paid) r done.sound
                  (done.balance ∙ ap (λ x. x +ℤ pos tokens) (r.balances user))
                  (λ o. order_taken-append o e.state.entries _ ∙ rw e.entries (rw (r.paid o)));
          })
  ]

  credit_purchased-Refines :
      (pack : PackInput) (order now : ℕ)
      → Refines
          (perform (BankCall.credit user pack order now) s)
          (step (BankCall.credit user pack order now) b)
  unfolding perform credit_purchased_tokens
  credit_purchased-Refines pack order now = by_pack (pack_tokens pack) refl
    where
      by_pack :
          (t : Result ℕ)
          → pack_tokens pack ≡ t
          → Refines
              (perform (BankCall.credit user pack order now) s)
              (step (BankCall.credit user pack order now) b)
      by_pack (ok tokens) h = rw h (credit-Refines tokens order now)
      by_pack (err x) h = rw h (record { answer = refl; state = r })

  -- A cached view and a fresh one show the balance; a fresh one is cached.
  wallet-Refines :
      (now : ℕ) → Refines (perform (BankCall.wallet user now) s) (step (BankCall.wallet user now) b)
  unfolding perform get_wallet fill_cache load_fresh_wallet wallet_view
  wallet-Refines now =
      elim (Option-cases (find (λ c. c.user_id == user && ltb now c.expires_at) s.cache)) [
        | inl miss ↦
            rw (miss, get_wallet)
              (rw e.returned (record {
                answer = ap Answer.shows balance_in_bank;
                state = cached_fresh (wallet_view e.wallet now e.state) balance_in_bank;
              }))
        | inr (c, hit) ↦
            rw (hit, get_wallet)
              (record {
                answer = ap Answer.shows (
                    All-find (λ x. x.view.balance ≡ b.balances x.user_id) _ s.cache c hit r.cached
                    ∙ ap b.balances (of_user c hit));
                state = r;
              })
      ]
    where
      of_user :
          (c : CachedWallet)
          → find (λ x. x.user_id == user && ltb now x.expires_at) s.cache ≡ some c
          → c.user_id ≡ user
      of_user c hit =
          let passes = find-passes (λ x. x.user_id == user && ltb now x.expires_at) s.cache c hit in
          ground (arith, passes)

      cached_fresh :
          (view : WalletView)
          → view.balance ≡ b.balances user
          → Represents (cache_wallet user now view e.state).1 b
      cached_fresh view shown =
          let k = ensured-Represents user s b e r in
          record {
            sound = record {
              backed = k.sound.backed;
              older = k.sound.older;
              once = k.sound.once;
              unique = k.sound.unique;
            };
            balances = k.balances;
            paid = k.paid;
            cached = (
              shown,
              All-keep (λ x. x.view.balance ≡ b.balances x.user_id) _ (λ x. not (x.user_id == user))
                  e.state.cache (λ x h t. h) k.cached,
            );
          }

perform-step :
    (c : BankCall) (s : Tokens) (b : Bank) → Represents s b → Refines (perform c s) (step c b)
perform-step (BankCall.credit user pack order now) s b r =
    credit_purchased-Refines user s b r pack order now
perform-step (BankCall.spend user amount reason now) s b r =
    spend-Refines user s b r amount reason now
perform-step (BankCall.wallet user now) s b r = wallet-Refines user s b r now

-- From tables that stand for a bank, any sequence of credits of purchases, spendings and wallet loads
-- answers as the bank does: each call is done, refused with the same error, or shows the same balance,
-- from the cache or not. The tables after it stand for the bank after it.
pub perform_all-run :
    (calls : List BankCall) (s : Tokens) (b : Bank)
    → Represents s b
    → ((perform_all calls s).0 ≡ (run calls b).0)
      × Represents (perform_all calls s).1 (run calls b).1
unfolding perform_all run
perform_all-run [] s b r = (refl, r)
perform_all-run (c ∷ cs) s b r =
    let now = perform-step c s b r in
    let later = perform_all-run cs (perform c s).1 (step c b).1 now.state in
    (rw (now.answer, later.0), later.1)
