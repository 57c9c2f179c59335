-- ===== src/Tokens/Others.antt =====
-- A write for one user leaves the balances of the others
-- (backend/apps/api/src/services/tokens.service.ts).
use frendly.Common.{
  ℕ, ◌≤◌, ◌==◌, Bool, true, false, not, Option, none, some, List, [], ◌∷◌, find, change, keep,
  count, count-pos_of_find, find-passes, ◌≡◌, refl, subst, ◌∙◌, arith, All, Bool-cases,
  Option-cases, inl, inr,
}
use frendly.Common.Int.{ℤ}
use frendly.Tokens.Tables.{TokenLedgerReason, TokenWallet, Tokens}
use frendly.Tokens.Wallet.{clear_wallet_cache, order_taken}
use frendly.Tokens.Ledger.{IsSound, Ensured, balance_of, posted}
use frendly.Tokens.Money.{find-change}
use frendly.Tokens.Bank.{Bank, Represents, set_balance}

find-change-none :
    {A : Type 0} (q p : A → Bool) (f : A → A) (xs : List A)
    → ((y : A) → q (f y) ≡ q y)
    → find q xs ≡ none
    → find q (change p f xs) ≡ none
find-change-none q p f [] k h = refl
find-change-none q p f (y ∷ ys) k h = elim (Bool-cases (p y)) [
  | inl e ↦ rw e (ground (arith, k y, find-change-none q p f ys k))
  | inr e ↦ rw e (ground (arith, find-change-none q p f ys k))
]

-- Two searches find one row where only one row passes a test that both rows pass.
same_row :
    {A : Type 0} (q r p : A → Bool) (xs : List A) (x y : A)
    → find q xs ≡ some x
    → find r xs ≡ some y
    → p x ≡ true
    → p y ≡ true
    → count p xs ≤ 1
    → x ≡ y
same_row q r p [] x y h k s t u = absurd (cc)
same_row q r p (z ∷ zs) x y h k s t u = elim (Bool-cases (q z)) [
  | inl e ↦ elim (Bool-cases (r z)) [
    | inl d ↦ ground (arith, e, d)
    | inr d ↦
        let more = count-pos_of_find r p zs y (ground (arith, d, k)) t in
        let here : z ≡ x = ground (arith, e, h) in absurd (ground (arith, more, here))
  ]
  | inr e ↦ elim (Bool-cases (r z)) [
    | inl d ↦
        let more = count-pos_of_find q p zs x (ground (arith, e, h)) s in
        let here : z ≡ y = ground (arith, d, k) in absurd (ground (arith, more, here))
    | inr d ↦
        same_row q r p zs x y (ground (arith, e, h)) (ground (arith, d, k)) s t (ground (arith, u))
  ]
]

pub All-keep :
    {A : Type 0} (P Q : A → Type 0) (p : A → Bool) (xs : List A)
    → ((x : A) → P x → p x ≡ true → Q x)
    → All P xs
    → All Q (keep p xs)
All-keep P Q p [] f a = tt
All-keep P Q p (x ∷ xs) f a = elim (Bool-cases (p x)) [
  | inl e ↦ rw e (f x a.0 e, All-keep P Q p xs f a.1)
  | inr e ↦ rw e (All-keep P Q p xs f a.1)
]

-- An entry with the change of the wallet of a user
module _ (user : ℕ) (s : Tokens) (e : Ensured user s) (order : Option ℕ) (amount : ℤ)
    (reason : TokenLedgerReason) (now : ℕ) (p : TokenWallet → Bool) (f : TokenWallet → TokenWallet)
    (mine : (w : TokenWallet) → p w ≡ true → (w.id == e.wallet.id) ≡ true)
    (same_user : (w : TokenWallet) → (f w).user_id ≡ w.user_id) where
  abbrev after : Tokens
  after = posted e.state e.wallet.id order amount reason now p f

  other_wallet :
      (v : ℕ) (w : TokenWallet)
      → (user == v) ≡ false
      → find (λ w. w.user_id == v) e.state.wallets ≡ some w
      → p w ≡ false
  other_wallet v w other here = elim (Bool-cases (p w)) [
    | inr out ↦ out
    | inl changed ↦
        let same : w ≡ e.wallet =
          same_row (λ w. w.user_id == v) (λ w. w.user_id == user) (λ w. w.id == e.wallet.id)
            e.state.wallets w e.wallet here e.here (mine w changed) (ground arith)
            (e.sound.unique e.wallet.id) in
        let of_v = find-passes (λ w. w.user_id == v) e.state.wallets w here in
        let of_user = find-passes (λ w. w.user_id == user) e.state.wallets e.wallet e.here in
        let of_v' : (e.wallet.user_id == v) ≡ true = rw same at of_v in
        absurd (ground (arith, of_v', of_user, other))
  ]

  other_balance : (v : ℕ) → (user == v) ≡ false → balance_of v after ≡ balance_of v s
  other_balance v other = elim (Option-cases (find (λ w. w.user_id == v) e.state.wallets)) [
    | inl no_wallet ↦
        let still =
          find-change-none (λ w. w.user_id == v) p f e.state.wallets (λ w. rw (same_user w))
            no_wallet in
        let step : balance_of v after ≡ balance_of v e.state = rw (balance_of, still, no_wallet) in
        step ∙ e.kept v
    | inr (w, here) ↦
        let moved =
          find-change (λ w. w.user_id == v) p f e.state.wallets w (λ w. rw (same_user w)) here in
        let step : balance_of v after ≡ balance_of v e.state =
          rw (balance_of, moved, here, other_wallet v w other here) in
        step ∙ e.kept v
  ]

  -- The tables after the write stand for the bank after it, if the user's own balance and the paid orders do.
  pub after-Represents :
      (b : Bank) (x : ℤ) (paid : ℕ → Bool)
      → Represents s b
      → IsSound (clear_wallet_cache user after).1
      → balance_of user (clear_wallet_cache user after).1 ≡ x
      → ((o : ℕ) → order_taken (some o) after.entries ≡ paid o)
      → Represents
          (clear_wallet_cache user after).1
          (record { balances = set_balance user x b.balances; paid = paid })
  unfolding clear_wallet_cache
  after-Represents b x paid r sound balance orders = record {
    sound = sound;
    balances = λ v. elim (Bool-cases (user == v)) [
      | inl same ↦
          let here : user ≡ v = ground (arith, same) in
          rw same (subst (λ u. balance_of u (clear_wallet_cache user after).1 ≡ x) here balance)
      | inr other ↦ rw other (other_balance v other ∙ r.balances v)
    ];
    paid = orders;
    cached =
        All-keep (λ c. c.view.balance ≡ b.balances c.user_id) _ (λ c. not (c.user_id == user))
          e.state.cache
          (λ c h t. let out : (user == c.user_id) ≡ false = ground (arith, t) in rw out h)
          (rw e.cache r.cached);
  }
