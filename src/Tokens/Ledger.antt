-- ===== src/Tokens/Ledger.antt =====
-- The ledger explains every balance, no balance is negative, and a payment order is credited once.
use frendly.Common.{
  ℕ, suc, ◌≤◌, ◌<◌, ◌==◌, Bool, true, false, Option, none, some, List, [], ◌∷◌, ◌++◌, if◌then◌else◌,
  find, change, count, count-change, count-append, find-append, find-append_found, ◌⊎◌, ◌≡◌, refl,
  arith, All, All-append, All-mono, All-find, inl, inr, Bool-cases, Option-cases, sym, ◌∙◌,
}
use frendly.Common.Int.{ℤ, pos, ◌+ℤ◌, ◌≤ℤ◌, int_laws}
use frendly.Common.Action.{ok}
use frendly.Common.Keeps.{Keeps}
use frendly.Tokens.Tables.{TokenLedgerReason, TokenWallet, TokenLedgerEntry, Tokens}
use frendly.Tokens.Wallet.{ensure_wallet, create_wallet, new_entry, is_order, order_taken}

-- The sum of a wallet's entries.
abbrev pub ledger_sum : ℕ → List TokenLedgerEntry → ℤ
ledger_sum wallet [] = pos 0
ledger_sum wallet (e ∷ es) =
    (if e.wallet_id == wallet then e.amount else pos 0) +ℤ ledger_sum wallet es

abbrev pub entries_of_order : ℕ → List TokenLedgerEntry → ℕ
entries_of_order order = count (λ e. is_order order e.payment_order_id)

-- A user's balance; a user without a wallet has none.
abbrev pub balance_of : ℕ → Tokens → ℤ
balance_of user s = elim (find (λ w. w.user_id == user) s.wallets) [
  | none ↦ pos 0
  | some w ↦ w.balance
]

-- What one wallet promises, given the entries and the next id.
abbrev pub Backed : List TokenLedgerEntry → ℕ → TokenWallet → Type 0
Backed entries next w = (w.balance ≡ ledger_sum w.id entries) × (pos 0 ≤ℤ w.balance) × (w.id < next)

pub record IsSound (s : Tokens) : Type 0 where
  pub backed : All (Backed s.entries s.next_id) s.wallets
  pub older : All (λ e. e.wallet_id < s.next_id) s.entries
  pub once : (order : ℕ) → entries_of_order order s.entries ≤ 1
  pub unique : (id : ℕ) → count (λ w. w.id == id) s.wallets ≤ 1

pub ledger_sum-append :
    (wallet : ℕ) (xs ys : List TokenLedgerEntry)
    → ledger_sum wallet (xs ++ ys) ≡ ledger_sum wallet xs +ℤ ledger_sum wallet ys
ledger_sum-append wallet [] ys = omega int_laws
ledger_sum-append wallet (x ∷ xs) ys = rw (ledger_sum-append wallet xs ys) (omega int_laws)

ledger_sum_unused :
    (wallet : ℕ) (es : List TokenLedgerEntry)
    → All (λ e. e.wallet_id < wallet) es
    → ledger_sum wallet es ≡ pos 0
ledger_sum_unused wallet [] h = refl
ledger_sum_unused wallet (e ∷ es) h = grind (int_laws, ledger_sum_unused wallet es)

All-change_to :
    {A : Type 0} (P Q : A → Type 0) (p : A → Bool) (f : A → A) (xs : List A)
    → ((x : A) → P x → p x ≡ true → Q (f x))
    → ((x : A) → P x → p x ≡ false → Q x)
    → All P xs
    → All Q (change p f xs)
All-change_to P Q p f [] h k a = tt
All-change_to P Q p f (x ∷ xs) h k a = elim (Bool-cases (p x)) [
  | inl e ↦ rw e (h x a.0 e, All-change_to P Q p f xs h k a.1)
  | inr e ↦ rw e (k x a.0 e, All-change_to P Q p f xs h k a.1)
]

create_wallet-Keeps : (user : ℕ) → Keeps IsSound (create_wallet user)
unfolding create_wallet
create_wallet-Keeps user = record {
  after = λ s h. record {
    backed =
        All-append (Backed s.entries (suc s.next_id)) s.wallets _
          (All-mono _ _ s.wallets (λ w b. (b.0, b.1, omega arith)) h.backed)
          ((sym (ledger_sum_unused s.next_id s.entries h.older), omega arith, omega arith), tt);
    older = All-mono _ _ s.entries (λ e b. omega arith) h.older;
    once = h.once;
    unique = λ id. new_id s.next_id id s.wallets _ h.backed (h.unique id);
  };
}
  where
    new_id :
        (next id : ℕ) (ws : List TokenWallet) (entries : List TokenLedgerEntry)
        → All (Backed entries next) ws
        → count (λ w. w.id == id) ws ≤ 1
        → count
            (λ w. w.id == id)
            (ws ++ (record { id = next; user_id = user; balance = pos 0 } ∷ []))
          ≤ 1
    new_id next id ws entries b u =
        rw (count-append (λ w. w.id == id) ws _) (elim (Bool-cases (next == id)) [
          | inl e ↦
              let none_yet = below next id ws entries b (ground arith) in
              rw (e, none_yet) (omega arith)
          | inr e ↦ rw e (omega arith)
        ])
      where
        below :
            (next id : ℕ) (ws : List TokenWallet) (entries : List TokenLedgerEntry)
            → All (Backed entries next) ws
            → next ≡ id
            → count (λ w. w.id == id) ws ≡ 0
        below next id [] entries b e = refl
        below next id (w ∷ ws) entries b e = ground (arith, below next id ws entries b.1 e)

pub ensure_wallet-Keeps : (user : ℕ) → Keeps IsSound (ensure_wallet user)
unfolding ensure_wallet
ensure_wallet-Keeps user = record {
  after = λ s h. elim (Option-cases (find (λ w. w.user_id == user) s.wallets)) [
    | inl new ↦ rw (new, ensure_wallet) ((create_wallet-Keeps user).after s h)
    | inr (w, old) ↦ rw (old, ensure_wallet) h
  ];
}

-- An entry for an order that has none, or for no order, keeps every order at one entry.
order_once :
    (s : Tokens) (row : TokenLedgerEntry) (order : Option ℕ) (o : ℕ)
    → row.payment_order_id ≡ order
    → order_taken order s.entries ≡ false
    → entries_of_order o s.entries ≤ 1
    → entries_of_order o (s.entries ++ (row ∷ [])) ≤ 1
order_once s row none o e free once =
    rw (count-append (λ e. is_order o e.payment_order_id) s.entries (row ∷ []), e) (omega arith)
order_once s row (some o') o e free once =
    rw (count-append (λ e. is_order o e.payment_order_id) s.entries (row ∷ []), e)
      (elim (Bool-cases (o' == o)) [
        | inl same ↦
            let here : o' ≡ o = ground arith in
            let none_yet : entries_of_order o s.entries ≡ 0 = rw here at (unused s.entries) in
            rw same (omega arith)
        | inr other ↦ rw other (omega arith)
      ])
  where
    unused : (es : List TokenLedgerEntry) → entries_of_order o' s.entries ≡ 0
    unused es = ground arith

row_sum :
    (w : TokenWallet) (row : TokenLedgerEntry)
    → ledger_sum w.id (row ∷ []) ≡ (if row.wallet_id == w.id then row.amount else pos 0)
row_sum w row = omega int_laws

-- The tables with an entry, and a change of some wallets.
abbrev pub posted :
    Tokens
    → ℕ
    → Option ℕ
    → ℤ
    → TokenLedgerReason
    → ℕ
    → (TokenWallet → Bool)
    → (TokenWallet → TokenWallet)
    → Tokens
posted s wallet order amount reason now p f = record s {
  wallets = change p f s.wallets;
  entries = s.entries ++ (new_entry s.next_id wallet order amount reason now ∷ []);
  next_id = suc s.next_id;
}

-- An entry and the matching change of its wallet keep the books, if what the change leaves is not
-- negative.
module _ (s : Tokens) (h : IsSound s) (wallet : ℕ) (order : Option ℕ) (amount : ℤ)
    (reason : TokenLedgerReason) (now : ℕ) (p : TokenWallet → Bool) (f : TokenWallet → TokenWallet)
    (changes : (w : TokenWallet) → Backed s.entries s.next_id w → p w ≡ (w.id == wallet))
    (moves : (w : TokenWallet)
      → Backed s.entries s.next_id w
      → p w ≡ true
      → ((f w).balance ≡ w.balance +ℤ amount) × ((f w).id ≡ w.id) × (pos 0 ≤ℤ (f w).balance))
    (same_id : (w : TokenWallet) → (f w).id ≡ w.id) (free : order_taken order s.entries ≡ false)
    (known : wallet < s.next_id) where
  abbrev row : TokenLedgerEntry
  row = new_entry s.next_id wallet order amount reason now

  mine : (w : TokenWallet) → Backed s.entries s.next_id w → p w ≡ true → (wallet == w.id) ≡ true
  mine w b t = ground (arith, changes w b)

  other : (w : TokenWallet) → Backed s.entries s.next_id w → p w ≡ false → (wallet == w.id) ≡ false
  other w b t = ground (arith, changes w b)

  moved-Backed :
      (w : TokenWallet)
      → Backed s.entries s.next_id w
      → p w ≡ true
      → Backed (s.entries ++ (row ∷ [])) (suc s.next_id) (f w)
  moved-Backed w b t =
      let (balance, id, positive) = moves w b t in
      (
        balance
            ∙ rw (id, ledger_sum-append w.id s.entries (row ∷ []), b.0, row_sum w row, mine w b t),
        positive,
        omega arith,
      )

  kept-Backed :
      (w : TokenWallet)
      → Backed s.entries s.next_id w
      → p w ≡ false
      → Backed (s.entries ++ (row ∷ [])) (suc s.next_id) w
  kept-Backed w b t = (
    rw (ledger_sum-append w.id s.entries (row ∷ []), row_sum w row, other w b t)
        (b.0 ∙ omega int_laws),
    b.1,
    omega arith,
  )

  pub posted-IsSound : IsSound (posted s wallet order amount reason now p f)
  posted-IsSound = record {
    backed = All-change_to _ _ p f s.wallets moved-Backed kept-Backed h.backed;
    older =
        All-append (λ e. e.wallet_id < suc s.next_id) s.entries (row ∷ [])
          (All-mono _ _ s.entries (λ e b. omega arith) h.older) (omega arith, tt);
    once = λ o. order_once s row order o refl free (h.once o);
    unique = λ id.
        rw (count-change (λ w. w.id == id) p f s.wallets (λ w t. rw (same_id w))) (h.unique id);
  }

-- `ensureWallet` always returns the wallet of the user, which is then in the table.
pub record Ensured (user : ℕ) (s : Tokens) : Type 0 where
  pub wallet : TokenWallet
  pub state : Tokens
  pub returned : ensure_wallet user s ≡ (ok wallet, state)
  pub sound : IsSound state
  pub backed : Backed state.entries state.next_id wallet
  pub here : find (λ w. w.user_id == user) state.wallets ≡ some wallet
  pub entries : state.entries ≡ s.entries
  pub had : balance_of user s ≡ wallet.balance
  pub kept : (v : ℕ) → balance_of v state ≡ balance_of v s
  pub cache : state.cache ≡ s.cache
  pub drops : state.drops ≡ s.drops
  pub promotions : state.promotions ≡ s.promotions

pub ensured : (user : ℕ) (s : Tokens) → IsSound s → Ensured user s
unfolding ensure_wallet
ensured user s h = by_search (Option-cases (find (λ w. w.user_id == user) s.wallets))
  where
    by_search :
        ((find (λ w. w.user_id == user) s.wallets ≡ none)
          ⊎ ((w : TokenWallet) × (find (λ w. w.user_id == user) s.wallets ≡ some w)))
        → Ensured user s
    by_search (inl new) = record {
      wallet = record { id = s.next_id; user_id = user; balance = pos 0 };
      state = (create_wallet user s).1;
      returned = rw (new, ensure_wallet);
      sound = (create_wallet-Keeps user).after s h;
      backed = (sym (ledger_sum_unused s.next_id s.entries h.older), omega arith, omega arith);
      here = find-append _ s.wallets _ new ∙ ground arith;
      entries = refl;
      had = rw (new, balance_of);
      kept = λ v. elim (Option-cases (find (λ w. w.user_id == v) s.wallets)) [
        | inl none_yet ↦
            rw (balance_of, find-append _ s.wallets _ none_yet, none_yet) (ground arith)
        | inr (w, old) ↦ rw (balance_of, find-append_found _ s.wallets _ w old, old)
      ];
      cache = refl;
      drops = refl;
      promotions = refl;
    }
    by_search (inr (w, old)) = record {
      wallet = w;
      state = s;
      returned = rw (old, ensure_wallet);
      sound = h;
      backed = All-find (Backed s.entries s.next_id) _ s.wallets w old h.backed;
      here = old;
      entries = refl;
      had = rw (old, balance_of);
      kept = λ v. refl;
      cache = refl;
      drops = refl;
      promotions = refl;
    }
