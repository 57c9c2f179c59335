-- ===== src/Tokens/Bank.antt =====
-- What the token service promises, without wallets, rows, ids and a cache: a balance of each user, and
-- the orders that were paid (backend/apps/api/src/services/tokens.service.ts).
use frendly.Common.{ℕ, ◌==◌, Bool, true, List, [], ◌∷◌, if◌then◌else◌, ◌≡◌, All}
use frendly.Common.Int.{ℤ, pos, ◌+ℤ◌, ◌-ℤ◌, ltb_ℤ}
use frendly.Common.Action.{ApiError, Result, ok, err}
use frendly.Common.{some}
use frendly.Tokens.Tables.{TokenLedgerReason, WalletView, Tokens}
use frendly.Tokens.Wallet.{
  PackInput, pack_tokens, credit_purchased_tokens, spend_tokens, get_wallet, order_taken,
}
use frendly.Tokens.Ledger.{IsSound, balance_of}

pub record Bank : Type 0 where
  pub balances : ℕ → ℤ
  pub paid : ℕ → Bool

pub data BankCall : Type 0 where
  credit : ℕ → PackInput → ℕ → ℕ → BankCall
  spend : ℕ → ℕ → TokenLedgerReason → ℕ → BankCall
  wallet : ℕ → ℕ → BankCall

-- What a caller sees: that a write was done, why it was refused, or a balance.
pub data Answer : Type 0 where
  done : Answer
  refused : ApiError → Answer
  shows : ℤ → Answer

abbrev pub set_balance : ℕ → ℤ → (ℕ → ℤ) → ℕ → ℤ
set_balance user x balances v = if user == v then x else balances v

abbrev pub set_paid : ℕ → (ℕ → Bool) → ℕ → Bool
set_paid order paid o = if order == o then true else paid o

abbrev pub credit_bank : ℕ → ℕ → ℕ → Bank → Answer × Bank
credit_bank user tokens order b =
    if b.paid order then (Answer.refused ApiError.unique_violation, b) else (
      Answer.done,
      record {
        balances = set_balance user (b.balances user +ℤ pos tokens) b.balances;
        paid = set_paid order b.paid;
      },
    )

abbrev pub spend_bank : ℕ → ℕ → Bank → Answer × Bank
spend_bank user amount b =
    if ltb_ℤ (b.balances user) (pos amount)
    then (Answer.refused ApiError.tokens_insufficient, b)
    else (
      Answer.done,
      record {
        balances = set_balance user (b.balances user -ℤ pos amount) b.balances;
        paid = b.paid;
      },
    )

abbrev pub credit_resolved : Result ℕ → ℕ → ℕ → Bank → Answer × Bank
credit_resolved (ok tokens) user order b = credit_bank user tokens order b
credit_resolved (err e) user order b = (Answer.refused e, b)

abbrev pub step : BankCall → Bank → Answer × Bank
step (BankCall.credit user pack order now) b = credit_resolved (pack_tokens pack) user order b
step (BankCall.spend user amount reason now) b = spend_bank user amount b
step (BankCall.wallet user now) b = (Answer.shows (b.balances user), b)

unfoldable pub run : List BankCall → Bank → List Answer × Bank
run [] b = ([], b)
run (c ∷ cs) b =
    let (answer, next) = step c b in let (answers, last) = run cs next in (answer ∷ answers, last)

-- What a caller sees of the service
abbrev pub answer_of : {A : Type 0} → Result A → Answer
answer_of (ok a) = Answer.done
answer_of (err e) = Answer.refused e

abbrev pub balance_shown : Result WalletView → Answer
balance_shown (ok view) = Answer.shows view.balance
balance_shown (err e) = Answer.refused e

unfoldable pub perform : BankCall → Tokens → Answer × Tokens
perform (BankCall.credit user pack order now) s =
    let (r, t) = credit_purchased_tokens user pack order now s in (answer_of r, t)
perform (BankCall.spend user amount reason now) s =
    let (r, t) = spend_tokens user amount reason now s in (answer_of r, t)
perform (BankCall.wallet user now) s = let (r, t) = get_wallet user now s in (balance_shown r, t)

unfoldable pub perform_all : List BankCall → Tokens → List Answer × Tokens
perform_all [] s = ([], s)
perform_all (c ∷ cs) s =
    let (answer, next) = perform c s in
    let (answers, last) = perform_all cs next in (answer ∷ answers, last)

-- That tables stand for a bank: the balances and the paid orders are the same, and so is every cached
-- balance.
pub record Represents (s : Tokens) (b : Bank) : Type 0 where
  pub sound : IsSound s
  pub balances : (v : ℕ) → balance_of v s ≡ b.balances v
  pub paid : (o : ℕ) → order_taken (some o) s.entries ≡ b.paid o
  pub cached : All (λ c. c.view.balance ≡ b.balances c.user_id) s.cache

-- That a call of the service answers and leaves what the specification says
pub record Refines (r : Answer × Tokens) (spec : Answer × Bank) : Type 0 where
  pub answer : r.0 ≡ spec.0
  pub state : Represents r.1 spec.1
