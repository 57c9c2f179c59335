-- ===== src/Tests/Banks.antt =====
-- A history of the wallets against the bank of Tokens/Bank.antt.
use frendly.Common.{false, List, [], ◌∷◌, ◌≡◌, refl}
use frendly.Common.Int.{pos, ◌+ℤ◌, ◌-ℤ◌}
use frendly.Common.Action.{ApiError}
use frendly.Tokens.Tables.{TokenLedgerReason}
use frendly.Tokens.Wallet.{PackInput, pack_tokens}
use frendly.Tokens.Bank.{Bank, BankCall, Answer, Represents, run, perform_all}
use frendly.Tokens.Refined.{perform_all-run}
use frendly.Tests.Wallets.{no_tokens, no_tokens-IsSound}

abbrev empty_bank : Bank
empty_bank = record { balances = λ v. pos 0; paid = λ o. false }

no_tokens-Represents : Represents no_tokens empty_bank
no_tokens-Represents = record {
  sound = no_tokens-IsSound;
  balances = λ v. refl;
  paid = λ o. refl;
  cached = tt;
}

-- A pack is bought, shown, spent from, and its order is credited again.
abbrev calls : List BankCall
calls =
    BankCall.credit 7 (PackInput.of_pack "small" 90 10) 40 1000
    ∷ BankCall.wallet 7 2000
    ∷ BankCall.spend 7 30 TokenLedgerReason.dating_spend 3000
    ∷ BankCall.wallet 7 3500
    ∷ BankCall.spend 7 80 TokenLedgerReason.dating_spend 4000
    ∷ BankCall.credit 8 (PackInput.of_pack "small" 90 10) 40 5000
    ∷ []

answers_of_calls : (run calls empty_bank).0 ≡ (
    Answer.done
    ∷ Answer.shows (pos 100)
    ∷ Answer.done
    ∷ Answer.shows (pos 70)
    ∷ Answer.refused ApiError.tokens_insufficient
    ∷ Answer.refused ApiError.unique_violation
    ∷ [])
unfolding run pack_tokens ◌+ℤ◌ ◌-ℤ◌
answers_of_calls = refl

perform_all-run_example :
    ((perform_all calls no_tokens).0 ≡ (run calls empty_bank).0)
    × Represents (perform_all calls no_tokens).1 (run calls empty_bank).1
perform_all-run_example = perform_all-run calls no_tokens empty_bank no_tokens-Represents
