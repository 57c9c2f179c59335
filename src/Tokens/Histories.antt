-- ===== src/Tokens/Histories.antt =====
-- Sequences of calls of the token service (backend/apps/api/src/services/tokens.service.ts).
use frendly.Common.{
  ℕ, ltb, ◌==◌, true, ◌&&◌, String, Option, none, some, List, [], ◌∷◌, find, ◌≡◌, arith, Bool-cases,
  Option-cases, inl, inr, All-mono,
}
use frendly.Common.Action.{ApiError, Result, or_raise, Transaction}
use frendly.Common.Keeps.{
  Keeps, Keeps-bind, Keeps-attempt_within, Keeps-pure, Keeps-run, Keeps-modify, keeps,
}
use frendly.Catalog.{TokenPromotionOption, find_token_promotion_option}
use frendly.Tokens.Tables.{TokenLedgerReason, WalletView, Tokens}
use frendly.Tokens.Wallet.{
  PackInput, pack_tokens, lift_result, create_entry, clear_wallet_cache, credit_tokens,
  credit_purchased_tokens, spend_tokens, load_fresh_wallet, fill_cache, get_wallet, order_taken,
}
use frendly.Tokens.Promotion.{
  TargetKind, assert_promotion_access, create_token_promotion, grant_drops_boost_reward, promote,
  create_promotion, take_back, target_kind_of,
}
use frendly.Tokens.Ledger.{IsSound, Ensured, ensured, ensure_wallet-Keeps}
use frendly.Tokens.Money.{credit_tokens-Credited, recached}
use frendly.Tokens.Spend.{spend_tokens-Spent}

-- The calls of the service, and of the services that credit and spend within their transactions.
pub data WalletCall : Type 0 where
  credit : ℕ → PackInput → ℕ → ℕ → WalletCall
  spend : ℕ → ℕ → TokenLedgerReason → ℕ → WalletCall
  wallet : ℕ → ℕ → WalletCall
  promotion : ℕ → String → Option ℕ → String → ℕ → WalletCall

module _ (tx : Transaction Tokens take_back) where
  unfoldable pub perform : WalletCall → Tokens → Tokens
  perform (WalletCall.credit user pack order now) s =
      (credit_purchased_tokens user pack order now s).1
  perform (WalletCall.spend user amount reason now) s = (spend_tokens user amount reason now s).1
  perform (WalletCall.wallet user now) s = (get_wallet user now s).1
  perform (WalletCall.promotion user kind id option now) s =
      (create_promotion tx user kind id option now s).1

  unfoldable pub perform_all : List WalletCall → Tokens → Tokens
  perform_all [] s = s
  perform_all (c ∷ cs) s = perform_all cs (perform c s)

credit_tokens-Keeps :
    (user tokens order now : ℕ) → Keeps IsSound (credit_tokens user tokens order now)
unfolding credit_tokens create_entry
credit_tokens-Keeps user tokens order now = record {
  after = λ s h. elim (Bool-cases (order_taken (some order) s.entries)) [
    | inl taken ↦ refused s h taken
    | inr free ↦ (credit_tokens-Credited user tokens order now s h (ground arith)).1.sound
  ];
}
  where
    refused :
        (s : Tokens)
        → IsSound s
        → order_taken (some order) s.entries ≡ true
        → IsSound (credit_tokens user tokens order now s).1
    refused s h taken =
        let e : Ensured user s = ensured user s h in
        let still : order_taken (some order) e.state.entries ≡ true = rw (e.entries, taken) in
        rw (e.returned, credit_tokens) (rw still e.sound)

lift_result-Keeps : {A : Type 0} (r : Result A) → Keeps IsSound (lift_result r)
lift_result-Keeps r = record { after = λ s h. h }

credit_purchased_tokens-Keeps :
    (user : ℕ) (pack : PackInput) (order now : ℕ)
    → Keeps IsSound (credit_purchased_tokens user pack order now)
unfolding credit_purchased_tokens
credit_purchased_tokens-Keeps user pack order now =
    search (keeps, lift_result-Keeps (pack_tokens pack), credit_tokens-Keeps user)

spend_tokens-Keeps :
    (user amount : ℕ) (reason : TokenLedgerReason) (now : ℕ)
    → Keeps IsSound (spend_tokens user amount reason now)
spend_tokens-Keeps user amount reason now = record {
  after = λ s h. elim (spend_tokens-Spent user amount reason now s h) [
    | inl refused ↦ refused.sound
    | inr spent ↦ spent.sound
  ];
}

clear_wallet_cache-Keeps : (user : ℕ) → Keeps IsSound (clear_wallet_cache user)
clear_wallet_cache-Keeps user = record { after = recached user }

load_fresh_wallet-Keeps : (user now : ℕ) → Keeps IsSound (load_fresh_wallet user now)
unfolding load_fresh_wallet
load_fresh_wallet-Keeps user now = search (keeps, ensure_wallet-Keeps user)

get_wallet-Keeps : (user now : ℕ) → Keeps IsSound (get_wallet user now)
unfolding get_wallet fill_cache
get_wallet-Keeps user now = record {
  after = λ s h.
      elim (Option-cases (find (λ c. c.user_id == user && ltb now c.expires_at) s.cache)) [
        | inl miss ↦ rw (miss, get_wallet) (filled.after s h)
        | inr (c, hit) ↦ rw (hit, get_wallet) h
      ];
}
  where
    filled : Keeps IsSound (fill_cache user now)
    filled = Keeps-bind IsSound _ _ (load_fresh_wallet-Keeps user now) (λ view.
        Keeps-bind IsSound _ _
          (Keeps-modify IsSound _ (λ s h. record {
            backed = h.backed;
            older = h.older;
            once = h.once;
            unique = h.unique;
          }))
          (λ _. Keeps-pure IsSound view))

assert_promotion_access-Keeps :
    (user : ℕ) (kind : TargetKind) (id : ℕ) → Keeps IsSound (assert_promotion_access user kind id)
unfolding assert_promotion_access
assert_promotion_access-Keeps user TargetKind.event id = record { after = λ s h. h }
assert_promotion_access-Keeps user TargetKind.chat id = record { after = λ s h. h }

pub create_token_promotion-Keeps :
    (user : ℕ) (kind : TargetKind) (id : ℕ) (option : TokenPromotionOption) (entry now : ℕ)
    → Keeps IsSound (create_token_promotion user kind id option entry now)
unfolding create_token_promotion
create_token_promotion-Keeps user kind id option entry now = record {
  after = λ s h. record {
    backed = All-mono _ _ s.wallets (λ w b. (b.0, b.1, omega arith)) h.backed;
    older = All-mono _ _ s.entries (λ e b. omega arith) h.older;
    once = h.once;
    unique = h.unique;
  };
}

pub grant_drops_boost_reward-Keeps :
    (user promotion_id : ℕ) (kind : TargetKind) (id now : ℕ)
    → Keeps IsSound (grant_drops_boost_reward user promotion_id kind id now)
unfolding grant_drops_boost_reward
grant_drops_boost_reward-Keeps user promotion_id TargetKind.event id now =
    Keeps-attempt_within IsSound _ (record {
      after =
          λ s h. record { backed = h.backed; older = h.older; once = h.once; unique = h.unique };
    })
grant_drops_boost_reward-Keeps user promotion_id TargetKind.chat id now = search keeps

promote-Keeps :
    (user : ℕ) (kind : TargetKind) (id : ℕ) (option : TokenPromotionOption) (now : ℕ)
    → Keeps IsSound (promote user kind id option now)
unfolding promote
promote-Keeps user kind id option now = search (
  keeps, assert_promotion_access-Keeps, spend_tokens-Keeps, create_token_promotion-Keeps,
  grant_drops_boost_reward-Keeps, load_fresh_wallet-Keeps,
)

or_raise-Keeps : {A : Type 0} (a : Option A) (e : ApiError) → Keeps IsSound (or_raise a e)
or_raise-Keeps none e = record { after = λ s h. h }
or_raise-Keeps (some a) e = record { after = λ s h. h }

module _ (tx : Transaction Tokens take_back) where
  create_promotion-Keeps :
      (user : ℕ) (kind : String) (id : Option ℕ) (option : String) (now : ℕ)
      → Keeps IsSound (create_promotion tx user kind id option now)
  unfolding create_promotion
  create_promotion-Keeps user kind id option now =
      Keeps-bind IsSound _ _ (lift_result-Keeps (find_token_promotion_option option)) (λ o.
        Keeps-bind IsSound _ _
          (or_raise-Keeps (target_kind_of kind) ApiError.invalid_token_promotion_target)
          (λ k.
            Keeps-bind IsSound _ _ (or_raise-Keeps id ApiError.invalid_token_promotion_target) (λ i.
              Keeps-bind IsSound _ _ (promoted k i o)
                (λ view. search (keeps, clear_wallet_cache-Keeps user)))))
    where
      promoted :
          (k : TargetKind) (i : ℕ) (o : TokenPromotionOption)
          → Keeps IsSound (tx.run WalletView (promote user k i o now))
      promoted k i o =
          Keeps-run IsSound tx _
            (λ s s' h. record {
              backed = h.backed;
              older = h.older;
              once = h.once;
              unique = h.unique;
            })
            (promote-Keeps user k i o now)

  perform-IsSound : (c : WalletCall) (s : Tokens) → IsSound s → IsSound (perform tx c s)
  unfolding perform
  perform-IsSound (WalletCall.credit user pack order now) =
      (credit_purchased_tokens-Keeps user pack order now).after
  perform-IsSound (WalletCall.spend user amount reason now) =
      (spend_tokens-Keeps user amount reason now).after
  perform-IsSound (WalletCall.wallet user now) = (get_wallet-Keeps user now).after
  perform-IsSound (WalletCall.promotion user kind id option now) =
      (create_promotion-Keeps user kind id option now).after

  -- After any sequence of credits, spendings, loads of a wallet and promotions, from books that agree,
  -- every balance is the sum of its wallet's entries and is not negative, and no payment order has two
  -- entries.
  pub perform_all-IsSound :
      (cs : List WalletCall) (s : Tokens) → IsSound s → IsSound (perform_all tx cs s)
  unfolding perform_all
  perform_all-IsSound [] s h = h
  perform_all-IsSound (c ∷ cs) s h = perform_all-IsSound cs (perform tx c s) (perform-IsSound c s h)
