-- ===== src/Tokens/Promoted.antt =====
-- What a promotion costs: `createPromotion` (backend/apps/api/src/services/tokens.service.ts).
use frendly.Common.{
  ℕ, String, Option, none, some, false, ◌≡◌, refl, sym, ap, ◌∙◌, subst, inl, inr, ◌+◌, ◌*◌, [], ◌∷◌,
  ◌++◌,
}
use frendly.Common.Int.{pos, ◌-ℤ◌, ltb_ℤ}
use frendly.Tokens.Spend.{spend_tokens-Spent}
use frendly.Common.Action.{Result, ok, aborts, caught_within_ok, settle, Transaction}
use frendly.Catalog.{TokenPromotionOption, find_token_promotion_option}
use frendly.Drops.Grant.{RewardResult}
use frendly.Drops.Tables.{Drops}
use frendly.Drops.Claims.{grant_boost_reward}
use frendly.Calendar.{hour_ms}
use frendly.Tokens.Tables.{TokenLedgerReason, TokenLedgerEntry, TokenPromotion, WalletView, Tokens}
use frendly.Tokens.Wallet.{spend_tokens, load_fresh_wallet, clear_wallet_cache, wallet_view}
use frendly.Tokens.Ledger.{IsSound, Ensured, ensured, balance_of}
use frendly.Tokens.Promotion.{
  TargetKind, target_kind_of, assert_promotion_access, create_token_promotion,
  grant_drops_boost_reward, promote, create_promotion, take_back, on_drops, event_of, chat_of,
}
use frendly.Tokens.Histories.{grant_drops_boost_reward-Keeps, create_token_promotion-Keeps}

-- What a promotion that returns leaves: the row of what was bought, and the entry that paid for it.
pub record Promoted (user : ℕ) (kind : TargetKind) (id : ℕ) (option : TokenPromotionOption)
    (now : ℕ) (s : Tokens) (r : Result WalletView × Tokens) : Type 0 where
  pub view : WalletView
  pub answer : r.0 ≡ ok view
  pub balance : balance_of user r.1 ≡ balance_of user s -ℤ pos option.cost
  pub shown : view.balance ≡ balance_of user r.1
  pub promotion : TokenPromotion
  pub stored : r.1.promotions ≡ s.promotions ++ (promotion ∷ [])
  pub user_of : promotion.user_id ≡ user
  pub event_target :
      kind ≡ TargetKind.event → (promotion.event_id ≡ some id) × (promotion.chat_id ≡ none)
  pub chat_target :
      kind ≡ TargetKind.chat → (promotion.event_id ≡ none) × (promotion.chat_id ≡ some id)
  pub option_of : promotion.option_id ≡ option.id
  pub expires : promotion.expires_at ≡ now + option.duration_hours * (60 * 60 * 1000)
  pub entry : TokenLedgerEntry
  pub paid_by : promotion.ledger_entry_id ≡ entry.id
  pub amount_of : entry.amount ≡ pos 0 -ℤ pos option.cost
  pub entries : r.1.entries ≡ s.entries ++ (entry ∷ [])

-- Whether the reward for a promoted event would break no unique column: the codes of its tickets are
-- drawn at random, and one may be taken.
abbrev pub BoostFits : ℕ → TargetKind → ℕ → ℕ → Drops → Type 0
BoostFits user kind id now d =
    kind ≡ TargetKind.event
    → (source : ℕ) → aborts (grant_boost_reward none user source (some id) now d).0 ≡ false

-- The rows that a reward leaves
abbrev SameRows : Tokens → Tokens → Type 0
SameRows s t = (t.wallets ≡ s.wallets) × (t.entries ≡ s.entries) × (t.promotions ≡ s.promotions)

boosted :
    (user promotion_id : ℕ) (kind : TargetKind) (id now : ℕ) (s : Tokens)
    → BoostFits user kind id now s.drops
    → (x : Option RewardResult) × (t : Tokens) × (grant_drops_boost_reward user promotion_id kind id
          now s
        ≡ (ok x, t))
      × SameRows s t
unfolding grant_drops_boost_reward
boosted user promotion_id TargetKind.event id now s fits =
    let (x, e) =
      caught_within_ok (on_drops (grant_boost_reward none user promotion_id (some id) now) s)
        (fits refl promotion_id) in
    (x, _, e, (refl, refl, refl))
boosted user promotion_id TargetKind.chat id now s fits = (none, s, refl, (refl, refl, refl))

balance_of_same :
    (user : ℕ) (t t' : Tokens) → t'.wallets ≡ t.wallets → balance_of user t' ≡ balance_of user t
balance_of_same user t t' same = rw (balance_of, same)

-- A fresh load of a wallet shows its balance and leaves it.
loaded :
    (user now : ℕ) (s : Tokens)
    → IsSound s
    → (view : WalletView) × (t : Tokens) × (load_fresh_wallet user now s ≡ (ok view, t))
      × (balance_of user t ≡ balance_of user s)
      × (view.balance ≡ balance_of user t)
      × (t.entries ≡ s.entries)
      × (t.promotions ≡ s.promotions)
unfolding load_fresh_wallet wallet_view
loaded user now s h =
    let e : Ensured user s = ensured user s h in
    (
      wallet_view e.wallet now e.state,
      e.state,
      rw (e.returned, load_fresh_wallet),
      rw (e.had, balance_of, e.here),
      rw (balance_of, e.here),
      e.entries,
      e.promotions,
    )

targets :
    (kind : TargetKind) (id : ℕ)
    → (kind ≡ TargetKind.event → (event_of kind id ≡ some id) × (chat_of kind id ≡ none))
      × (kind ≡ TargetKind.chat → (event_of kind id ≡ none) × (chat_of kind id ≡ some id))
targets TargetKind.event id = ((λ e. (refl, refl)), (λ e. cc))
targets TargetKind.chat id = ((λ e. cc), (λ e. (refl, refl)))

module _ (user : ℕ) (kind : TargetKind) (id : ℕ) (option : TokenPromotionOption) (now : ℕ)
    (s : Tokens) (allowed : assert_promotion_access user kind id s ≡ (ok tt, s))
    (entry : TokenLedgerEntry) (t : Tokens)
    (spent : spend_tokens user option.cost TokenLedgerReason.promotion_spend now s ≡ (ok entry, t))
    (sound : IsSound t) (fits : BoostFits user kind id now t.drops) where
  promotes :
      (view : WalletView) × (u : Tokens) × (promote user kind id option now s ≡ (ok view, u))
      × (balance_of user u ≡ balance_of user t)
      × (view.balance ≡ balance_of user u)
      × (u.entries ≡ t.entries)
      × (u.promotions ≡ (create_token_promotion user kind id option entry.id now t).1.promotions)
  unfolding promote create_token_promotion
  promotes =
      let row = create_token_promotion user kind id option entry.id now t in
      let (x, b, boost, same) = boosted user t.next_id kind id now row.1 fits in
      let kept : IsSound row.1 =
        (create_token_promotion-Keeps user kind id option entry.id now).after t sound in
      let kept_b : IsSound (grant_drops_boost_reward user t.next_id kind id now row.1).1 =
        (grant_drops_boost_reward-Keeps user t.next_id kind id now).after row.1 kept in
      let sound_b : IsSound b = subst IsSound (ap (λ r. r.1) boost) kept_b in
      let (view, u, load, balance, shown, entries, promotions) = loaded user now b sound_b in
      (
        view,
        u,
        rw (allowed, promote) (rw spent (rw boost (rw load))),
        balance ∙ balance_of_same user row.1 b same.0,
        shown,
        entries ∙ same.1,
        promotions ∙ same.2,
      )

-- From books that agree, a promotion of an option that there is, of an event or a chat that the user may
-- promote, by a user whose balance is at least its cost, where the reward for it breaks no unique column,
-- succeeds, also if the reward service refuses the reward. One promotion is stored: the user's, of the
-- event or the chat, with the option, for its hours. The balance is less by exactly the cost, which one
-- new entry of the ledger shows, and the returned view shows the new balance.
pub create_promotion-Promoted :
    (tx : Transaction Tokens take_back) (user : ℕ) (target_kind : String) (kind : TargetKind)
    (id : ℕ) (option_id : String) (option : TokenPromotionOption) (now : ℕ) (s : Tokens)
    → IsSound s
    → find_token_promotion_option option_id ≡ ok option
    → target_kind_of target_kind ≡ some kind
    → assert_promotion_access user kind id s ≡ (ok tt, s)
    → ltb_ℤ (balance_of user s) (pos option.cost) ≡ false
    → BoostFits user kind id now s.drops
    → Promoted user kind id option now s
        (create_promotion tx user target_kind (some id) option_id now s)
unfolding create_promotion clear_wallet_cache create_token_promotion
create_promotion-Promoted tx user target_kind kind id option_id option now s sound found of_kind
      allowed enough fits =
    elim (spend_tokens-Spent user option.cost TokenLedgerReason.promotion_spend now s sound) [
      | inl refused ↦ let short = refused.short in absurd (cc)
      | inr spent ↦
          let after = (spend_tokens user option.cost TokenLedgerReason.promotion_spend now s).1 in
          let (view, u, promoted, balance, shown, entries, promotions) =
            promotes user kind id option now s allowed spent.entry after
              (ap (λ r. (r, after)) spent.answer) spent.sound
              (subst (BoostFits user kind id now) (sym spent.drops) fits) in
          let commits =
            tx.run_settles WalletView (promote user kind id option now) s
            ∙ ap (settle take_back s) promoted in
          rw (found, create_promotion)
            (rw of_kind (
              rw commits (record {
                view = view;
                answer = refl;
                balance = balance ∙ spent.balance;
                shown = shown;
                promotion = record {
                  id = after.next_id;
                  user_id = user;
                  event_id = event_of kind id;
                  chat_id = chat_of kind id;
                  option_id = option.id;
                  expires_at = now + option.duration_hours * hour_ms;
                  ledger_entry_id = spent.entry.id;
                };
                stored = promotions ∙ rw spent.promotions refl;
                user_of = refl;
                event_target = (targets kind id).0;
                chat_target = (targets kind id).1;
                option_of = refl;
                expires = refl;
                entry = spent.entry;
                paid_by = refl;
                amount_of = spent.amount_of;
                entries = entries ∙ spent.entries;
              })))
    ]
