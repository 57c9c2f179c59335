-- ===== src/Dating/Charges.antt =====
-- What a quota charges, against the limits that `getLimits` shows
-- (backend/apps/api/src/services/dating.service.ts).
use frendly.Common.{
  ℕ, suc, ◌-◌, ◌==◌, [], ◌∷◌, ◌++◌, sym, count-append, leb, ltb, Bool, true, false, Option, none,
  some, ◌≡◌, ◌≢◌, ap, refl, arith, Bool-cases, Option-cases, inl, inr, ◌⊎◌,
}
use frendly.Common.Int.{pos, ◌-ℤ◌}
use frendly.Common.Action.{ApiError, Result, ok, err}
use frendly.Tokens.Ledger.{IsSound, balance_of}
use frendly.Tokens.Spend.{spend_tokens-Spent}
use frendly.Tokens.Tables.{TokenLedgerReason}
use frendly.Dating.Tables.{
  DatingActionKind, DatingUsageEventKind, usage_index, DatingUsageEvent, PlusRules,
  paid_rewind_cost, Dating,
}
use frendly.Dating.Quotas.{
  moscow_day_window, rolling_hour_window, is_used, count_usage, create_usage_event,
  spend_dating_tokens, ensure_swipe_allowed, swipe_within, Quota, quota_of, use_free_or_pay,
  pay_for_use, is_action, super_like_limit, rewind_limit, consume_super_like_quota,
  consume_rewind_quota,
}
use frendly.Dating.Uses.{moscow_day_window_lem}
use frendly.Dating.Limits.{DayLimit, Limits, load_fresh_limits, swipe_limit, remaining_of}

-- The free uses of a kind in the day of `now`
abbrev used_on : ℕ → DatingUsageEventKind → ℕ → Dating → ℕ
used_on user kind now s = count_usage user kind (moscow_day_window now) s

-- The three ends of a use under a shown limit: free, where one remains, and it is then counted; refused,
-- where none remains and the tokens are too few; or paid at the shown price, and then one row tells the
-- kind and the price and no free use is counted.
pub data Charged (shown : DayLimit) (free_kind paid_kind : DatingUsageEventKind) (user now : ℕ)
    (s : Dating) : Result Quota × Dating → Type 0 where
  free :
      (q : Quota) (r : Dating)
      → suc q.free_remaining ≡ shown.free_remaining
      → q.charged_tokens ≡ 0
      → used_on user free_kind now r ≡ suc (used_on user free_kind now s)
      → q.free_remaining ≡ shown.free_limit - used_on user free_kind now r
      → r.tokens ≡ s.tokens
      → Charged shown free_kind paid_kind user now s (ok q, r)
  refused :
      (r : Dating)
      → shown.free_remaining ≡ 0
      → r.usage ≡ s.usage
      → balance_of user r.tokens ≡ balance_of user s.tokens
      → Charged shown free_kind paid_kind user now s (err ApiError.tokens_insufficient, r)
  paid :
      (q : Quota) (r : Dating) (e : DatingUsageEvent)
      → shown.free_remaining ≡ 0
      → q.free_remaining ≡ 0
      → q.charged_tokens ≡ shown.paid_cost
      → r.usage ≡ s.usage ++ (e ∷ [])
      → e.user_id ≡ user
      → e.kind ≡ paid_kind
      → e.charged_tokens ≡ shown.paid_cost
      → used_on user free_kind now r ≡ used_on user free_kind now s
      → balance_of user r.tokens ≡ balance_of user s.tokens -ℤ pos shown.paid_cost
      → IsSound r.tokens
      → Charged shown free_kind paid_kind user now s (ok q, r)

module _ (user target : ℕ) (k paid : DatingUsageEventKind) (limit cost now : ℕ) (s : Dating)
    (h : IsSound s.tokens) (other : (usage_index paid == usage_index k) ≡ false) where
  abbrev used : ℕ
  used = used_on user k now s

  abbrev shown_limit : DayLimit
  shown_limit = record { free_limit = limit; free_remaining = limit - used; paid_cost = cost }

  abbrev added : DatingUsageEventKind → ℕ → Dating
  added kind charged = (create_usage_event user target kind charged now s).1

  -- A free use lies in the window of its own day.
  counts_free : used_on user k now (added k 0) ≡ suc used
  unfolding create_usage_event
  counts_free =
      let from : leb (moscow_day_window now).start now ≡ true =
        rw (moscow_day_window_lem now) (ground arith) in
      let until : ltb now (moscow_day_window now).end ≡ true =
        rw (moscow_day_window_lem now) (ground arith) in
      rw (count-append (is_used user k (moscow_day_window now)) s.usage _)
        (ground (arith, from, until))

  counts_paid : used_on user k now (added paid cost) ≡ used
  unfolding create_usage_event
  counts_paid =
      rw (count-append (is_used user k (moscow_day_window now)) s.usage _) (ground (arith, other))

  pay-Charged :
      ltb used limit ≡ false
      → Charged shown_limit k paid user now s
          (pay_for_use user target paid (quota_of limit used cost) cost now s)
  unfolding spend_dating_tokens create_usage_event
  pay-Charged full =
      elim (spend_tokens-Spent user cost TokenLedgerReason.dating_spend now s.tokens h) [
        | inl r ↦
            rw (spend_dating_tokens, r.answer) (Charged.refused _ (ground arith) refl r.balance)
        | inr p ↦
            rw (spend_dating_tokens, p.answer)
              (Charged.paid _ _ _ (ground arith) (ground arith) refl refl refl refl refl counts_paid
                p.balance p.sound)
      ]

  use-Charged :
      Charged shown_limit k paid user now s
        (use_free_or_pay user target k paid limit used cost now s)
  unfolding use_free_or_pay create_usage_event
  use-Charged = elim (Bool-cases (ltb used limit)) [
    | inl t ↦ rw t (
        Charged.free _ _ (ground arith) refl counts_free (ap (λ n. limit - n) (sym counts_free))
          refl)
    | inr full ↦ rw full (pay-Charged full)
  ]

-- A swipe that is refused exactly when no swipe of the hour remains
abbrev SwipeAsShown : Option ℕ → Result (Unit {0}) × Dating → Dating → Type 0
SwipeAsShown remaining r s =
    (remaining ≡ some 0) × (r ≡ (err ApiError.dating_swipe_rate_limited, s))
    ⊎ (remaining ≢ some 0) × (r ≡ (ok tt, s))

-- That the loaded limits are those that the next super like, rewind and swipe meet
pub record Honoured (user target : ℕ) (premium : Bool) (rules : PlusRules)
    (previous : Option DatingActionKind) (now : ℕ) (s : Dating) : Type 0 where
  pub limits : Limits
  pub loaded : load_fresh_limits user premium rules now s ≡ (ok limits, s)
  pub super_like :
      Charged limits.super_likes DatingUsageEventKind.super_like_free
        DatingUsageEventKind.super_like_paid user now s
        (consume_super_like_quota user target premium rules previous now s)
  pub rewind :
      Charged limits.rewinds DatingUsageEventKind.rewind_free DatingUsageEventKind.rewind_paid user
        now s
        (consume_rewind_quota user target premium now s)
  pub swipe : SwipeAsShown limits.hourly_remaining (ensure_swipe_allowed user premium rules now s) s

module _ (user : ℕ) (now : ℕ) (s : Dating) where
  abbrev hour_used : ℕ
  hour_used = count_usage user DatingUsageEventKind.swipe (rolling_hour_window now) s

  swipe_within-shown :
      (limit : Option ℕ)
      → SwipeAsShown (remaining_of limit hour_used) (swipe_within limit user now s) s
  swipe_within-shown none = inr ((λ e. cc), refl)
  swipe_within-shown (some limit) = elim (Bool-cases (leb limit hour_used)) [
    | inl full ↦ inl (ap some (ground (arith, full)), rw full refl)
    | inr rest ↦ inr ((λ e. ground (arith, e, rest)), rw rest refl)
  ]

  abbrev loaded_limits : Bool → PlusRules → ℕ → Limits
  loaded_limits premium rules swipes = record {
    hourly_limit = swipe_limit premium rules;
    hourly_remaining = remaining_of (swipe_limit premium rules) swipes;
    super_likes = record {
      free_limit = super_like_limit premium rules;
      free_remaining =
          super_like_limit premium rules
          - count_usage user DatingUsageEventKind.super_like_free (moscow_day_window now) s;
      paid_cost = rules.paid_super_like_token_cost;
    };
    rewinds = record {
      free_limit = rewind_limit premium;
      free_remaining =
          rewind_limit premium
          - count_usage user DatingUsageEventKind.rewind_free (moscow_day_window now) s;
      paid_cost = paid_rewind_cost;
    };
  }

  -- No swipes are counted where no limit needs them.
  loads :
      (premium : Bool) (rules : PlusRules)
      → load_fresh_limits user premium rules now s ≡ (ok (loaded_limits premium rules hour_used), s)
  unfolding load_fresh_limits
  loads false rules = refl
  loads true rules = elim (Option-cases rules.plus_swipe_hourly_limit) [
    | inl e ↦ rw e refl
    | inr (limit, e) ↦ rw e refl
  ]

-- From books that agree, the limits that are shown are those that the next call meets. Another super
-- like, or a rewind, is free where a free one remains, and it is counted, so that one fewer remains after
-- it; where none remains it costs exactly the shown price, with one row of the use and its price, or is
-- refused for too few tokens and leaves the balance and the uses. A swipe is refused exactly when the
-- shown rest of the hour is 0.
pub load_fresh_limits-Honoured :
    (user target : ℕ) (premium : Bool) (rules : PlusRules) (previous : Option DatingActionKind)
    (now : ℕ) (s : Dating)
    → IsSound s.tokens
    → is_action DatingActionKind.super_like previous ≡ false
    → Honoured user target premium rules previous now s
unfolding consume_super_like_quota consume_rewind_quota ensure_swipe_allowed
load_fresh_limits-Honoured user target premium rules previous now s h first = record {
  limits = loaded_limits user now s premium rules (hour_used user now s);
  loaded = loads user now s premium rules;
  super_like = rw first (
      use-Charged user target DatingUsageEventKind.super_like_free
        DatingUsageEventKind.super_like_paid (super_like_limit premium rules)
        rules.paid_super_like_token_cost now s h refl);
  rewind =
      use-Charged user target DatingUsageEventKind.rewind_free DatingUsageEventKind.rewind_paid
        (rewind_limit premium) paid_rewind_cost now s h refl;
  swipe = swipe_within-shown user now s (swipe_limit premium rules);
}
