-- ===== src/Dating/Quotas.antt =====
-- Quotas in `DatingService` (backend/apps/api/src/services/dating.service.ts): ensureSwipeAllowed,
-- consumeSuperLikeQuota and consumeRewindQuota, with the transactions of recordAction and
-- rewindLastPass that call them.
use frendly.Common.{
  ℕ, suc, ◌+◌, ◌-◌, ◌*◌, ◌==◌, leb, ltb, Bool, false, not, ◌&&◌, Option, none, some, List, [], ◌∷◌,
  ◌++◌, find, change_first, keep, count, if◌then◌else◌,
}
use frendly.Common.Action.{
  Action, ApiError, pure, gets, or_raise, ◌>>=◌, ◌>>◌, raise_if, modify, on, Transaction,
}
use frendly.Calendar.{hour_ms, day_ms, moscow_offset_ms, day_of, month_start}
use frendly.Tokens.Tables.{TokenLedgerReason, TokenLedgerEntry, Tokens}
use frendly.Tokens.Wallet.{spend_tokens}
use frendly.Dating.Tables.{
  DatingActionKind, action_eq, DatingUsageEventKind, usage_index, DatingAction, DatingUsageEvent,
  PlusRules, free_rewind_daily_limit, plus_rewind_daily_limit, paid_rewind_cost, Dating, take_back,
}

pub record Window : Type 0 where
  pub start : ℕ
  pub end : ℕ

-- `currentRollingHourWindow`
abbrev pub rolling_hour_window : ℕ → Window
rolling_hour_window now = record { start = now - hour_ms; end = now + hour_ms }

-- `currentMoscowDayWindow`; a start before 1970 is 0.
unfoldable pub moscow_day_window : ℕ → Window
moscow_day_window now =
    let d = day_of (now + moscow_offset_ms) in
    let day : ℕ = month_start d.year d.month + d.day in
    record { start = day * day_ms - moscow_offset_ms; end = suc day * day_ms - moscow_offset_ms }

abbrev pub is_used : ℕ → DatingUsageEventKind → Window → DatingUsageEvent → Bool
is_used user kind window e =
    e.user_id == user
    && usage_index e.kind == usage_index kind
    && leb window.start e.created_at
    && ltb e.created_at window.end

-- `countUsage`
abbrev pub count_usage : ℕ → DatingUsageEventKind → Window → Dating → ℕ
count_usage user kind window s = count (is_used user kind window) s.usage

-- `createUsageEvent`
unfoldable pub create_usage_event : ℕ → ℕ → DatingUsageEventKind → ℕ → ℕ → Action Dating (Unit {0})
create_usage_event user target kind charged now = modify (λ s. record s {
  usage =
      s.usage
      ++ (record {
        id = s.next_id;
        user_id = user;
        target_user_id = target;
        kind = kind;
        charged_tokens = charged;
        created_at = now;
      }
          ∷ []);
  next_id = suc s.next_id;
})

abbrev pub with_tokens : Dating → Tokens → Dating
with_tokens s t = record s { tokens = t }

-- `spendDatingTokens`
unfoldable pub spend_dating_tokens : ℕ → ℕ → ℕ → Action Dating TokenLedgerEntry
spend_dating_tokens user amount now =
    on (λ s. s.tokens) with_tokens (spend_tokens user amount TokenLedgerReason.dating_spend now)

abbrev pub swipe_within : Option ℕ → ℕ → ℕ → Action Dating (Unit {0})
swipe_within none user now = pure tt
swipe_within (some limit) user now = do
  used ← gets (count_usage user DatingUsageEventKind.swipe (rolling_hour_window now))
  raise_if (leb limit used) ApiError.dating_swipe_rate_limited

-- `ensureSwipeAllowed`
unfoldable pub ensure_swipe_allowed : ℕ → Bool → PlusRules → ℕ → Action Dating (Unit {0})
ensure_swipe_allowed user premium rules now =
    swipe_within (if premium then rules.plus_swipe_hourly_limit else rules.free_swipe_hourly_limit)
      user now

-- What the two quotas return, without the limits and prices that they repeat.
pub record Quota : Type 0 where
  pub free_limit : ℕ
  pub free_remaining : ℕ
  pub charged_tokens : ℕ

abbrev pub quota_of : ℕ → ℕ → ℕ → Quota
quota_of limit used charged = record {
  free_limit = limit;
  free_remaining = limit - used;
  charged_tokens = charged;
}

abbrev pub use_free : ℕ → ℕ → DatingUsageEventKind → Quota → ℕ → Action Dating Quota
use_free user target free quota now = do create_usage_event user target free 0 now; pure quota

abbrev pub pay_for_use : ℕ → ℕ → DatingUsageEventKind → Quota → ℕ → ℕ → Action Dating Quota
pay_for_use user target paid quota cost now = do
  spend_dating_tokens user cost now
  create_usage_event user target paid cost now
  pure quota

-- A free use below the limit, or one that is paid.
unfoldable pub use_free_or_pay :
    ℕ → ℕ → DatingUsageEventKind → DatingUsageEventKind → ℕ → ℕ → ℕ → ℕ → Action Dating Quota
use_free_or_pay user target free paid limit used cost now =
    if ltb used limit
    then use_free user target free (quota_of limit (suc used) 0) now
    else pay_for_use user target paid (quota_of limit used cost) cost now

abbrev pub super_like_limit : Bool → PlusRules → ℕ
super_like_limit premium rules =
    if premium then rules.plus_super_like_daily_limit else rules.free_super_like_daily_limit

abbrev pub is_action : DatingActionKind → Option DatingActionKind → Bool
is_action a none = false
is_action a (some b) = action_eq a b

-- `consumeSuperLikeQuota`
unfoldable pub consume_super_like_quota :
    ℕ → ℕ → Bool → PlusRules → Option DatingActionKind → ℕ → Action Dating Quota
consume_super_like_quota user target premium rules previous now = do
  used ← gets (count_usage user DatingUsageEventKind.super_like_free (moscow_day_window now))
  (if is_action DatingActionKind.super_like previous
      then pure (quota_of (super_like_limit premium rules) used 0)
      else use_free_or_pay user target DatingUsageEventKind.super_like_free
          DatingUsageEventKind.super_like_paid (super_like_limit premium rules) used
          rules.paid_super_like_token_cost now)

abbrev pub rewind_limit : Bool → ℕ
rewind_limit premium = if premium then plus_rewind_daily_limit else free_rewind_daily_limit

-- `consumeRewindQuota`
unfoldable pub consume_rewind_quota : ℕ → ℕ → Bool → ℕ → Action Dating Quota
consume_rewind_quota user target premium now = do
  used ← gets (count_usage user DatingUsageEventKind.rewind_free (moscow_day_window now))
  use_free_or_pay user target DatingUsageEventKind.rewind_free DatingUsageEventKind.rewind_paid
      (rewind_limit premium) used paid_rewind_cost now

abbrev pub is_between : ℕ → ℕ → DatingAction → Bool
is_between actor target a = a.actor_user_id == actor && a.target_user_id == target

abbrev pub acted : DatingActionKind → ℕ → DatingAction → DatingAction
acted action now a = record a { action = action; updated_at = now }

abbrev pub upsert_found :
    Option DatingAction → ℕ → ℕ → DatingActionKind → ℕ → Action Dating (Unit {0})
upsert_found (some a) actor target action now = modify (λ s. record s {
  actions = change_first (is_between actor target) (acted action now) s.actions;
})
upsert_found none actor target action now = modify (λ s. record s {
  actions =
      s.actions
      ++ (record {
        id = s.next_id;
        actor_user_id = actor;
        target_user_id = target;
        action = action;
        updated_at = now;
      }
          ∷ []);
  next_id = suc s.next_id;
})

-- `datingAction.upsert`
unfoldable pub upsert_action : ℕ → ℕ → DatingActionKind → ℕ → Action Dating (Unit {0})
upsert_action actor target action now = do
  old ← gets (λ s. find (is_between actor target) s.actions)
  upsert_found old actor target action now

abbrev pub action_of : Option DatingAction → Option DatingActionKind
action_of none = none
action_of (some a) = some a.action

abbrev pub charged_of : Option Quota → ℕ
charged_of none = 0
charged_of (some q) = q.charged_tokens

abbrev pub when : Bool → Action Dating (Unit {0}) → Action Dating (Unit {0})
when b m = if b then m else pure tt

abbrev pub super_like_quota :
    DatingActionKind
    → ℕ
    → ℕ
    → Bool
    → PlusRules
    → Option DatingActionKind
    → ℕ
    → Action Dating (Option Quota)
super_like_quota DatingActionKind.super_like user target premium rules previous now = do
  quota ← consume_super_like_quota user target premium rules previous now
  pure (some quota)
super_like_quota DatingActionKind.like user target premium rules previous now = pure none
super_like_quota DatingActionKind.pass user target premium rules previous now = pure none

abbrev pub save_action : ℕ → ℕ → DatingActionKind → Bool → ℕ → ℕ → Action Dating ℕ
save_action user target action changed charged now = do
  upsert_action user target action now
  when changed (create_usage_event user target DatingUsageEventKind.swipe 0 now)
  pure charged

-- The callback of the transaction of `recordAction`: the tokens that were charged.
unfoldable pub write_action :
    ℕ → ℕ → DatingActionKind → Bool → PlusRules → Option DatingActionKind → ℕ → Action Dating ℕ
write_action user target action premium rules previous now = do
  when (not (is_action action previous)) (ensure_swipe_allowed user premium rules now)
  quota ← super_like_quota action user target premium rules previous now
  save_action user target action (not (is_action action previous)) (charged_of quota) now

-- The callback of the transaction of `rewindLastPass`, for the pass that was found.
unfoldable pub rewind_pass : DatingAction → Bool → ℕ → Action Dating Quota
rewind_pass a premium now = do
  quota ← consume_rewind_quota a.actor_user_id a.target_user_id premium now
  modify (λ s. record s { actions = keep (λ b. not (b.id == a.id)) s.actions })
  pure quota

-- The part of `recordAction` between its checks of the target and its notifications.
unfoldable pub record_action :
    Transaction Dating take_back → ℕ → ℕ → DatingActionKind → Bool → PlusRules → ℕ → Action Dating ℕ
record_action tx user target action premium rules now = do
  previous ← gets (λ s. action_of (find (is_between user target) s.actions))
  tx.run ℕ (write_action user target action premium rules previous now)

-- `orderBy: { updatedAt: 'desc' }`: the latest action of a user.
abbrev pub later_action : DatingAction → Option DatingAction → DatingAction
later_action a none = a
later_action a (some b) = if ltb a.updated_at b.updated_at then b else a

unfoldable pub latest_action : ℕ → List DatingAction → Option DatingAction
latest_action user [] = none
latest_action user (a ∷ rows) =
    let rest = latest_action user rows in
    if a.actor_user_id == user then some (later_action a rest) else rest

abbrev pub pass_of : Option DatingAction → Option DatingAction
pass_of none = none
pass_of (some a) = if action_eq a.action DatingActionKind.pass then some a else none

-- `rewindLastPass` without its checks of the other user.
unfoldable pub rewind_last_pass : Transaction Dating take_back → ℕ → Bool → ℕ → Action Dating Quota
rewind_last_pass tx user premium now = do
  latest ← gets (λ s. latest_action user s.actions)
  a ← or_raise (pass_of latest) ApiError.dating_rewind_unavailable
  tx.run Quota (rewind_pass a premium now)
