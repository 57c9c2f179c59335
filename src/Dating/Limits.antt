-- ===== src/Dating/Limits.antt =====
-- `loadFreshLimits` of backend/apps/api/src/services/dating.service.ts: the limits that `getLimits` shows.
use frendly.Common.{ℕ, ◌-◌, Bool, Option, none, some, ◌&&◌, is_none, if◌then◌else◌}
use frendly.Common.Action.{Action, pure, gets, ◌>>=◌}
use frendly.Dating.Tables.{DatingUsageEventKind, PlusRules, paid_rewind_cost, Dating}
use frendly.Dating.Quotas.{
  rolling_hour_window, moscow_day_window, count_usage, super_like_limit, rewind_limit,
}

pub record DayLimit : Type 0 where
  pub free_limit : ℕ
  pub free_remaining : ℕ
  pub paid_cost : ℕ

-- The limits of a user; an hour without a limit of swipes has none.
pub record Limits : Type 0 where
  pub hourly_limit : Option ℕ
  pub hourly_remaining : Option ℕ
  pub super_likes : DayLimit
  pub rewinds : DayLimit

abbrev pub swipe_limit : Bool → PlusRules → Option ℕ
swipe_limit premium rules =
    if premium then rules.plus_swipe_hourly_limit else rules.free_swipe_hourly_limit

abbrev pub remaining_of : Option ℕ → ℕ → Option ℕ
remaining_of none used = none
remaining_of (some limit) used = some (limit - used)

unfoldable pub load_fresh_limits : ℕ → Bool → PlusRules → ℕ → Action Dating Limits
load_fresh_limits user premium rules now = do
  swipes ←
      (if premium && is_none rules.plus_swipe_hourly_limit
        then pure 0
        else gets (count_usage user DatingUsageEventKind.swipe (rolling_hour_window now)))
  super_likes ← gets (count_usage user DatingUsageEventKind.super_like_free (moscow_day_window now))
  rewinds ← gets (count_usage user DatingUsageEventKind.rewind_free (moscow_day_window now))
  pure (record {
    hourly_limit = swipe_limit premium rules;
    hourly_remaining = remaining_of (swipe_limit premium rules) swipes;
    super_likes = record {
      free_limit = super_like_limit premium rules;
      free_remaining = super_like_limit premium rules - super_likes;
      paid_cost = rules.paid_super_like_token_cost;
    };
    rewinds = record {
      free_limit = rewind_limit premium;
      free_remaining = rewind_limit premium - rewinds;
      paid_cost = paid_rewind_cost;
    };
  })
