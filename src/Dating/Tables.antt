-- ===== src/Dating/Tables.antt =====
-- The tables of the dating quotas, after backend/packages/database/prisma/schema.prisma (DatingAction,
-- DatingUsageEvent), with the tokens that pay beyond them, and the limits of
-- backend/apps/api/src/services/dating.service.ts.
use frendly.Common.{ℕ, ◌==◌, Bool, Option, List}
use frendly.Tokens.Tables.{Tokens}
use frendly.Tokens.Promotion.{take_back as take_back_tokens}

pub data DatingActionKind : Type 0 where
  pass like super_like : DatingActionKind

abbrev action_index : DatingActionKind → ℕ
action_index DatingActionKind.pass = 0
action_index DatingActionKind.like = 1
action_index DatingActionKind.super_like = 2

abbrev pub action_eq : DatingActionKind → DatingActionKind → Bool
action_eq a b = action_index a == action_index b

pub data DatingUsageEventKind : Type 0 where
  swipe super_like_free super_like_paid rewind_free rewind_paid : DatingUsageEventKind

abbrev pub usage_index : DatingUsageEventKind → ℕ
usage_index DatingUsageEventKind.swipe = 0
usage_index DatingUsageEventKind.super_like_free = 1
usage_index DatingUsageEventKind.super_like_paid = 2
usage_index DatingUsageEventKind.rewind_free = 3
usage_index DatingUsageEventKind.rewind_paid = 4

pub record DatingAction : Type 0 where
  pub id : ℕ
  pub actor_user_id : ℕ
  pub target_user_id : ℕ
  pub action : DatingActionKind
  pub updated_at : ℕ

pub record DatingUsageEvent : Type 0 where
  pub id : ℕ
  pub user_id : ℕ
  pub target_user_id : ℕ
  pub kind : DatingUsageEventKind
  pub charged_tokens : ℕ
  pub created_at : ℕ

-- The rules of Plus, as `loadPlusRules` returns them; a limit of swipes may be missing.
pub record PlusRules : Type 0 where
  pub free_swipe_hourly_limit : Option ℕ
  pub plus_swipe_hourly_limit : Option ℕ
  pub free_super_like_daily_limit : ℕ
  pub plus_super_like_daily_limit : ℕ
  pub paid_super_like_token_cost : ℕ

abbrev pub free_rewind_daily_limit : ℕ
free_rewind_daily_limit = 0

abbrev pub plus_rewind_daily_limit : ℕ
plus_rewind_daily_limit = 5

abbrev pub paid_rewind_cost : ℕ
paid_rewind_cost = 25

pub record Dating : Type 0 where
  pub actions : List DatingAction
  pub usage : List DatingUsageEvent
  pub tokens : Tokens
  pub next_id : ℕ

-- A rollback takes back the tables; the cache of the wallets is not in the database.
abbrev pub take_back : Dating → Dating → Dating
take_back before at_throw = record before {
  tokens = take_back_tokens before.tokens at_throw.tokens;
}
