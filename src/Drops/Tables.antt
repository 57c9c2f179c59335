-- ===== src/Drops/Tables.antt =====
-- The tables of Frendly Drops, after backend/packages/database/prisma/schema.prisma (DropRewardEvent,
-- DropTicket, DropReferral, Drop, DropDrawSnapshot, DropWinner), and the constants of
-- backend/apps/api/src/services/drops-reward.service.ts.
-- Ids are numbers: the program only compares them. A time is in milliseconds.
use frendly.Common.{
  ℕ, ◌==◌, Bool, true, false, ◌&&◌, String, Option, none, some, List, str_eq, ◌≡◌, refl, eq_iff,
  arith,
}

pub data RewardSource : Type 0 where
  verification daily_login host_meeting visit_meeting : RewardSource
  referral subscription boost manual_admin : RewardSource

abbrev pub source_index : RewardSource → ℕ
source_index RewardSource.verification = 0
source_index RewardSource.daily_login = 1
source_index RewardSource.host_meeting = 2
source_index RewardSource.visit_meeting = 3
source_index RewardSource.referral = 4
source_index RewardSource.subscription = 5
source_index RewardSource.boost = 6
source_index RewardSource.manual_admin = 7

abbrev pub source_eq : RewardSource → RewardSource → Bool
source_eq a b = source_index a == source_index b

pub data RewardStatus : Type 0 where
  pending active cancelled rejected : RewardStatus

pub data TicketStatus : Type 0 where
  pending active cancelled used_in_draw winner expired : TicketStatus

pub data DropStatus : Type 0 where
  draft scheduled active drawing_pending finished cancelled : DropStatus

-- `monthKey`, `${year}-${month}`: the year counts from 1970 and the month from 0.
pub record MonthKey : Type 0 where
  pub year : ℕ
  pub month : ℕ

abbrev pub month_eq : MonthKey → MonthKey → Bool
month_eq a b = a.year == b.year && a.month == b.month

-- `idempotencyKey`, a text `${source}:${user}` or `${source}:${user}:${rest}`. An id has no colon,
-- so the text stands for these parts.
pub data KeyRest : Type 0 where
  whole : KeyRest
  of_id : ℕ → KeyRest
  of_date : ℕ → ℕ → ℕ → KeyRest
  of_text : String → KeyRest

abbrev pub rest_eq : KeyRest → KeyRest → Bool
rest_eq KeyRest.whole KeyRest.whole = true
rest_eq (KeyRest.of_id a) (KeyRest.of_id b) = a == b
rest_eq (KeyRest.of_date y m d) (KeyRest.of_date y' m' d') = y == y' && m == m' && d == d'
rest_eq (KeyRest.of_text a) (KeyRest.of_text b) = str_eq a b
rest_eq _ _ = false

pub record IdempotencyKey : Type 0 where
  pub source : RewardSource
  pub user_id : ℕ
  pub rest : KeyRest

unfoldable pub key_eq : IdempotencyKey → IdempotencyKey → Bool
key_eq a b = source_eq a.source b.source && a.user_id == b.user_id && rest_eq a.rest b.rest

rest_eq_refl : (r : KeyRest) → rest_eq r r ≡ true
rest_eq_refl KeyRest.whole = refl
rest_eq_refl (KeyRest.of_id a) = ground arith
rest_eq_refl (KeyRest.of_date y m d) = ground arith
rest_eq_refl (KeyRest.of_text a) = (eq_iff a a).1 refl

pub key_eq_refl : (k : IdempotencyKey) → key_eq k k ≡ true
unfolding key_eq
key_eq_refl k = ground (arith, rest_eq_refl k.rest)

pub record DropRewardEvent : Type 0 where
  pub id : ℕ
  pub user_id : ℕ
  pub source : RewardSource
  pub status : RewardStatus
  pub idempotency_key : IdempotencyKey
  pub month_key : MonthKey
  pub ticket_count : ℕ
  pub title : String
  pub description : Option String
  pub related_type : Option String
  pub related_id : Option ℕ
  pub event_id : Option ℕ
  pub cancellation_reason : Option String
  pub confirmed_at : Option ℕ
  pub created_at : ℕ

pub record DropTicket : Type 0 where
  pub id : ℕ
  pub code : ℕ
  pub user_id : ℕ
  pub drop_id : Option ℕ
  pub reward_event_id : ℕ
  pub source : RewardSource
  pub month_key : MonthKey
  pub status : TicketStatus
  pub assigned_at : Option ℕ
  pub cancelled_at : Option ℕ
  pub cancel_reason : Option String
  pub created_at : ℕ

pub record DropReferral : Type 0 where
  pub id : ℕ
  pub inviter_user_id : ℕ
  pub invited_user_id : Option ℕ
  pub status : String
  pub reward_event_id : Option ℕ
  pub verified_at : Option ℕ

-- What `evaluateMeetingRewards` selects of an event: its participants with the time each joined, and
-- the users that are checked in.
pub record Meeting : Type 0 where
  pub id : ℕ
  pub title : String
  pub host_id : ℕ
  pub starts_at : ℕ
  pub created_at : ℕ
  pub canceled_at : Option ℕ
  pub participants : List (ℕ × ℕ)
  pub checked_in : List ℕ

-- A drop. `prizes` is a JSON value: `none` if it is no array.
pub record Drop : Type 0 where
  pub id : ℕ
  pub status : DropStatus
  pub prizes : Option (List String)
  pub seed_hash : Option ℕ
  pub secret_seed : Option ℕ
  pub seed_revealed_at : Option ℕ

-- The columns of a ticket that a draw reads.
pub record DrawTicket : Type 0 where
  pub id : ℕ
  pub code : ℕ
  pub user_id : ℕ

pub record DropDrawSnapshot : Type 0 where
  pub drop_id : ℕ
  pub seed_hash : ℕ
  pub secret_seed : ℕ
  pub ticket_count : ℕ
  pub participant_count : ℕ
  pub tickets : List DrawTicket

-- `prize` is `none` for the empty object.
pub record DropWinner : Type 0 where
  pub drop_id : ℕ
  pub user_id : ℕ
  pub ticket_id : ℕ
  pub position : ℕ
  pub reserve : Bool
  pub prize : Option String

-- The tables that the rewards and the draw read and write. `is_verified` is the column `verified` of the users.
-- `next_id` stands for the database's default `cuid()`, an id not used before, and `random` for
-- the draws of `randomBytes`, of which `drawn` were made.
pub record Drops : Type 0 where
  pub rewards : List DropRewardEvent
  pub tickets : List DropTicket
  pub referrals : List DropReferral
  pub meetings : List Meeting
  pub drops : List Drop
  pub snapshots : List DropDrawSnapshot
  pub winners : List DropWinner
  pub is_verified : ℕ → Bool
  pub next_id : ℕ
  pub random : ℕ → ℕ
  pub drawn : ℕ

-- `MAX_TICKETS_PER_MONTH`
abbrev pub max_tickets_per_month : ℕ
max_tickets_per_month = 30

-- `TASK_LIMITS`
abbrev pub task_limit : RewardSource → Option ℕ
task_limit RewardSource.daily_login = some 7
task_limit RewardSource.host_meeting = some 5
task_limit RewardSource.visit_meeting = some 10
task_limit RewardSource.boost = some 5
task_limit _ = none

-- `TICKET_COUNT_BY_SOURCE`
abbrev pub ticket_count_by_source : RewardSource → ℕ
ticket_count_by_source RewardSource.verification = 3
ticket_count_by_source RewardSource.daily_login = 1
ticket_count_by_source RewardSource.host_meeting = 1
ticket_count_by_source RewardSource.visit_meeting = 2
ticket_count_by_source RewardSource.referral = 3
ticket_count_by_source RewardSource.subscription = 5
ticket_count_by_source RewardSource.boost = 1
ticket_count_by_source RewardSource.manual_admin = 1

-- `TITLE_BY_SOURCE`
abbrev pub title_by_source : RewardSource → String
title_by_source RewardSource.verification = "Верификация профиля"
title_by_source RewardSource.daily_login = "Ежедневный вход"
title_by_source RewardSource.host_meeting = "Проведена встреча"
title_by_source RewardSource.visit_meeting = "Посещение встречи"
title_by_source RewardSource.referral = "Приглашенный друг"
title_by_source RewardSource.subscription = "Frendly+"
title_by_source RewardSource.boost = "Продвижение встречи"
title_by_source RewardSource.manual_admin = "Ручное начисление"

-- `status: { in: ['pending', 'active', 'used_in_draw', 'winner'] }`
abbrev pub is_reserved : TicketStatus → Bool
is_reserved TicketStatus.pending = true
is_reserved TicketStatus.active = true
is_reserved TicketStatus.used_in_draw = true
is_reserved TicketStatus.winner = true
is_reserved _ = false

-- `status: { in: ['pending', 'active'] }`, of a reward and of a ticket
abbrev pub is_counted : RewardStatus → Bool
is_counted RewardStatus.pending = true
is_counted RewardStatus.active = true
is_counted _ = false

abbrev pub is_free : TicketStatus → Bool
is_free TicketStatus.pending = true
is_free TicketStatus.active = true
is_free _ = false

abbrev pub is_active : TicketStatus → Bool
is_active TicketStatus.active = true
is_active _ = false

abbrev pub is_pending : TicketStatus → Bool
is_pending TicketStatus.pending = true
is_pending _ = false
