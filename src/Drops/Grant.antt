-- ===== src/Drops/Grant.antt =====
-- `DropsRewardService.grantReward` with what it calls
-- (backend/apps/api/src/services/drops-reward.service.ts).
use frendly.Common.{
  ℕ, zero, suc, ◌+◌, ◌-◌, ◌*◌, ltb, ◌==◌, Bool, true, false, ◌&&◌, ◌||◌, String, Option, none, some,
  List, [], ◌∷◌, ◌++◌, find, count, sum_of,
}
use frendly.Common.Int.{ℤ, pos, negsuc}
use frendly.Common.Action.{
  Action, ApiError, ok, pure, raise, gets, ◌>>=◌, ◌>>◌, raise_if, modify, Transaction,
}
use frendly.Calendar.{day_of, moscow_offset_ms, month_start, day_ms}
use frendly.Drops.Tables.{
  RewardSource, RewardStatus, TicketStatus, MonthKey, month_eq, IdempotencyKey, key_eq, source_eq,
  DropRewardEvent, DropTicket, Drops, max_tickets_per_month, is_reserved, is_counted,
}

-- The input of `grantReward`. A ticket count is a number of JavaScript: `none` where it is not
-- finite, and otherwise its integer part.
pub record RewardInput : Type 0 where
  pub user_id : ℕ
  pub source : RewardSource
  pub idempotency_key : IdempotencyKey
  pub ticket_count : Option ℤ
  pub title : String
  pub description : Option String
  pub status : RewardStatus
  pub task_monthly_limit : Option ℕ
  pub related_type : Option String
  pub related_id : Option ℕ
  pub event_id : Option ℕ

-- `DropRewardResult`
pub record RewardResult : Type 0 where
  pub id : ℕ
  pub source : RewardSource
  pub status : RewardStatus
  pub ticket_count : ℕ
  pub title : String
  pub description : Option String
  pub related_type : Option String
  pub related_id : Option ℕ
  pub cancellation_reason : Option String
  pub created_at : ℕ
  pub already_claimed : Bool

unfoldable pub map_reward : Bool → DropRewardEvent → RewardResult
map_reward claimed r = record {
  id = r.id;
  source = r.source;
  status = r.status;
  ticket_count = r.ticket_count;
  title = r.title;
  description = r.description;
  related_type = r.related_type;
  related_id = r.related_id;
  cancellation_reason = r.cancellation_reason;
  created_at = r.created_at;
  already_claimed = claimed;
}

pub record MonthBounds : Type 0 where
  pub month_key : MonthKey
  pub start_at : ℕ
  pub next_reset_at : ℕ

-- A time before Moscow's midnight of 1970-01-01 is held at 0.
unfoldable pub month_bounds : ℕ → MonthBounds
month_bounds now =
    let d = day_of (now + moscow_offset_ms) in
    record {
      month_key = record { year = d.year; month = d.month };
      start_at = month_start d.year d.month * day_ms - moscow_offset_ms;
      next_reset_at = month_start d.year (suc d.month) * day_ms - moscow_offset_ms;
    }

unfoldable pub normalize_ticket_count : Option ℤ → Action Drops ℕ
normalize_ticket_count none = raise ApiError.invalid_drops_ticket_count
normalize_ticket_count (some (negsuc n)) = raise ApiError.invalid_drops_ticket_count
normalize_ticket_count (some (pos n)) =
    raise_if (ltb n 1 || ltb max_tickets_per_month n) ApiError.invalid_drops_ticket_count >> pure n

-- The tickets of a user and month that count towards the cap.
abbrev pub holds : ℕ → MonthKey → DropTicket → Bool
holds user month t = t.user_id == user && month_eq t.month_key month && is_reserved t.status

abbrev pub reserved : ℕ → MonthKey → List DropTicket → ℕ
reserved user month = count (holds user month)

-- The rewards of a user, source and month that count towards the task's limit.
abbrev pub earns : ℕ → RewardSource → MonthKey → DropRewardEvent → Bool
earns user source month r =
    r.user_id == user
    && source_eq r.source source
    && month_eq r.month_key month
    && is_counted r.status

abbrev pub earned_by_task : ℕ → RewardSource → MonthKey → List DropRewardEvent → ℕ
earned_by_task user source month = sum_of (earns user source month) (λ r. r.ticket_count)

unfoldable pub over_task_limit : RewardInput → MonthKey → ℕ → List DropRewardEvent → Bool
over_task_limit input month requested rewards = elim input.task_monthly_limit [
  | none ↦ false
  | some limit ↦ ltb limit (earned_by_task input.user_id input.source month rewards + requested)
]

unfoldable pub assert_monthly_limit : RewardInput → MonthKey → ℕ → Action Drops (Unit {0})
unfolding over_task_limit
assert_monthly_limit input month requested = do
  monthly_count ← gets (λ s. reserved input.user_id month s.tickets)
  raise_if (ltb max_tickets_per_month (monthly_count + requested))
      ApiError.drops_monthly_limit_reached
  over ← gets (λ s. over_task_limit input month requested s.rewards)
  raise_if over ApiError.drops_task_limit_reached

abbrev pub new_reward : RewardInput → MonthKey → ℕ → ℕ → ℕ → DropRewardEvent
new_reward input month now requested id = record {
  id = id;
  user_id = input.user_id;
  source = input.source;
  status = input.status;
  idempotency_key = input.idempotency_key;
  month_key = month;
  ticket_count = requested;
  title = input.title;
  description = input.description;
  related_type = input.related_type;
  related_id = input.related_id;
  event_id = input.event_id;
  cancellation_reason = none;
  confirmed_at = elim input.status [ RewardStatus.active ↦ some now | _ ↦ none ];
  created_at = now;
}

abbrev pub ticket_status : RewardStatus → TicketStatus
ticket_status RewardStatus.pending = TicketStatus.pending
ticket_status _ = TicketStatus.active

-- The rows of `createMany`: ids from `id` on, codes from the `draw`-th draw on.
unfoldable pub new_tickets : RewardInput → MonthKey → ℕ → ℕ → (ℕ → ℕ) → ℕ → ℕ → ℕ → List DropTicket
new_tickets input month now reward random id draw zero = []
new_tickets input month now reward random id draw (suc n) =
    record {
      id = id;
      code = random draw;
      user_id = input.user_id;
      drop_id = none;
      reward_event_id = reward;
      source = input.source;
      month_key = month;
      status = ticket_status input.status;
      assigned_at = none;
      cancelled_at = none;
      cancel_reason = none;
      created_at = now;
    }
    ∷ new_tickets input month now reward random (suc id) (suc draw) n

-- `code` is unique: `createMany` refuses the batch if a code is taken.
unfoldable pub codes_clash : List DropTicket → List DropTicket → Bool
codes_clash [] old = false
codes_clash (t ∷ ts) old =
    ltb 0 (count (λ u. u.code == t.code) old)
    || ltb 0 (count (λ u. u.code == t.code) ts)
    || codes_clash ts old

-- The two `create` calls of `grantRewardInTransaction`.
unfoldable pub write_reward : RewardInput → MonthKey → ℕ → ℕ → Action Drops RewardResult
write_reward input month now requested = do
  reward ← gets (λ s. new_reward input month now requested s.next_id)
  modify (λ s. record s { rewards = s.rewards ++ (reward ∷ []); next_id = suc s.next_id })
  batch ← gets (λ s. new_tickets input month now reward.id s.random s.next_id s.drawn requested)
  modify (λ s. record s { drawn = s.drawn + requested })
  raise_if (← gets (λ s. codes_clash batch s.tickets)) ApiError.unique_violation
  modify (λ s. record s { tickets = s.tickets ++ batch; next_id = s.next_id + requested })
  pure (map_reward false reward)

unfoldable pub create_reward : RewardInput → MonthKey → ℕ → Action Drops RewardResult
create_reward input month now = do
  requested ← normalize_ticket_count input.ticket_count
  assert_monthly_limit input month requested
  write_reward input month now requested

unfoldable pub grant_reward_in_transaction : RewardInput → MonthKey → ℕ → Action Drops RewardResult
grant_reward_in_transaction input month now s =
    elim (find (λ r. key_eq r.idempotency_key input.idempotency_key) s.rewards) [
      | some existing ↦ (ok (map_reward true existing), s)
      | none ↦ create_reward input month now s
    ]

-- A rollback takes back the tables; what was drawn at random stays drawn.
abbrev pub take_back : Drops → Drops → Drops
take_back before at_throw = record before { random = at_throw.random; drawn = at_throw.drawn }

-- `grantReward`: in a transaction of its own where the client can open one.
unfoldable pub grant_reward :
    Option (Transaction Drops take_back) → RewardInput → ℕ → Action Drops RewardResult
grant_reward none input now = grant_reward_in_transaction input (month_bounds now).month_key now
grant_reward (some tx) input now =
    tx.run RewardResult (grant_reward_in_transaction input (month_bounds now).month_key now)
