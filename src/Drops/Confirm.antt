-- ===== src/Drops/Confirm.antt =====
-- `cancelTicketsForReward`, `confirmReward` and `getProgress` of `DropsRewardService`
-- (backend/apps/api/src/services/drops-reward.service.ts).
use frendly.Common.{
  ℕ, ◌==◌, Bool, true, false, ◌&&◌, String, Option, none, some, find, change, change_first, count,
}
use frendly.Common.Action.{
  Action, ApiError, ok, pure, raise, gets, or_raise, ◌>>=◌, ◌>>◌, modify, Transaction,
}
use frendly.Drops.Tables.{
  RewardStatus, TicketStatus, MonthKey, month_eq, DropRewardEvent, DropTicket, Drops,
  max_tickets_per_month, is_reserved, is_free, is_pending, is_active,
}
use frendly.Drops.Grant.{RewardResult, map_reward, month_bounds, reserved, take_back}

-- `dropRewardEvent.update({ where: { id } })`
unfoldable pub update_reward :
    ℕ → (DropRewardEvent → DropRewardEvent) → Action Drops DropRewardEvent
update_reward id f = do
  found ← gets (λ s. find (λ r. r.id == id) s.rewards)
  row ← or_raise found ApiError.record_missing
  modify (λ s. record s { rewards = change_first (λ r. r.id == id) f s.rewards })
  pure (f row)

-- The rows as `cancelTicketsForReward` and `confirmReward` leave them.
abbrev pub cancelled_reward : String → DropRewardEvent → DropRewardEvent
cancelled_reward reason r = record r {
  status = RewardStatus.cancelled;
  cancellation_reason = some reason;
}

abbrev pub cancelled_ticket : String → ℕ → DropTicket → DropTicket
cancelled_ticket reason now t = record t {
  status = TicketStatus.cancelled;
  cancelled_at = some now;
  cancel_reason = some reason;
  drop_id = none;
  assigned_at = none;
}

abbrev pub is_free_of : ℕ → DropTicket → Bool
is_free_of reward t = t.reward_event_id == reward && is_free t.status

abbrev pub confirmed_reward : ℕ → DropRewardEvent → DropRewardEvent
confirmed_reward now r = record r { status = RewardStatus.active; confirmed_at = some now }

abbrev pub confirmed_ticket : DropTicket → DropTicket
confirmed_ticket t = record t { status = TicketStatus.active }

abbrev pub is_pending_of : ℕ → DropTicket → Bool
is_pending_of reward t = t.reward_event_id == reward && is_pending t.status

-- `cancelTicketsForReward`
unfoldable pub cancel_tickets_for_reward : ℕ → String → ℕ → Action Drops (Unit {0})
unfolding update_reward
cancel_tickets_for_reward reward_event_id reason now = do
  update_reward reward_event_id (cancelled_reward reason)
  modify (λ s. record s {
    tickets = change (is_free_of reward_event_id) (cancelled_ticket reason now) s.tickets;
  })

unfoldable pub confirm_pending : ℕ → ℕ → Action Drops RewardResult
unfolding update_reward
confirm_pending reward_event_id now = do
  modify (λ s. record s {
    tickets = change (is_pending_of reward_event_id) confirmed_ticket s.tickets;
  })
  updated ← update_reward reward_event_id (confirmed_reward now)
  pure (map_reward false updated)

abbrev pub confirm_found : ℕ → ℕ → DropRewardEvent → Action Drops RewardResult
confirm_found reward_event_id now reward = elim reward.status [
  | RewardStatus.active ↦ pure (map_reward false reward)
  | RewardStatus.pending ↦ confirm_pending reward_event_id now
  | _ ↦ raise ApiError.drops_reward_not_pending
]

-- `confirmReward`
unfoldable pub confirm_reward_in_transaction : ℕ → ℕ → Action Drops RewardResult
confirm_reward_in_transaction reward_event_id now = do
  found ← gets (λ s. find (λ r. r.id == reward_event_id) s.rewards)
  reward ← or_raise found ApiError.drops_reward_not_found
  confirm_found reward_event_id now reward

unfoldable pub confirm_reward : Transaction Drops take_back → ℕ → ℕ → Action Drops RewardResult
confirm_reward tx reward_event_id now =
    tx.run RewardResult (confirm_reward_in_transaction reward_event_id now)

pub record Progress : Type 0 where
  pub month_key : MonthKey
  pub earned : ℕ
  pub reserved_tickets : ℕ
  pub available_tickets : ℕ
  pub max : ℕ
  pub next_reset_at : ℕ

-- `status: { in: ['active', 'used_in_draw', 'winner'] }`
abbrev is_earned : TicketStatus → Bool
is_earned TicketStatus.pending = false
is_earned s = is_reserved s

abbrev no_drop : Option ℕ → Bool
no_drop none = true
no_drop (some _) = false

-- `getProgress`
unfoldable pub get_progress : ℕ → ℕ → Action Drops Progress
get_progress user_id now s =
    let month = month_bounds now in
    (
      ok (record {
        month_key = month.month_key;
        earned =
            count
              (λ t.
                t.user_id == user_id && month_eq t.month_key month.month_key && is_earned t.status)
              s.tickets;
        reserved_tickets = reserved user_id month.month_key s.tickets;
        available_tickets =
            count
              (λ t.
                t.user_id == user_id
                && month_eq t.month_key month.month_key
                && is_active t.status
                && no_drop t.drop_id)
              s.tickets;
        max = max_tickets_per_month;
        next_reset_at = month.next_reset_at;
      }),
      s,
    )
