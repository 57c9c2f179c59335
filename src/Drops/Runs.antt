-- ===== src/Drops/Runs.antt =====
-- Every public method keeps both limits, whatever it returns or throws.
use frendly.Common.{
  ℕ, ◌==◌, true, Option, none, some, ◌≡◌, refl, arith, count-change-le, count-change,
  sum_of-change_first, String, find, Option-cases, inl, inr,
}
use native.Mathlib.Nat.{le_trans}
use frendly.Common.Action.{Transaction}
use frendly.Common.Keeps.{Keeps, Keeps-run}
use frendly.Drops.Tables.{
  RewardStatus, MonthKey, DropTicket, DropRewardEvent, Drops, task_limit, key_eq,
}
use frendly.Drops.Grant.{
  RewardInput, grant_reward, grant_reward_in_transaction, take_back, month_bounds, holds, earns,
}
use frendly.Drops.Confirm.{
  cancel_tickets_for_reward, confirm_reward, confirm_reward_in_transaction, cancelled_reward,
  cancelled_ticket, is_free_of, confirmed_reward, confirmed_ticket, is_pending_of, confirm_pending,
  confirm_found,
}
use frendly.Drops.Limits.{
  IsCapped, IsTaskCapped, create_reward-IsCapped, create_reward-IsTaskCapped,
}

-- Both limits of `assertMonthlyLimit` hold.
pub record IsLimited (s : Drops) : Type 0 where
  pub capped : IsCapped s
  pub task_capped : IsTaskCapped s

back-IsLimited : (s s' : Drops) → IsLimited s → IsLimited (take_back s s')
back-IsLimited s s' h = record { capped = h.capped; task_capped = h.task_capped }

grant_in_transaction-Keeps :
    (input : RewardInput) (month : MonthKey) (now : ℕ)
    → input.task_monthly_limit ≡ task_limit input.source
    → Keeps IsLimited (grant_reward_in_transaction input month now)
unfolding grant_reward_in_transaction
grant_in_transaction-Keeps input month now own = record {
  after = λ s h.
      elim (Option-cases (find (λ r. key_eq r.idempotency_key input.idempotency_key) s.rewards)) [
        | inl new ↦
            rw (new, grant_reward_in_transaction)
              (record {
                capped = create_reward-IsCapped input month now s h.capped;
                task_capped = create_reward-IsTaskCapped input month now s h.task_capped own;
              })
        | inr (r, old) ↦ rw (old, grant_reward_in_transaction) h
      ];
}

pub grant_reward-Keeps :
    (client : Option (Transaction Drops take_back)) (input : RewardInput) (now : ℕ)
    → input.task_monthly_limit ≡ task_limit input.source
    → Keeps IsLimited (grant_reward client input now)
unfolding grant_reward
grant_reward-Keeps none input now own =
    grant_in_transaction-Keeps input (month_bounds now).month_key now own
grant_reward-Keeps (some tx) input now own =
    Keeps-run IsLimited tx _ back-IsLimited
      (grant_in_transaction-Keeps input (month_bounds now).month_key now own)

holds-cancelled :
    (user : ℕ) (month : MonthKey) (reason : String) (now : ℕ) (t : DropTicket)
    → holds user month (cancelled_ticket reason now t) ≡ true
    → holds user month t ≡ true
holds-cancelled user month reason now t h = ground arith

holds-confirmed :
    (user : ℕ) (month : MonthKey) (id : ℕ) (t : DropTicket)
    → is_pending_of id t ≡ true
    → holds user month (confirmed_ticket t) ≡ holds user month t
holds-confirmed user month id t h = ground arith

pub cancel-Keeps :
    (id : ℕ) (reason : String) (now : ℕ) → Keeps IsLimited (cancel_tickets_for_reward id reason now)
unfolding cancel_tickets_for_reward
cancel-Keeps id reason now = record {
  after = λ s h. elim (Option-cases (find (λ r. r.id == id) s.rewards)) [
    | inl missing ↦ rw (missing, cancel_tickets_for_reward) h
    | inr (row, found) ↦
        rw (found, cancel_tickets_for_reward)
          (record {
            capped = λ user month.
                le_trans
                  (count-change-le (holds user month) (is_free_of id) (cancelled_ticket reason now)
                    s.tickets (λ t p. holds-cancelled user month reason now t))
                  (h.capped user month);
            task_capped = λ user source month limit e. ground (
              arith,
              h.task_capped user source month limit e,
              sum_of-change_first (earns user source month) (λ r. r.ticket_count) (λ r. r.id == id)
                  (cancelled_reward reason) s.rewards row found,
            );
          })
  ];
}

confirm_pending-Keeps :
    (id now : ℕ) (s : Drops) (row : DropRewardEvent)
    → find (λ r. r.id == id) s.rewards ≡ some row
    → row.status ≡ RewardStatus.pending
    → IsLimited s
    → IsLimited (confirm_pending id now s).1
unfolding confirm_pending
confirm_pending-Keeps id now s row found p h =
    rw (found, confirm_pending)
      (record {
        capped = λ user month.
            rw
              (count-change (holds user month) (is_pending_of id) confirmed_ticket s.tickets
                (λ t. holds-confirmed user month id t))
              (h.capped user month);
        task_capped = λ user source month limit e. ground (
          arith,
          h.task_capped user source month limit e,
          sum_of-change_first (earns user source month) (λ r. r.ticket_count) (λ r. r.id == id)
              (confirmed_reward now) s.rewards row found,
        );
      })

confirm_in_transaction-Keeps : (id now : ℕ) → Keeps IsLimited (confirm_reward_in_transaction id now)
unfolding confirm_reward_in_transaction
confirm_in_transaction-Keeps id now = record {
  after = λ s h. elim (Option-cases (find (λ r. r.id == id) s.rewards)) [
    | inl missing ↦ rw (missing, confirm_reward_in_transaction) h
    | inr (row, found) ↦
        rw (found, confirm_reward_in_transaction) (by_status s h row found row.status refl)
  ];
}
  where
    by_status :
        (s : Drops)
        → IsLimited s
        → (row : DropRewardEvent) → find (λ r. r.id == id) s.rewards ≡ some row
        → (status : RewardStatus) → row.status ≡ status
        → IsLimited (confirm_found id now row s).1
    by_status s h row found RewardStatus.pending e =
        rw e (confirm_pending-Keeps id now s row found e h)
    by_status s h row found RewardStatus.active e = rw e h
    by_status s h row found RewardStatus.cancelled e = rw e h
    by_status s h row found RewardStatus.rejected e = rw e h

pub confirm-Keeps :
    (tx : Transaction Drops take_back) (id now : ℕ) → Keeps IsLimited (confirm_reward tx id now)
unfolding confirm_reward
confirm-Keeps tx id now =
    Keeps-run IsLimited tx _ back-IsLimited (confirm_in_transaction-Keeps id now)
