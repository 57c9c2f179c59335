-- ===== src/Drops/Limits.antt =====
-- The two limits of `assertMonthlyLimit` as invariants of the tables.
use frendly.Common.{
  ℕ, zero, suc, ◌+◌, ◌≤◌, ◌==◌, true, false, ◌&&◌, Option, none, some, List, [], ◌∷◌, ◌++◌,
  if◌then◌else◌, ◌≡◌, refl, arith, count-append, sum_of-append, ltb, ◌||◌, ◌⊎◌, inl, inr,
  Bool-cases,
}
use frendly.Common.Int.{ℤ, pos, negsuc}
use frendly.Common.Action.{ApiError, err}
use frendly.Drops.Tables.{
  RewardSource, MonthKey, month_eq, source_eq, DropTicket, Drops, max_tickets_per_month, task_limit,
}
use frendly.Drops.Grant.{
  RewardInput, reserved, holds, earns, earned_by_task, new_tickets, new_reward,
  normalize_ticket_count, over_task_limit, assert_monthly_limit, write_reward, create_reward,
}

-- No user holds more than 30 tickets of a month.
abbrev pub IsCapped : Drops → Type 0
IsCapped s = (user : ℕ) (month : MonthKey) → reserved user month s.tickets ≤ max_tickets_per_month

month_eq→eq : (a b : MonthKey) → month_eq a b ≡ true → a ≡ b
month_eq→eq a b h = ground arith

reserved-new_tickets :
    (input : RewardInput) (month : MonthKey) (now reward : ℕ) (random : ℕ → ℕ) (id draw n user : ℕ)
    (m : MonthKey)
    → reserved user m (new_tickets input month now reward random id draw n)
      ≤ (if input.user_id == user && month_eq month m then n else 0)
unfolding new_tickets
reserved-new_tickets input month now reward random id draw zero user m = ground arith
reserved-new_tickets input month now reward random id draw (suc n) user m =
    ground (arith, reserved-new_tickets input month now reward random (suc id) (suc draw) n user m)

write_reward-IsCapped :
    (input : RewardInput) (month : MonthKey) (now n : ℕ) (s : Drops)
    → IsCapped s
    → reserved input.user_id month s.tickets + n ≤ max_tickets_per_month
    → IsCapped (write_reward input month now n s).1
unfolding write_reward
write_reward-IsCapped input month now n s h fits user m = ground (
  arith,
  h user m,
  fits,
  month_eq→eq month m,
  count-append (holds user m) s.tickets batch,
  reserved-new_tickets input month now s.next_id s.random (suc s.next_id) s.drawn n user m,
)
  where
    batch : List DropTicket
    batch = new_tickets input month now s.next_id s.random (suc s.next_id) s.drawn n

-- A grant that is not claimed yet is refused and changes nothing, or it asks for 1 to 30 tickets,
-- keeps both limits, and is written.
abbrev pub Granting : RewardInput → MonthKey → ℕ → Drops → Type 0
Granting input month now s =
    ((e : ApiError) × (create_reward input month now s ≡ (err e, s)))
    ⊎ ((n : ℕ) × (input.ticket_count ≡ some (pos n))
        × (1 ≤ n)
        × (n ≤ max_tickets_per_month)
        × (reserved input.user_id month s.tickets + n ≤ max_tickets_per_month)
        × (over_task_limit input month n s.rewards ≡ false)
        × (create_reward input month now s ≡ write_reward input month now n s))

create_reward_of_count :
    (input : RewardInput) (month : MonthKey) (now : ℕ) (s : Drops) (count : Option ℤ)
    → input.ticket_count ≡ count
    → Granting input month now s
unfolding create_reward normalize_ticket_count assert_monthly_limit
create_reward_of_count input month now s none e =
    inl (ApiError.invalid_drops_ticket_count, ground arith)
create_reward_of_count input month now s (some (negsuc n)) e =
    inl (ApiError.invalid_drops_ticket_count, ground arith)
create_reward_of_count input month now s (some (pos n)) e =
    elim (Bool-cases (ltb n 1 || ltb max_tickets_per_month n)) [
      | inl bad ↦ inl (ApiError.invalid_drops_ticket_count, ground arith)
      | inr good ↦
          elim (Bool-cases
            (ltb max_tickets_per_month (reserved input.user_id month s.tickets + n))) [
              | inl full ↦ inl (ApiError.drops_monthly_limit_reached, ground arith)
              | inr free ↦ elim (Bool-cases (over_task_limit input month n s.rewards)) [
                | inl over ↦ inl (ApiError.drops_task_limit_reached, ground arith)
                | inr within ↦
                    inr (n, e, ground arith, ground arith, ground arith, within, ground arith)
              ]
            ]
    ]

pub create_reward_cases :
    (input : RewardInput) (month : MonthKey) (now : ℕ) (s : Drops) → Granting input month now s
create_reward_cases input month now s =
    create_reward_of_count input month now s input.ticket_count refl

pub create_reward-IsCapped :
    (input : RewardInput) (month : MonthKey) (now : ℕ) (s : Drops)
    → IsCapped s
    → IsCapped (create_reward input month now s).1
create_reward-IsCapped input month now s h = elim (create_reward_cases input month now s) [
  | inl (e, same) ↦ rw same h
  | inr (n, _, _, _, fits, _, written) ↦
      rw written (write_reward-IsCapped input month now n s h fits)
]

-- The rewards of a source that has a monthly limit stay within it.
abbrev pub IsTaskCapped : Drops → Type 0
IsTaskCapped s =
    (user : ℕ) (source : RewardSource) (month : MonthKey) (limit : ℕ)
    → task_limit source ≡ some limit
    → earned_by_task user source month s.rewards ≤ limit

source_eq→eq : (a b : RewardSource) → source_eq a b ≡ true → a ≡ b
source_eq→eq a b h = ground arith

write_reward-rewards :
    (input : RewardInput) (month : MonthKey) (now n : ℕ) (s : Drops)
    → (write_reward input month now n s).1.rewards
      ≡ s.rewards ++ (new_reward input month now n s.next_id ∷ [])
unfolding write_reward
write_reward-rewards input month now n s = ground arith

write_reward-IsTaskCapped :
    (input : RewardInput) (month : MonthKey) (now n : ℕ) (s : Drops)
    → IsTaskCapped s
    → input.task_monthly_limit ≡ task_limit input.source
    → over_task_limit input month n s.rewards ≡ false
    → IsTaskCapped (write_reward input month now n s).1
unfolding over_task_limit
write_reward-IsTaskCapped input month now n s h own within user source m limit some_limit =
    rw (write_reward-rewards input month now n s) (
      ground (
        arith,
        h user source m limit some_limit,
        month_eq→eq month m,
        source_eq→eq input.source source,
        sum_of-append (earns user source m) (λ r. r.ticket_count) s.rewards
            (new_reward input month now n s.next_id ∷ []),
      ))

pub create_reward-IsTaskCapped :
    (input : RewardInput) (month : MonthKey) (now : ℕ) (s : Drops)
    → IsTaskCapped s
    → input.task_monthly_limit ≡ task_limit input.source
    → IsTaskCapped (create_reward input month now s).1
create_reward-IsTaskCapped input month now s h own = elim (create_reward_cases input month now s) [
  | inl (e, same) ↦ rw same h
  | inr (n, _, _, _, _, within, written) ↦
      rw written (write_reward-IsTaskCapped input month now n s h own within)
]
