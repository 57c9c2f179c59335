-- ===== src/Drops/Idempotency.antt =====
-- What a grant of `DropsRewardService` returns and writes
-- (backend/apps/api/src/services/drops-reward.service.ts).
use frendly.Common.{
  ℕ, zero, suc, ◌+◌, ◌≤◌, ◌<◌, All, ◌≢◌, true, false, Option, none, some, List, [], ◌∷◌, ◌++◌, find,
  ◌≡◌, refl, arith, find-append, count, inl, inr, ◌∙◌, Bool-cases, Option-cases, ap, sym, subst,
  length,
}
use frendly.Common.Int.{pos}
use frendly.Common.Action.{Result, ok, err, Transaction, settle}
use frendly.Calendar.{day_of, moscow_offset_ms}
use frendly.Calendar.Split.{day_of_lem, month_start-suc}
use frendly.Drops.Tables.{
  MonthKey, IdempotencyKey, key_eq, key_eq_refl, DropRewardEvent, DropTicket, Drops,
  max_tickets_per_month, RewardStatus, TicketStatus,
}
use frendly.Drops.Grant.{
  RewardInput, RewardResult, map_reward, month_bounds, take_back, grant_reward,
  grant_reward_in_transaction, write_reward, new_reward, new_tickets, ticket_status, codes_clash,
}
use frendly.Drops.Limits.{create_reward_cases}

-- The reward that a key names.
abbrev pub claimed : IdempotencyKey → Drops → Option DropRewardEvent
claimed key s = find (λ r. key_eq r.idempotency_key key) s.rewards

grant_in_transaction-claimed :
    (input : RewardInput) (month : MonthKey) (now : ℕ) (s : Drops) (r : DropRewardEvent)
    → claimed input.idempotency_key s ≡ some r
    → grant_reward_in_transaction input month now s ≡ (ok (map_reward true r), s)
unfolding grant_reward_in_transaction
grant_in_transaction-claimed input month now s r h = rw (h, grant_reward_in_transaction)

-- A call with a key that was claimed before returns that reward, marked as claimed, and changes
-- nothing, whatever else it asks for.
grant_reward-claimed :
    (client : Option (Transaction Drops take_back)) (input : RewardInput) (now : ℕ) (s : Drops)
    (r : DropRewardEvent)
    → claimed input.idempotency_key s ≡ some r
    → grant_reward client input now s ≡ (ok (map_reward true r), s)
unfolding grant_reward
grant_reward-claimed none input now s r h =
    grant_in_transaction-claimed input (month_bounds now).month_key now s r h
grant_reward-claimed (some tx) input now s r h =
    rw tx.run_settles
      (rw (grant_in_transaction-claimed input (month_bounds now).month_key now s r h))

length-new_tickets :
    (input : RewardInput) (month : MonthKey) (now reward : ℕ) (random : ℕ → ℕ) (id draw n : ℕ)
    → length (new_tickets input month now reward random id draw n) ≡ n
unfolding new_tickets
length-new_tickets input month now reward random id draw zero = refl
length-new_tickets input month now reward random id draw (suc n) =
    omega (arith, length-new_tickets input month now reward random (suc id) (suc draw) n)

-- A ticket of a reward: of its user, source and month, active or pending as the reward is, not
-- entered in a drop and not cancelled.
pub record IsTicketOf (r : DropRewardEvent) (t : DropTicket) : Type 0 where
  pub reward : t.reward_event_id ≡ r.id
  pub user : t.user_id ≡ r.user_id
  pub source : t.source ≡ r.source
  pub month : t.month_key ≡ r.month_key
  pub pending : r.status ≡ RewardStatus.pending → t.status ≡ TicketStatus.pending
  pub active : r.status ≢ RewardStatus.pending → t.status ≡ TicketStatus.active
  pub not_entered : t.drop_id ≡ none
  pub not_cancelled : t.cancelled_at ≡ none

ticket_status_cases :
    (status : RewardStatus)
    → (status ≡ RewardStatus.pending → ticket_status status ≡ TicketStatus.pending)
      × (status ≢ RewardStatus.pending → ticket_status status ≡ TicketStatus.active)
ticket_status_cases RewardStatus.pending = ((λ e. refl), (λ ne. absurd (ne refl)))
ticket_status_cases RewardStatus.active = ((λ e. cc), (λ ne. refl))
ticket_status_cases RewardStatus.rejected = ((λ e. cc), (λ ne. refl))
ticket_status_cases RewardStatus.cancelled = ((λ e. cc), (λ ne. refl))

new_tickets-IsTicketOf :
    (input : RewardInput) (month : MonthKey) (now requested reward : ℕ) (random : ℕ → ℕ)
    (id draw n : ℕ)
    → All
        (IsTicketOf (new_reward input month now requested reward))
        (new_tickets input month now reward random id draw n)
unfolding new_tickets
new_tickets-IsTicketOf input month now requested reward random id draw zero = tt
new_tickets-IsTicketOf input month now requested reward random id draw (suc n) = (
  record {
    reward = refl;
    user = refl;
    source = refl;
    month = refl;
    pending = (ticket_status_cases input.status).0;
    active = (ticket_status_cases input.status).1;
    not_entered = refl;
    not_cancelled = refl;
  },
  new_tickets-IsTicketOf input month now requested reward random (suc id) (suc draw) n,
)

-- A reward that has what was asked for, granted in a month.
pub record IsRewardOf (input : RewardInput) (n now : ℕ) (r : DropRewardEvent) : Type 0 where
  pub user : r.user_id ≡ input.user_id
  pub source : r.source ≡ input.source
  pub status : r.status ≡ input.status
  pub key : r.idempotency_key ≡ input.idempotency_key
  pub month : r.month_key ≡ (month_bounds now).month_key
  pub tickets : r.ticket_count ≡ n
  pub created : r.created_at ≡ now
  pub title_of : r.title ≡ input.title
  pub description_of : r.description ≡ input.description
  pub related : (r.related_type ≡ input.related_type) × (r.related_id ≡ input.related_id)
  pub event_of : r.event_id ≡ input.event_id

-- What a first grant leaves: it threw and the tables are as they were, or it wrote the reward under
-- its key and as many tickets of it as it asked for, between 1 and 30, and returned that reward.
abbrev pub Granted : RewardInput → ℕ → Drops → Result RewardResult × Drops → Type 0
Granted input now s (err e, s') = (s'.rewards ≡ s.rewards) × (s'.tickets ≡ s.tickets)
Granted input now s (ok result, s') =
    (r : DropRewardEvent) × (n : ℕ) × (batch : List DropTicket) × (input.ticket_count
      ≡ some (pos n))
    × (1 ≤ n)
    × (n ≤ max_tickets_per_month)
    × (s'.rewards ≡ s.rewards ++ (r ∷ []))
    × (s'.tickets ≡ s.tickets ++ batch)
    × (length batch ≡ n)
    × IsRewardOf input n now r
    × All (IsTicketOf r) batch
    × (result ≡ map_reward false r)
    × (claimed input.idempotency_key s' ≡ some r)

write_reward-Granted :
    (input : RewardInput) (now n : ℕ) (s : Drops)
    → claimed input.idempotency_key s ≡ none
    → input.ticket_count ≡ some (pos n)
    → 1 ≤ n
    → n ≤ max_tickets_per_month
    → Granted input now s
        (settle take_back s (write_reward input (month_bounds now).month_key now n s))
unfolding write_reward
write_reward-Granted input now n s fresh count low high =
    elim (Bool-cases (codes_clash batch s.tickets)) [
      | inl clash ↦ rw clash (refl, refl)
      | inr free ↦ rw free (
        row,
        n,
        batch,
        count,
        low,
        high,
        refl,
        refl,
        length-new_tickets input month now s.next_id s.random (suc s.next_id) s.drawn n,
        record {
          user = refl;
          source = refl;
          status = refl;
          key = refl;
          month = refl;
          tickets = refl;
          created = refl;
          title_of = refl;
          description_of = refl;
          related = (refl, refl);
          event_of = refl;
        },
        new_tickets-IsTicketOf input month now n s.next_id s.random (suc s.next_id) s.drawn n,
        refl,
        find-append (λ r. key_eq r.idempotency_key input.idempotency_key) s.rewards (row ∷ []) fresh
            ∙ found,
      )
    ]
  where
    month : MonthKey
    month = (month_bounds now).month_key

    row : DropRewardEvent
    row = new_reward input month now n s.next_id

    batch : List DropTicket
    batch = new_tickets input month now s.next_id s.random (suc s.next_id) s.drawn n

    found : find (λ r. key_eq r.idempotency_key input.idempotency_key) (row ∷ []) ≡ some row
    found = rw (key_eq_refl input.idempotency_key)

-- A grant whose key is new, in a transaction of its own: it throws and leaves the rewards and tickets
-- as they were; or it adds one reward, under its key and with what was asked for, and as many tickets
-- as were asked for, each of that reward and of its user, source and month, and returns the reward.
pub grant_reward-Granted :
    (tx : Transaction Drops take_back) (input : RewardInput) (now : ℕ) (s : Drops)
    → claimed input.idempotency_key s ≡ none
    → Granted input now s (grant_reward (some tx) input now s)
unfolding grant_reward grant_reward_in_transaction
grant_reward-Granted tx input now s fresh =
    rw (tx.run_settles, grant_reward_in_transaction)
      (rw (fresh, grant_reward_in_transaction)
        (elim (create_reward_cases input month now s) [
          | inl (e, refused) ↦ rw refused (refl, refl)
          | inr (n, count, low, high, _, _, written) ↦
              rw written (write_reward-Granted input now n s fresh count low high)
        ]))
  where
    month : MonthKey
    month = (month_bounds now).month_key

first_grant :
    (tx : Transaction Drops take_back) (input : RewardInput) (now : ℕ) (s s' : Drops)
    (result : RewardResult)
    → grant_reward (some tx) input now s ≡ (ok result, s')
    → (r : DropRewardEvent) × (claimed input.idempotency_key s' ≡ some r)
      × (record result { already_claimed = true } ≡ map_reward true r)
unfolding map_reward
first_grant tx input now s s' result granted =
    elim (Option-cases (claimed input.idempotency_key s)) [
      | inl fresh ↦
          let (r, n, batch, _, _, _, _, _, _, _, _, shows, holds) =
            subst (Granted input now s) granted (grant_reward-Granted tx input now s fresh) in
          (r, holds, ground arith)
      | inr (r, old) ↦
          let e = sym (grant_reward-claimed (some tx) input now s r old) ∙ granted in
          (
            r,
            subst (λ t. claimed input.idempotency_key t ≡ some r) (ap (λ x. x.1) e) old,
            shown result (map_reward true r) (sym (ap (λ x. x.0) e)) refl,
          )
    ]
  where
    shown :
        (a b : RewardResult)
        → ◌≡◌ {A = Result RewardResult} (ok a) (ok b)
        → b.already_claimed ≡ true
        → record a { already_claimed = true } ≡ b
    shown a b p q = ground arith

-- Granting again under a key, at any later time and with any amount, after a grant in a
-- transaction that returned, returns the same reward as claimed and writes nothing.
pub grant_reward_twice :
    (tx : Transaction Drops take_back) (input again : RewardInput) (now later : ℕ) (s s' : Drops)
    (result : RewardResult)
    → grant_reward (some tx) input now s ≡ (ok result, s')
    → again.idempotency_key ≡ input.idempotency_key
    → grant_reward (some tx) again later s' ≡ (ok (record result { already_claimed = true }), s')
grant_reward_twice tx input again now later s s' result granted same =
    let (r, holds, shows) = first in
    grant_reward-claimed (some tx) again later s' r (rw same holds)
    ∙ ap (λ x. (ok x, s')) (sym shows)
  where
    first :
        (r : DropRewardEvent) × (claimed input.idempotency_key s' ≡ some r)
        × (record result { already_claimed = true } ≡ map_reward true r)
    first = first_grant tx input now s s' result granted

-- The month of a time holds it: its first instant in Moscow is not later, and the next reset is.
pub month_bounds_lem :
    (now : ℕ) → ((month_bounds now).start_at ≤ now) × (now < (month_bounds now).next_reset_at)
unfolding month_bounds
month_bounds_lem now = omega (
  arith,
  day_of_lem (now + moscow_offset_ms),
  month_start-suc (day_of (now + moscow_offset_ms)).year (day_of (now + moscow_offset_ms)).month,
)
