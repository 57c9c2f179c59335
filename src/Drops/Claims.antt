-- ===== src/Drops/Claims.antt =====
-- The public methods of `DropsRewardService` that grant a reward
-- (backend/apps/api/src/services/drops-reward.service.ts): each builds its input and calls
-- `grantReward`.
use Prim.Native.String.{◌++◌}
use frendly.Common.{
  ℕ, ◌+◌, ltb, leb, ◌==◌, ◌*◌, Bool, false, not, ◌&&◌, String, Option, none, some, List, [], ◌∷◌,
  if◌then◌else◌, keep, find, change, count, length, str_eq,
}
use frendly.Common.Int.{ℤ, pos}
use frendly.Common.Text.{trim, is_empty}
use frendly.Common.Action.{
  Action, ApiError, pure, gets, ◌>>=◌, ◌>>◌, raise_if, modify, attempt, Transaction,
}
use frendly.Calendar.{day_of, moscow_offset_ms, hour_ms}
use frendly.Drops.Tables.{
  RewardSource, RewardStatus, KeyRest, DropReferral, Meeting, Drops, task_limit,
  ticket_count_by_source, title_by_source,
}
use frendly.Drops.Grant.{RewardInput, RewardResult, take_back, grant_reward}

-- What the inputs of one source share.
abbrev pub reward_input : RewardSource → ℕ → KeyRest → RewardInput
reward_input source user rest = record {
  user_id = user;
  source = source;
  idempotency_key = record { source = source; user_id = user; rest = rest };
  ticket_count = some (pos (ticket_count_by_source source));
  title = title_by_source source;
  description = none;
  status = RewardStatus.active;
  task_monthly_limit = task_limit source;
  related_type = none;
  related_id = none;
  event_id = none;
}

-- `localDateKey`
abbrev pub local_date_key : ℕ → KeyRest
local_date_key now = let d = day_of (now + moscow_offset_ms) in KeyRest.of_date d.year d.month d.day

abbrev pub verification_input : ℕ → RewardInput
verification_input user = reward_input RewardSource.verification user KeyRest.whole

module _ (tx : Transaction Drops take_back) where
  unfoldable pub claim_daily_login : ℕ → ℕ → Action Drops RewardResult
  claim_daily_login user now =
      grant_reward (some tx) (reward_input RewardSource.daily_login user (local_date_key now)) now

  unfoldable pub claim_verification : ℕ → ℕ → Action Drops RewardResult
  claim_verification user now = do
    verified ← gets (λ s. s.is_verified user)
    raise_if (not verified) ApiError.drops_verification_required
    grant_reward (some tx) (verification_input user) now

abbrev pub subscription_input : ℕ → ℕ → RewardInput
subscription_input user source_id =
    let input = reward_input RewardSource.subscription user (KeyRest.of_id source_id) in
    record input { related_type = some "subscription"; related_id = some source_id }

unfoldable pub grant_subscription_reward :
    Option (Transaction Drops take_back) → ℕ → ℕ → ℕ → Action Drops RewardResult
grant_subscription_reward client user source_id now =
    grant_reward client (subscription_input user source_id) now

abbrev pub boost_input : ℕ → ℕ → Option ℕ → RewardInput
boost_input user source_id event_id =
    let input = reward_input RewardSource.boost user (KeyRest.of_id source_id) in
    record input {
      related_type = some "token_promotion";
      related_id = some source_id;
      event_id = event_id;
    }

unfoldable pub grant_boost_reward :
    Option (Transaction Drops take_back) → ℕ → ℕ → Option ℕ → ℕ → Action Drops RewardResult
grant_boost_reward client user source_id event_id now =
    grant_reward client (boost_input user source_id event_id) now

abbrev pub referral_input : ℕ → ℕ → RewardInput
referral_input inviter invited =
    let input = reward_input RewardSource.referral inviter (KeyRest.of_id invited) in
    record input { related_type = some "user"; related_id = some invited }

abbrev pub is_invited : ℕ → Option ℕ → Bool
is_invited user none = false
is_invited user (some u) = u == user

unfoldable pub grant_referral_reward :
    Option (Transaction Drops take_back) → ℕ → ℕ → ℕ → Action Drops RewardResult
grant_referral_reward client inviter invited now = do
  result ← grant_reward client (referral_input inviter invited) now
  modify (λ s. record s {
    referrals =
        change (λ r. r.inviter_user_id == inviter && is_invited invited r.invited_user_id)
          (λ r. record r {
            status = "rewarded";
            reward_event_id = some result.id;
            verified_at = some now;
          })
          s.referrals;
  })
  pure result

-- The rows of `handleUserVerified`: those of the user that are not rewarded.
abbrev pub open_referrals : ℕ → List DropReferral → List DropReferral
open_referrals user =
    keep (λ r. is_invited user r.invited_user_id && not (str_eq r.status "rewarded"))

abbrev pub one_if : {A : Type 0} → Option A → ℕ
one_if none = 0
one_if (some _) = 1

module _ (tx : Transaction Drops take_back) where
  abbrev pub one_referral : Option ℕ → ℕ → ℕ → Action Drops (Option RewardResult)
  one_referral none inviter now = pure none
  one_referral (some invited) inviter now =
      attempt (grant_referral_reward (some tx) inviter invited now)

  -- The loop over the referrals, with its count; a row without an invited user is passed over.
  unfoldable pub reward_referrals : List DropReferral → ℕ → Action Drops ℕ
  reward_referrals [] now = pure 0
  reward_referrals (r ∷ rs) now = do
    granted ← one_referral r.invited_user_id r.inviter_user_id now
    rest ← reward_referrals rs now
    pure (one_if {A = RewardResult} granted + rest)

  unfoldable pub reward_verified : ℕ → ℕ → Action Drops (Option RewardResult × ℕ)
  reward_verified user now = do
    verification ← attempt (grant_reward (some tx) (verification_input user) now)
    referrals ← gets (λ s. open_referrals user s.referrals)
    referral_count ← reward_referrals referrals now
    pure (verification, referral_count)

  unfoldable pub handle_user_verified : ℕ → ℕ → Action Drops (Option RewardResult × ℕ)
  handle_user_verified user now = do
    verified ← gets (λ s. s.is_verified user)
    if not verified then pure (none, 0) else reward_verified user now

  unfoldable pub grant_manual_tickets :
      ℕ → Option ℤ → String → String → ℕ → Action Drops RewardResult
  grant_manual_tickets user ticket_count title admin_key now =
      let input = reward_input RewardSource.manual_admin user (KeyRest.of_text admin_key) in
      let trimmed = trim title in
      grant_reward (some tx)
        (record input {
          ticket_count = ticket_count;
          title = if is_empty trimmed then title_by_source RewardSource.manual_admin else trimmed;
        })
        now

-- `new Set(…)`, as the list of its members.
abbrev pub distinct : List ℕ → List ℕ
distinct [] = []
distinct (x ∷ xs) =
    let rest = distinct xs in if ltb 0 (count (λ y. y == x) rest) then rest else x ∷ rest

abbrev pub guests : Meeting → List (ℕ × ℕ)
guests m = keep (λ p. not (p.0 == m.host_id)) m.participants

abbrev pub checked_in_guests : Meeting → List ℕ
checked_in_guests m = distinct (keep (λ u. not (u == m.host_id)) m.checked_in)

abbrev pub meeting_title : String → Meeting → String
meeting_title what m = what ++ (" «" ++ (m.title ++ "»"))

abbrev pub meeting_input : RewardSource → ℕ → Meeting → RewardInput
meeting_input source user m =
    let input = reward_input source user (KeyRest.of_id m.id) in
    record input {
      title = meeting_title (title_by_source source) m;
      related_type = some "event";
      related_id = some m.id;
      event_id = some m.id;
    }

-- The conditions of the host's reward, and of a guest's.
unfoldable pub host_qualifies : Meeting → Bool
host_qualifies m =
    leb (m.created_at + 6 * hour_ms) m.starts_at
    && leb 3 (length (guests m))
    && leb 2 (length (checked_in_guests m))

unfoldable pub guest_qualifies : Meeting → ℕ × ℕ → Bool
guest_qualifies m (user, joined_at) =
    not (leb m.starts_at joined_at) && ltb 0 (count (λ u. u == user) (checked_in_guests m))

-- The event has started, and was not cancelled.
abbrev pub has_started : Meeting → ℕ → Bool
has_started m now = elim m.canceled_at [ none ↦ leb m.starts_at now | some _ ↦ false ]

module _ (client : Option (Transaction Drops take_back)) where
  unfoldable pub reward_visits : Meeting → List (ℕ × ℕ) → ℕ → Action Drops ℕ
  reward_visits m [] now = pure 0
  reward_visits m (p ∷ ps) now = do
    granted ←
        if guest_qualifies m p
        then attempt (grant_reward client (meeting_input RewardSource.visit_meeting p.0 m) now)
        else pure none
    rest ← reward_visits m ps now
    pure (one_if {A = RewardResult} granted + rest)

  unfoldable pub reward_host : Meeting → ℕ → Action Drops (Option RewardResult)
  reward_host m now =
      if host_qualifies m
      then attempt (grant_reward client (meeting_input RewardSource.host_meeting m.host_id m) now)
      else pure none

  unfoldable pub reward_meeting : Meeting → ℕ → Action Drops ℕ
  unfolding reward_host reward_visits
  reward_meeting m now = do
    host ← reward_host m now
    visits ← reward_visits m (guests m) now
    pure (one_if {A = RewardResult} host + visits)

  abbrev pub meeting_found : Option Meeting → ℕ → Action Drops ℕ
  meeting_found none now = pure 0
  meeting_found (some m) now = if has_started m now then reward_meeting m now else pure 0

  unfoldable pub evaluate_meeting_rewards : ℕ → ℕ → Action Drops ℕ
  unfolding reward_meeting
  evaluate_meeting_rewards event_id now = do
    event ← gets (λ s. find (λ m. m.id == event_id) s.meetings)
    meeting_found event now
