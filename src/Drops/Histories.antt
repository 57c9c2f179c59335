-- ===== src/Drops/Histories.antt =====
-- Any sequence of calls of `DropsRewardService`
-- (backend/apps/api/src/services/drops-reward.service.ts), one after the other: what the rewards
-- promise for good.
use frendly.Common.{ℕ, Bool, true, false, not, Option, none, some, List, [], ◌∷◌, refl, String}
use frendly.Common.Int.{ℤ}
use frendly.Common.Action.{ApiError, Transaction}
use frendly.Common.Keeps.{
  Keeps, Keeps-bind, Keeps-attempt, Keeps-if, Keeps-gets, Keeps-pure, Keeps-raise_if, keeps,
}
use frendly.Drops.Tables.{RewardSource, DropReferral, Drops, Meeting}
use frendly.Drops.Grant.{take_back}
use frendly.Drops.Confirm.{cancel_tickets_for_reward, confirm_reward}
use frendly.Drops.Claims.{
  claim_daily_login, claim_verification, grant_subscription_reward, grant_boost_reward,
  grant_referral_reward, one_referral, reward_referrals, reward_verified, handle_user_verified,
  grant_manual_tickets, reward_visits, reward_host, reward_meeting, evaluate_meeting_rewards,
  open_referrals, verification_input, guests, has_started, meeting_found, guest_qualifies,
  host_qualifies, meeting_input, referral_input,
}
use frendly.Drops.Runs.{IsLimited, grant_reward-Keeps, cancel-Keeps, confirm-Keeps}

-- The methods that change the tables. `client` says whether the caller hands in its own
-- transaction's client, which cannot open another.
pub data Call : Type 0 where
  daily_login : ℕ → ℕ → Call
  verification : ℕ → ℕ → Call
  user_verified : ℕ → ℕ → Call
  subscription : Bool → ℕ → ℕ → ℕ → Call
  boost : Bool → ℕ → ℕ → Option ℕ → ℕ → Call
  referral : Bool → ℕ → ℕ → ℕ → Call
  meeting : Bool → ℕ → ℕ → Call
  manual : ℕ → Option ℤ → String → String → ℕ → Call
  cancel : ℕ → String → ℕ → Call
  confirm : ℕ → ℕ → Call

module _ (tx : Transaction Drops take_back) where
  abbrev pub client_of : Bool → Option (Transaction Drops take_back)
  client_of true = none
  client_of false = some tx

  unfoldable pub perform : Call → Drops → Drops
  perform (Call.daily_login user now) s = (claim_daily_login tx user now s).1
  perform (Call.verification user now) s = (claim_verification tx user now s).1
  perform (Call.user_verified user now) s = (handle_user_verified tx user now s).1
  perform (Call.subscription within user source now) s =
      (grant_subscription_reward (client_of within) user source now s).1
  perform (Call.boost within user source event now) s =
      (grant_boost_reward (client_of within) user source event now s).1
  perform (Call.referral within inviter invited now) s =
      (grant_referral_reward (client_of within) inviter invited now s).1
  perform (Call.meeting within event now) s =
      (evaluate_meeting_rewards (client_of within) event now s).1
  perform (Call.manual user n title key now) s = (grant_manual_tickets tx user n title key now s).1
  perform (Call.cancel id reason now) s = (cancel_tickets_for_reward id reason now s).1
  perform (Call.confirm id now) s = (confirm_reward tx id now s).1

  unfoldable pub perform_all : List Call → Drops → Drops
  perform_all [] s = s
  perform_all (c ∷ cs) s = perform_all cs (perform c s)

referrals-Keeps :
    (client : Option (Transaction Drops take_back)) (inviter invited now : ℕ)
    → Keeps IsLimited (grant_referral_reward client inviter invited now)
unfolding grant_referral_reward
referrals-Keeps client inviter invited now =
    Keeps-bind IsLimited _ _ (grant_reward-Keeps client (referral_input inviter invited) now refl)
      (λ result. record {
        after = λ s h. record { capped = h.capped; task_capped = h.task_capped };
      })

module _ (tx : Transaction Drops take_back) where
  one_referral-Keeps :
      (invited : Option ℕ) (inviter now : ℕ) → Keeps IsLimited (one_referral tx invited inviter now)
  one_referral-Keeps none inviter now = search keeps
  one_referral-Keeps (some user) inviter now =
      Keeps-attempt IsLimited _ (referrals-Keeps (some tx) inviter user now)

  reward_referrals-Keeps :
      (rs : List DropReferral) (now : ℕ) → Keeps IsLimited (reward_referrals tx rs now)
  unfolding reward_referrals
  reward_referrals-Keeps [] now = search keeps
  reward_referrals-Keeps (r ∷ rs) now = search (
    keeps,
    one_referral-Keeps r.invited_user_id r.inviter_user_id now,
    reward_referrals-Keeps rs now,
  )

  reward_verified-Keeps : (user now : ℕ) → Keeps IsLimited (reward_verified tx user now)
  unfolding reward_verified
  reward_verified-Keeps user now =
      Keeps-bind IsLimited _ _
        (Keeps-attempt IsLimited _
          (grant_reward-Keeps (some tx) (verification_input user) now refl))
        (λ granted.
          Keeps-bind IsLimited _ _ (Keeps-gets IsLimited (λ s. open_referrals user s.referrals))
            (λ rows.
              Keeps-bind IsLimited _ _ (reward_referrals-Keeps rows now)
                (λ n. Keeps-pure IsLimited (granted, n))))

  handle_user_verified-Keeps : (user now : ℕ) → Keeps IsLimited (handle_user_verified tx user now)
  unfolding handle_user_verified
  handle_user_verified-Keeps user now =
      Keeps-bind IsLimited _ _ (Keeps-gets IsLimited (λ s. s.is_verified user)) (λ verified.
        Keeps-if IsLimited (not verified) _ _ (Keeps-pure IsLimited (none, 0))
          (reward_verified-Keeps user now))

module _ (client : Option (Transaction Drops take_back)) where
  reward_visits-Keeps :
      (m : Meeting) (ps : List (ℕ × ℕ)) (now : ℕ) → Keeps IsLimited (reward_visits client m ps now)
  unfolding reward_visits
  reward_visits-Keeps m [] now = search keeps
  reward_visits-Keeps m (p ∷ ps) now =
      Keeps-bind IsLimited _ _
        (Keeps-if IsLimited (guest_qualifies m p) _ _
          (search (
            keeps,
            grant_reward-Keeps client (meeting_input RewardSource.visit_meeting p.0 m) now refl,
          ))
          (search keeps))
        (λ granted. search (keeps, reward_visits-Keeps m ps now))

  reward_host-Keeps : (m : Meeting) (now : ℕ) → Keeps IsLimited (reward_host client m now)
  unfolding reward_host
  reward_host-Keeps m now =
      Keeps-if IsLimited (host_qualifies m) _ _
        (search (
          keeps,
          grant_reward-Keeps client (meeting_input RewardSource.host_meeting m.host_id m) now refl,
        ))
        (search keeps)

  reward_meeting-Keeps : (m : Meeting) (now : ℕ) → Keeps IsLimited (reward_meeting client m now)
  unfolding reward_meeting
  reward_meeting-Keeps m now =
      search (keeps, reward_host-Keeps m now, reward_visits-Keeps m (guests m) now)

  meeting_found-Keeps :
      (event : Option Meeting) (now : ℕ) → Keeps IsLimited (meeting_found client event now)
  meeting_found-Keeps none now = search keeps
  meeting_found-Keeps (some m) now =
      Keeps-if IsLimited (has_started m now) _ _ (reward_meeting-Keeps m now) (search keeps)

  evaluate-Keeps : (event now : ℕ) → Keeps IsLimited (evaluate_meeting_rewards client event now)
  unfolding evaluate_meeting_rewards
  evaluate-Keeps event now = search (keeps, meeting_found-Keeps)

module _ (tx : Transaction Drops take_back) where
  claim_verification-Keeps : (user now : ℕ) → Keeps IsLimited (claim_verification tx user now)
  unfolding claim_verification
  claim_verification-Keeps user now =
      Keeps-bind IsLimited _ _ (Keeps-gets IsLimited (λ s. s.is_verified user)) (λ verified.
        Keeps-bind IsLimited _ _
          (Keeps-raise_if IsLimited (not verified) ApiError.drops_verification_required)
          (λ _. grant_reward-Keeps (some tx) (verification_input user) now refl))

  perform-IsLimited : (c : Call) (s : Drops) → IsLimited s → IsLimited (perform tx c s)
  unfolding perform claim_daily_login claim_verification grant_subscription_reward
      grant_boost_reward grant_manual_tickets
  perform-IsLimited (Call.daily_login user now) = (grant_reward-Keeps (some tx) _ now refl).after
  perform-IsLimited (Call.verification user now) = (claim_verification-Keeps user now).after
  perform-IsLimited (Call.user_verified user now) = (handle_user_verified-Keeps tx user now).after
  perform-IsLimited (Call.subscription within user source now) =
      (grant_reward-Keeps (client_of tx within) _ now refl).after
  perform-IsLimited (Call.boost within user source event now) =
      (grant_reward-Keeps (client_of tx within) _ now refl).after
  perform-IsLimited (Call.referral within inviter invited now) =
      (referrals-Keeps (client_of tx within) inviter invited now).after
  perform-IsLimited (Call.meeting within event now) =
      (evaluate-Keeps (client_of tx within) event now).after
  perform-IsLimited (Call.manual user n title key now) =
      (grant_reward-Keeps (some tx) _ now refl).after
  perform-IsLimited (Call.cancel id reason now) = (cancel-Keeps id reason now).after
  perform-IsLimited (Call.confirm id now) = (confirm-Keeps tx id now).after

  -- After any sequence of calls from tables that keep the limits, every user holds at most 30
  -- reserved tickets of each month, and has earned by each limited task at most its monthly limit.
  pub perform_all-IsLimited :
      (cs : List Call) (s : Drops) → IsLimited s → IsLimited (perform_all tx cs s)
  unfolding perform_all
  perform_all-IsLimited [] s h = h
  perform_all-IsLimited (c ∷ cs) s h =
      perform_all-IsLimited cs (perform tx c s) (perform-IsLimited c s h)
