-- ===== src/Tests/Rewards.antt =====
-- Rewards of the drops at concrete inputs.
use frendly.Common.{ℕ, true, false, some, List, [], ◌∷◌, ◌≡◌, ◌≤◌, ◌<◌, refl, arith}
use frendly.Common.Action.{ok, Transaction, settling}
use frendly.Calendar.{day_of, month_length, year_length, find_year, find_month}
use frendly.Drops.Tables.{RewardSource, KeyRest, key_eq, Drops}
use frendly.Drops.Grant.{
  RewardInput, RewardResult, month_bounds, map_reward, take_back, new_reward, grant_reward,
  grant_reward_in_transaction, create_reward, write_reward, assert_monthly_limit,
  normalize_ticket_count, codes_clash, new_tickets,
}
use frendly.Drops.Claims.{reward_input}
use frendly.Drops.Histories.{Call, perform_all, perform_all-IsLimited}
use frendly.Drops.Runs.{IsLimited}
use frendly.Drops.Idempotency.{
  Granted, claimed, grant_reward-Granted, grant_reward_twice, month_bounds_lem,
}

abbrev pub no_drops : Drops
no_drops = record {
  rewards = [];
  tickets = [];
  referrals = [];
  meetings = [];
  drops = [];
  snapshots = [];
  winners = [];
  is_verified = λ user. true;
  next_id = 1;
  random = λ n. n;
  drawn = 0;
}

abbrev pub drops_tx : Transaction Drops take_back
drops_tx = settling Drops take_back

no_drops-IsLimited : IsLimited no_drops
no_drops-IsLimited = record {
  capped = λ user month. ground arith;
  task_capped = λ user source month limit e. ground arith;
}

abbrev calls : List Call
calls =
    Call.daily_login 7 86400000
    ∷ Call.daily_login 7 86400000
    ∷ Call.verification 7 90000000
    ∷ Call.boost false 7 3 (some 2) 95000000
    ∷ []

perform_all-IsLimited_example : IsLimited (perform_all drops_tx calls no_drops)
perform_all-IsLimited_example = perform_all-IsLimited drops_tx calls no_drops no_drops-IsLimited

abbrev login : RewardInput
login = reward_input RewardSource.daily_login 7 (KeyRest.of_date 0 0 1)

-- The tables and the answer after a first grant.
abbrev granted_at : ℕ
granted_at = 86400000

abbrev after_login : Drops
after_login = (grant_reward (some drops_tx) login granted_at no_drops).1

abbrev login_result : RewardResult
login_result = map_reward false (new_reward login (record { year = 0; month = 0 }) granted_at 1 1)

first_login :
    grant_reward (some drops_tx) login granted_at no_drops ≡ (ok login_result, after_login)
unfolding grant_reward grant_reward_in_transaction create_reward write_reward assert_monthly_limit
    normalize_ticket_count month_bounds codes_clash new_tickets key_eq day_of find_year find_month
    year_length month_length
first_login = refl

login-claimed :
    claimed login.idempotency_key after_login
    ≡ some (new_reward login (record { year = 0; month = 0 }) granted_at 1 1)
unfolding grant_reward grant_reward_in_transaction create_reward write_reward assert_monthly_limit
    normalize_ticket_count month_bounds codes_clash new_tickets key_eq day_of find_year find_month
    year_length month_length
login-claimed = refl

grant_reward_twice_example :
    grant_reward (some drops_tx) login 90000000 after_login
    ≡ (ok (record login_result { already_claimed = true }), after_login)
grant_reward_twice_example =
    grant_reward_twice drops_tx login login granted_at 90000000 no_drops after_login login_result
      first_login refl

grant_reward-Granted_example :
    Granted login granted_at no_drops (grant_reward (some drops_tx) login granted_at no_drops)
grant_reward-Granted_example = grant_reward-Granted drops_tx login granted_at no_drops refl

month_bounds_lem_example :
    ((month_bounds 90000000).start_at ≤ 90000000)
    × (90000000 < (month_bounds 90000000).next_reset_at)
month_bounds_lem_example = month_bounds_lem 90000000
