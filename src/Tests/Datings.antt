-- ===== src/Tests/Datings.antt =====
-- Quotas of dating at concrete inputs.
use frendly.Common.{◌+◌, ◌*◌, length, true, false, arith, none, some, [], ◌∷◌, List, ◌≡◌, refl}
use frendly.Common.Action.{Transaction, settling}
use frendly.Dating.Tables.{DatingActionKind, PlusRules, Dating, take_back}
use frendly.Dating.Quotas.{
  record_action, write_action, consume_super_like_quota, use_free_or_pay, spend_dating_tokens,
  upsert_action, ensure_swipe_allowed, create_usage_event, rewind_last_pass, latest_action,
  rewind_pass, consume_rewind_quota, moscow_day_window,
}
use frendly.Calendar.{
  month_start, days_to_year, day_of, find_year, year_length, days_to_month, find_month,
  month_length,
}
use frendly.Tokens.Wallet.{spend_tokens, ensure_wallet, create_wallet}
use frendly.Dating.Daily.{DatingCall, perform, perform_all, IsWithinDays, perform_all-IsWithinDays}
use frendly.Dating.Charges.{Honoured, load_fresh_limits-Honoured}
use frendly.Tests.Wallets.{no_tokens, no_tokens-IsSound}

abbrev plus_rules : PlusRules
plus_rules = record {
  free_swipe_hourly_limit = some 100;
  plus_swipe_hourly_limit = none;
  free_super_like_daily_limit = 1;
  plus_super_like_daily_limit = 10;
  paid_super_like_token_cost = 50;
}

abbrev no_actions : Dating
no_actions = record { actions = []; usage = []; tokens = no_tokens; next_id = 1 }

abbrev dating_tx : Transaction Dating take_back
dating_tx = settling Dating take_back

-- A super like, a pass that is rewound, and a second super like that nothing pays for.
abbrev day_of_calls : List DatingCall
day_of_calls =
    DatingCall.swiping 7 8 DatingActionKind.super_like true 1000
    ∷ DatingCall.swiping 7 9 DatingActionKind.pass true 2000
    ∷ DatingCall.rewinding 7 true 3000
    ∷ DatingCall.swiping 7 10 DatingActionKind.super_like false 4000
    ∷ []

-- The second super like is refused and leaves no row; the rewind takes the pass away.
rows_after_calls :
    let after = perform_all plus_rules dating_tx day_of_calls no_actions in
    length after.actions + 10 * length after.usage ≡ 41
unfolding perform_all perform record_action write_action consume_super_like_quota use_free_or_pay
    spend_dating_tokens upsert_action ensure_swipe_allowed create_usage_event rewind_last_pass
    latest_action rewind_pass consume_rewind_quota spend_tokens ensure_wallet create_wallet
    moscow_day_window month_start days_to_year day_of find_year year_length days_to_month find_month
    month_length
rows_after_calls = refl

perform_all-IsWithinDays_example :
    IsWithinDays plus_rules dating_tx (perform_all plus_rules dating_tx day_of_calls no_actions)
perform_all-IsWithinDays_example =
    perform_all-IsWithinDays plus_rules dating_tx day_of_calls no_actions
      ((λ user t. omega arith), (λ user t. omega arith))

load_fresh_limits-Honoured_example : Honoured 7 8 true plus_rules none 1000 no_actions
load_fresh_limits-Honoured_example =
    load_fresh_limits-Honoured 7 8 true plus_rules none 1000 no_actions no_tokens-IsSound refl
