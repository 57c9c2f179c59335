-- ===== src/Dating/Daily.antt =====
-- How many free super likes and rewinds a day can have
-- (backend/apps/api/src/services/dating.service.ts).
use frendly.Common.{
  ℕ, ◌≤◌, ◌==◌, Bool, true, false, not, Option, List, [], ◌∷◌, find, max, ◌≡◌, refl, arith,
  Bool-cases, inl, inr,
}
use frendly.Common.Action.{ApiError, gets, or_raise, Transaction}
use frendly.Common.Keeps.{Keeps, Keeps-bind, Keeps-gets, Keeps-or_raise, Keeps-run, keeps}
use frendly.Dating.Tables.{
  DatingActionKind, DatingUsageEventKind, usage_index, DatingAction, PlusRules,
  plus_rewind_daily_limit, paid_rewind_cost, Dating, take_back,
}
use frendly.Dating.Quotas.{
  moscow_day_window, count_usage, create_usage_event, ensure_swipe_allowed, save_action,
  super_like_limit, is_action, consume_super_like_quota, rewind_limit, consume_rewind_quota, when,
  super_like_quota, write_action, rewind_pass, record_action, rewind_last_pass, pass_of,
  latest_action, is_between, action_of, charged_of,
}
use frendly.Dating.Uses.{
  Within, upsert_action-Keeps, when-Keeps, ensure_swipe_allowed-Keeps, create_other-Keeps,
  use-Within, use_other-Keeps,
}

module _ (kind : DatingUsageEventKind) (bound : ℕ) where
  -- The writes of a swipe but for its quota
  swipe-Keeps :
      (user target : ℕ) (action : DatingActionKind) (changed : Bool) (now charged : ℕ)
      → (usage_index DatingUsageEventKind.swipe == usage_index kind) ≡ false
      → Keeps (Within kind bound) (save_action user target action changed charged now)
  swipe-Keeps user target action changed now charged other = search (
    keeps,
    upsert_action-Keeps kind bound user target action now,
    when-Keeps kind bound changed (create_usage_event user target DatingUsageEventKind.swipe 0 now)
        (create_other-Keeps kind bound user target DatingUsageEventKind.swipe 0 now other),
  )

  -- The writes of `recordAction`, where its quota of super likes keeps the bound.
  write_action-Keeps :
      (user target : ℕ) (action : DatingActionKind) (premium : Bool) (rules : PlusRules)
      (previous : Option DatingActionKind) (now : ℕ)
      → (usage_index DatingUsageEventKind.swipe == usage_index kind) ≡ false
      → Keeps (Within kind bound) (consume_super_like_quota user target premium rules previous now)
      → Keeps (Within kind bound) (write_action user target action premium rules previous now)
  unfolding write_action
  write_action-Keeps user target action premium rules previous now other quota =
      Keeps-bind (Within kind bound)
        (when (not (is_action action previous)) (ensure_swipe_allowed user premium rules now)) _
        (when-Keeps kind bound (not (is_action action previous))
          (ensure_swipe_allowed user premium rules now)
          (ensure_swipe_allowed-Keeps kind bound user premium rules now))
        (λ _.
          Keeps-bind (Within kind bound)
            (super_like_quota action user target premium rules previous now) _ (by_action action)
            (λ q.
              swipe-Keeps user target action (not (is_action action previous)) now (charged_of q)
                other))
    where
      by_action :
          (a : DatingActionKind)
          → Keeps (Within kind bound) (super_like_quota a user target premium rules previous now)
      by_action DatingActionKind.super_like = search (keeps, quota)
      by_action DatingActionKind.like = search keeps
      by_action DatingActionKind.pass = search keeps

  rewind_pass-Keeps :
      (a : DatingAction) (premium : Bool) (now : ℕ)
      → Keeps
          (Within kind bound)
          (consume_rewind_quota a.actor_user_id a.target_user_id premium now)
      → Keeps (Within kind bound) (rewind_pass a premium now)
  unfolding rewind_pass
  rewind_pass-Keeps a premium now quota =
      Keeps-bind (Within kind bound)
        (consume_rewind_quota a.actor_user_id a.target_user_id premium now) _ quota
        (λ q. record { after = λ s h. h })

  record_action-Keeps :
      (tx : Transaction Dating take_back) (user target : ℕ) (action : DatingActionKind)
      (premium : Bool) (rules : PlusRules) (now : ℕ)
      → (usage_index DatingUsageEventKind.swipe == usage_index kind) ≡ false
      → ((previous : Option DatingActionKind)
          → Keeps
              (Within kind bound)
              (consume_super_like_quota user target premium rules previous now))
      → Keeps (Within kind bound) (record_action tx user target action premium rules now)
  unfolding record_action
  record_action-Keeps tx user target action premium rules now other quota =
      Keeps-bind (Within kind bound)
        (gets (λ s. action_of (find (is_between user target) s.actions))) _
        (Keeps-gets (Within kind bound) _)
        (λ previous.
          Keeps-run (Within kind bound) tx
            (write_action user target action premium rules previous now) (λ s s' h. h)
            (write_action-Keeps user target action premium rules previous now other
              (quota previous)))

  rewind_last_pass-Keeps :
      (tx : Transaction Dating take_back) (user : ℕ) (premium : Bool) (now : ℕ)
      → ((actor target : ℕ)
          → Keeps (Within kind bound) (consume_rewind_quota actor target premium now))
      → Keeps (Within kind bound) (rewind_last_pass tx user premium now)
  unfolding rewind_last_pass
  rewind_last_pass-Keeps tx user premium now quota =
      Keeps-bind (Within kind bound) (gets (λ s. latest_action user s.actions)) _
        (Keeps-gets (Within kind bound) _)
        (λ latest.
          Keeps-bind (Within kind bound)
            (or_raise (pass_of latest) ApiError.dating_rewind_unavailable) _
            (Keeps-or_raise (Within kind bound) (pass_of latest) ApiError.dating_rewind_unavailable)
            (λ a.
              Keeps-run (Within kind bound) tx (rewind_pass a premium now) (λ s s' h. h)
                (rewind_pass-Keeps a premium now (quota a.actor_user_id a.target_user_id))))

pub data DatingCall : Type 0 where
  swiping : ℕ → ℕ → DatingActionKind → Bool → ℕ → DatingCall
  rewinding : ℕ → Bool → ℕ → DatingCall

module _ (rules : PlusRules) (tx : Transaction Dating take_back) where
  unfoldable pub perform : DatingCall → Dating → Dating
  perform (DatingCall.swiping user target action premium now) s =
      (record_action tx user target action premium rules now s).1
  perform (DatingCall.rewinding user premium now) s = (rewind_last_pass tx user premium now s).1

  unfoldable pub perform_all : List DatingCall → Dating → Dating
  perform_all [] s = s
  perform_all (c ∷ cs) s = perform_all cs (perform c s)

  abbrev pub most_super_likes : ℕ
  most_super_likes = max rules.free_super_like_daily_limit rules.plus_super_like_daily_limit

  -- No user has more free super likes in one day of Moscow than the larger of the two limits, nor more
  -- free rewinds than the limit of Plus.
  abbrev pub IsWithinDays : Dating → Type 0
  IsWithinDays s =
      Within DatingUsageEventKind.super_like_free most_super_likes s
      × Within DatingUsageEventKind.rewind_free plus_rewind_daily_limit s

  super_like_limit-≤ : (premium : Bool) → super_like_limit premium rules ≤ most_super_likes
  super_like_limit-≤ true = ground arith
  super_like_limit-≤ false = ground arith

  rewind_limit-≤ : (premium : Bool) → rewind_limit premium ≤ plus_rewind_daily_limit
  rewind_limit-≤ true = omega arith
  rewind_limit-≤ false = omega arith

  super_likes-Keeps :
      (user target : ℕ) (premium : Bool) (previous : Option DatingActionKind) (now : ℕ)
      → Keeps
          (Within DatingUsageEventKind.super_like_free most_super_likes)
          (consume_super_like_quota user target premium rules previous now)
  unfolding consume_super_like_quota
  super_likes-Keeps user target premium previous now = record {
    after = λ s h. elim (Bool-cases (is_action DatingActionKind.super_like previous)) [
      | inl again ↦ rw again (h)
      | inr first ↦ rw first (
          use-Within DatingUsageEventKind.super_like_free most_super_likes user target
            DatingUsageEventKind.super_like_paid (super_like_limit premium rules)
            rules.paid_super_like_token_cost now s refl (super_like_limit-≤ premium) h)
    ];
  }

  super_like_rewinds-Keeps :
      (user target : ℕ) (premium : Bool) (previous : Option DatingActionKind) (now : ℕ)
      → Keeps
          (Within DatingUsageEventKind.rewind_free plus_rewind_daily_limit)
          (consume_super_like_quota user target premium rules previous now)
  unfolding consume_super_like_quota
  super_like_rewinds-Keeps user target premium previous now = record {
    after = λ s h. elim (Bool-cases (is_action DatingActionKind.super_like previous)) [
      | inl again ↦ rw again (h)
      | inr first ↦ rw first (
          (use_other-Keeps DatingUsageEventKind.rewind_free plus_rewind_daily_limit user target
              DatingUsageEventKind.super_like_free DatingUsageEventKind.super_like_paid
              (super_like_limit premium rules)
              (count_usage user DatingUsageEventKind.super_like_free (moscow_day_window now) s)
              rules.paid_super_like_token_cost now refl refl).after
            s h)
    ];
  }

  rewinds-Keeps :
      (premium : Bool) (now user target : ℕ)
      → Keeps
          (Within DatingUsageEventKind.rewind_free plus_rewind_daily_limit)
          (consume_rewind_quota user target premium now)
  unfolding consume_rewind_quota
  rewinds-Keeps premium now user target = record {
    after = λ s h.
        use-Within DatingUsageEventKind.rewind_free plus_rewind_daily_limit user target
          DatingUsageEventKind.rewind_paid (rewind_limit premium) paid_rewind_cost now s refl
          (rewind_limit-≤ premium) h;
  }

  rewind_super_likes-Keeps :
      (premium : Bool) (now user target : ℕ)
      → Keeps
          (Within DatingUsageEventKind.super_like_free most_super_likes)
          (consume_rewind_quota user target premium now)
  unfolding consume_rewind_quota
  rewind_super_likes-Keeps premium now user target = record {
    after = λ s h.
        (use_other-Keeps DatingUsageEventKind.super_like_free most_super_likes user target
            DatingUsageEventKind.rewind_free DatingUsageEventKind.rewind_paid (rewind_limit premium)
            (count_usage user DatingUsageEventKind.rewind_free (moscow_day_window now) s)
            paid_rewind_cost now refl refl).after
          s h;
  }

  perform-IsWithinDays : (c : DatingCall) (s : Dating) → IsWithinDays s → IsWithinDays (perform c s)
  unfolding perform
  perform-IsWithinDays (DatingCall.swiping user target action premium now) s (a, b) = (
    (record_action-Keeps DatingUsageEventKind.super_like_free most_super_likes tx user target action
          premium rules now refl
          (λ previous. super_likes-Keeps user target premium previous now)).after
        s a,
    (record_action-Keeps DatingUsageEventKind.rewind_free plus_rewind_daily_limit tx user target
          action premium rules now refl
          (λ previous. super_like_rewinds-Keeps user target premium previous now)).after
        s b,
  )
  perform-IsWithinDays (DatingCall.rewinding user premium now) s (a, b) = (
    (rewind_last_pass-Keeps DatingUsageEventKind.super_like_free most_super_likes tx user premium
          now (rewind_super_likes-Keeps premium now)).after
        s a,
    (rewind_last_pass-Keeps DatingUsageEventKind.rewind_free plus_rewind_daily_limit tx user premium
          now (rewinds-Keeps premium now)).after
        s b,
  )

  -- Through any list of swipes and rewinds, whatever the clock of each call is, no user has more free
  -- super likes in one day of Moscow than the larger of the two daily limits, nor more than five free
  -- rewinds, if this holds at the start.
  pub perform_all-IsWithinDays :
      (calls : List DatingCall) (s : Dating) → IsWithinDays s → IsWithinDays (perform_all calls s)
  unfolding perform_all
  perform_all-IsWithinDays [] s h = h
  perform_all-IsWithinDays (c ∷ cs) s h =
      perform_all-IsWithinDays cs (perform c s) (perform-IsWithinDays c s h)
