-- ===== src/Dating/Uses.antt =====
-- The uses of a kind in a day of Moscow, and what each part of a call does to them
-- (backend/apps/api/src/services/dating.service.ts).
use frendly.Common.{
  ℕ, suc, ◌+◌, ◌-◌, ◌*◌, ◌/◌, ◌≤◌, ◌<◌, ◌==◌, leb, ltb, Bool, true, false, ◌&&◌, Option, none, some,
  find, count-append, if◌then◌else◌, ◌≡◌, sym, arith, Bool-cases, inl, inr, subst,
}
use frendly.Common.Action.{Action, gets}
use frendly.Common.Keeps.{Keeps, Keeps-bind, Keeps-if, Keeps-pure, Keeps-gets, keeps}
use frendly.Calendar.{day_ms, moscow_offset_ms}
use frendly.Calendar.Split.{day_of_lem}
use frendly.Dating.Tables.{
  DatingActionKind, DatingUsageEventKind, usage_index, DatingAction, PlusRules, Dating,
}
use frendly.Dating.Quotas.{
  moscow_day_window, is_used, count_usage, create_usage_event, spend_dating_tokens,
  ensure_swipe_allowed, swipe_within, upsert_found, use_free, pay_for_use, Quota, quota_of,
  use_free_or_pay, upsert_action, when, is_between,
}

-- The day of Moscow that holds a time, in days since 1970.
abbrev day_number : ℕ → ℕ
day_number t = (t + moscow_offset_ms) / day_ms

pub moscow_day_window_lem :
    (t : ℕ)
    → moscow_day_window t ≡ record {
      start = day_number t * day_ms - moscow_offset_ms;
      end = suc (day_number t) * day_ms - moscow_offset_ms;
    }
unfolding moscow_day_window
moscow_day_window_lem t = rw ((day_of_lem (t + moscow_offset_ms)).0)

-- A time in the window of a day has the same window.
same_window :
    (t now : ℕ)
    → leb (moscow_day_window t).start now ≡ true
    → ltb now (moscow_day_window t).end ≡ true
    → moscow_day_window t ≡ moscow_day_window now
same_window t now h k =
    let from = rw (moscow_day_window_lem t) at h in
    let until = rw (moscow_day_window_lem t) at k in
    let same : day_number t ≡ day_number now = ground (arith, from, until) in
    rw (moscow_day_window_lem t, moscow_day_window_lem now, same)

-- No user has more uses of a kind in one day of Moscow than a bound.
abbrev pub Within : DatingUsageEventKind → ℕ → Dating → Type 0
Within kind bound s = (user t : ℕ) → count_usage user kind (moscow_day_window t) s ≤ bound

module _ (kind : DatingUsageEventKind) (bound : ℕ) where
  -- A use is added where the day of its time has fewer uses, or its kind is another.
  create-Within :
      (user target : ℕ) (k : DatingUsageEventKind) (charged now : ℕ) (s : Dating)
      → ((usage_index k == usage_index kind) ≡ true
          → count_usage user kind (moscow_day_window now) s < bound)
      → Within kind bound s
      → Within kind bound (create_usage_event user target k charged now s).1
  unfolding create_usage_event
  create-Within user target k charged now s room h u t =
      rw (count-append (is_used u kind (moscow_day_window t)) s.usage _)
        (elim (Bool-cases (
          (user == u)
          && (usage_index k == usage_index kind)
          && leb (moscow_day_window t).start now
          && ltb now (moscow_day_window t).end)) [
            | inr other ↦ ground (arith, h u t, other)
            | inl counted ↦
                let same : user ≡ u = ground (arith, counted) in
                let window : moscow_day_window t ≡ moscow_day_window now =
                  same_window t now (ground (arith, counted)) (ground (arith, counted)) in
                let free : count_usage u kind (moscow_day_window t) s < bound =
                  subst (λ w. count_usage u kind w s < bound) (sym window)
                    (subst (λ v. count_usage v kind (moscow_day_window now) s < bound) same
                      (room (ground (arith, counted)))) in
                ground (arith, free)
          ])

  spend_dating_tokens-Keeps :
      (user amount now : ℕ) → Keeps (Within kind bound) (spend_dating_tokens user amount now)
  unfolding spend_dating_tokens
  spend_dating_tokens-Keeps user amount now = record { after = λ s h. h }

  pub upsert_action-Keeps :
      (actor target : ℕ) (action : DatingActionKind) (now : ℕ)
      → Keeps (Within kind bound) (upsert_action actor target action now)
  unfolding upsert_action
  upsert_action-Keeps actor target action now =
      Keeps-bind (Within kind bound) (gets (λ s. find (is_between actor target) s.actions)) _
        (Keeps-gets (Within kind bound) _) found_Keeps
    where
      found_Keeps :
          (a : Option DatingAction)
          → Keeps (Within kind bound) (upsert_found a actor target action now)
      found_Keeps none = record { after = λ s h. h }
      found_Keeps (some a) = record { after = λ s h. h }

  pub when-Keeps :
      (b : Bool) (m : Action Dating (Unit {0}))
      → Keeps (Within kind bound) m
      → Keeps (Within kind bound) (when b m)
  when-Keeps true m h = h
  when-Keeps false m h = record { after = λ s k. k }

  pub ensure_swipe_allowed-Keeps :
      (user : ℕ) (premium : Bool) (rules : PlusRules) (now : ℕ)
      → Keeps (Within kind bound) (ensure_swipe_allowed user premium rules now)
  unfolding ensure_swipe_allowed
  ensure_swipe_allowed-Keeps user premium rules now =
      within_Keeps
        (if premium then rules.plus_swipe_hourly_limit else rules.free_swipe_hourly_limit)
    where
      within_Keeps : (limit : Option ℕ) → Keeps (Within kind bound) (swipe_within limit user now)
      within_Keeps none = search keeps
      within_Keeps (some limit) = search keeps

  -- A use of another kind
  pub create_other-Keeps :
      (user target : ℕ) (k : DatingUsageEventKind) (charged now : ℕ)
      → (usage_index k == usage_index kind) ≡ false
      → Keeps (Within kind bound) (create_usage_event user target k charged now)
  create_other-Keeps user target k charged now other = record {
    after = λ s h. create-Within user target k charged now s (λ e. absurd (cc)) h;
  }

  pay-Keeps :
      (user target : ℕ) (paid : DatingUsageEventKind) (cost now : ℕ) (quota : Quota)
      → (usage_index paid == usage_index kind) ≡ false
      → Keeps (Within kind bound) (pay_for_use user target paid quota cost now)
  pay-Keeps user target paid cost now quota other =
      Keeps-bind (Within kind bound) (spend_dating_tokens user cost now) _
        (spend_dating_tokens-Keeps user cost now)
        (λ entry.
          Keeps-bind (Within kind bound) (create_usage_event user target paid cost now) _
            (create_other-Keeps user target paid cost now other)
            (λ u. Keeps-pure (Within kind bound) quota))

  -- A quota of this kind, whose uses were counted.
  pub use-Within :
      (user target : ℕ) (paid : DatingUsageEventKind) (limit cost now : ℕ) (s : Dating)
      → (usage_index paid == usage_index kind) ≡ false
      → limit ≤ bound
      → Within kind bound s
      → Within kind bound
          (use_free_or_pay user target kind paid limit
            (count_usage user kind (moscow_day_window now) s)
            cost
            now
            s).1
  unfolding use_free_or_pay create_usage_event
  use-Within user target paid limit cost now s other le h =
      elim (Bool-cases (ltb (count_usage user kind (moscow_day_window now) s) limit)) [
        | inl free ↦ rw free (create-Within user target kind 0 now s (λ e. ground (arith, free)) h)
        | inr full ↦ rw full (
            (pay-Keeps user target paid cost now
                (quota_of limit (count_usage user kind (moscow_day_window now) s) cost) other).after
              s h)
      ]

  -- A quota of another kind
  pub use_other-Keeps :
      (user target : ℕ) (free paid : DatingUsageEventKind) (limit used cost now : ℕ)
      → (usage_index free == usage_index kind) ≡ false
      → (usage_index paid == usage_index kind) ≡ false
      → Keeps (Within kind bound) (use_free_or_pay user target free paid limit used cost now)
  unfolding use_free_or_pay
  use_other-Keeps user target free paid limit used cost now f p =
      Keeps-if (Within kind bound) (ltb used limit)
        (use_free user target free (quota_of limit (suc used) 0) now)
        (pay_for_use user target paid (quota_of limit used cost) cost now)
        (search (keeps, create_other-Keeps user target free 0 now f))
        (pay-Keeps user target paid cost now (quota_of limit used cost) p)
