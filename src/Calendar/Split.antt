-- ===== src/Calendar/Split.antt =====
-- The day that is read off a time is the one that holds it.
use frendly.Common.{ℕ, zero, suc, ◌+◌, ◌-◌, ◌/◌, ◌≤◌, ◌<◌, ◌≡◌, refl, ap, arith}
use frendly.Calendar.{
  day_ms, year_length, month_length, days_to_year, days_to_month, month_start, find_year,
  find_month, day_of,
}

pub year_length_pos : (k : ℕ) → 365 ≤ year_length k
unfolding year_length
year_length_pos k = ground arith

pub find_year_lem :
    (fuel k d : ℕ)
    → d < fuel
    → let (j, e) = find_year fuel k d in
      (days_to_year j + e ≡ days_to_year k + d) × (e < year_length j)
unfolding find_year days_to_year
find_year_lem zero k d h = absurd (omega arith)
find_year_lem (suc fuel) k d h =
    ground (arith, year_length_pos k, find_year_lem fuel (suc k) (d - year_length k))

-- Twelve months make the year.
pub days_to_month_twelve : (k : ℕ) → days_to_month k 12 ≡ year_length k
unfolding days_to_month month_length
days_to_month_twelve k = ground (arith, year_length_pos k)

days_to_month-suc : (k m : ℕ) → days_to_month k (suc m) ≡ days_to_month k m + month_length k m
unfolding days_to_month
days_to_month-suc k m = refl

days_from_zero : (k : ℕ) → (days_to_year 0 ≡ 0) × (days_to_month k 0 ≡ 0)
unfolding days_to_year days_to_month
days_from_zero k = (refl, refl)

pub find_month_lem :
    (fuel k m d stop : ℕ)
    → m + fuel ≡ stop
    → d + days_to_month k m < days_to_month k stop
    → let (j, e) = find_month fuel k m d in
      (days_to_month k j + e ≡ days_to_month k m + d) × (e < month_length k j) × (j < stop)
unfolding find_month
find_month_lem zero k m d stop s h =
    let same : m ≡ stop = omega arith in absurd (omega (arith, ap (days_to_month k) same))
find_month_lem (suc fuel) k m d stop s h = ground (
  arith,
  days_to_month-suc k m,
  find_month_lem fuel k (suc m) (d - month_length k m) stop,
  earlier,
)
  where
    earlier : m ≡ stop → ⊥
    earlier e = omega arith

-- The year, month and day that are read off a time stand for the day that holds it; the month is
-- one of twelve, and the day lies in the month.
pub day_of_lem :
    (t : ℕ)
    → let d = day_of t in
      (month_start d.year d.month + d.day ≡ t / day_ms)
      × (d.day < month_length d.year d.month)
      × (d.month < 12)
unfolding day_of month_start
day_of_lem t = ground (
  arith,
  find_year_lem (t / day_ms + 1) 0 (t / day_ms),
  find_month_lem 12 year 0 rest 12,
  days_to_month_twelve year,
  days_from_zero year,
)
  where
    year : ℕ
    year = (find_year (t / day_ms + 1) 0 (t / day_ms)).0

    rest : ℕ
    rest = (find_year (t / day_ms + 1) 0 (t / day_ms)).1

-- A month ends where the next one starts.
pub month_start-suc : (k m : ℕ) → month_start k (suc m) ≡ month_start k m + month_length k m
unfolding month_start
month_start-suc k m = omega (arith, days_to_month-suc k m)
