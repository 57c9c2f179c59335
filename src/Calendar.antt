-- ===== src/Calendar.antt =====
-- The calendar of JavaScript's `Date` in UTC, for times from 1970 on, in milliseconds since
-- 1970-01-01T00:00Z: `getUTCFullYear`, `getUTCMonth`, `getUTCDate` and `Date.UTC`. The services
-- shift a time by Moscow's three hours before they read it.
pub mod Split
use frendly.Common.{
  ℕ, zero, suc, ◌+◌, ◌-◌, ◌*◌, ◌/◌, ◌%◌, Bool, ◌&&◌, ◌||◌, not, ltb, ◌==◌, if◌then◌else◌,
}

abbrev pub hour_ms : ℕ
hour_ms = 3_600_000

abbrev pub day_ms : ℕ
day_ms = 86_400_000

-- `MOSCOW_UTC_OFFSET_HOURS` and `moscowOffsetMs`
abbrev pub moscow_offset_ms : ℕ
moscow_offset_ms = 3 * hour_ms

is_leap : ℕ → Bool
is_leap y = y % 4 == 0 && (not (y % 100 == 0) || y % 400 == 0)

-- The length of the year 1970 + k.
unfoldable pub year_length : ℕ → ℕ
unfolding is_leap
year_length k = if is_leap (1970 + k) then 366 else 365

-- The length of month `m`, from 0, of the year 1970 + k.
unfoldable pub month_length : ℕ → ℕ → ℕ
unfolding year_length
month_length k m =
    if m == 1
    then year_length k - 337
    else (if m == 3 || m == 5 || m == 8 || m == 10 then 30 else 31)

-- The days from 1970-01-01 to the first day of the year 1970 + k.
unfoldable pub days_to_year : ℕ → ℕ
days_to_year zero = 0
days_to_year (suc k) = days_to_year k + year_length k

-- The days from the first of January to the first day of month `m`.
unfoldable pub days_to_month : ℕ → ℕ → ℕ
days_to_month k zero = 0
days_to_month k (suc m) = days_to_month k m + month_length k m

-- `Date.UTC(1970 + k, m, 1)` in days: month 12 is the January after.
unfoldable pub month_start : ℕ → ℕ → ℕ
month_start k m = days_to_year k + days_to_month k m

-- Go on to the year that holds a day, and to the month that holds a day of the year.
unfoldable pub find_year : ℕ → ℕ → ℕ → ℕ × ℕ
find_year zero k d = (k, d)
find_year (suc fuel) k d =
    let rest = find_year fuel (suc k) (d - year_length k) in
    if ltb d (year_length k) then (k, d) else rest

unfoldable pub find_month : ℕ → ℕ → ℕ → ℕ → ℕ × ℕ
find_month zero k m d = (m, d)
find_month (suc fuel) k m d =
    let rest = find_month fuel k (suc m) (d - month_length k m) in
    if ltb d (month_length k m) then (m, d) else rest

-- A calendar day: years since 1970, month and day of the month from 0.
pub record Day : Type 0 where
  pub year : ℕ
  pub month : ℕ
  pub day : ℕ

unfoldable pub day_of : ℕ → Day
day_of t =
    let (k, d) = find_year (t / day_ms + 1) 0 (t / day_ms) in
    let (m, e) = find_month 12 k 0 d in record { year = k; month = m; day = e }
