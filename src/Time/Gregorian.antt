-- ===== src/Time/Gregorian.antt =====
-- The Gregorian calendar, by closed formulas, for the dates of src/utils/ft_time.cpp.
use spy_socket.Prelude.{ℕ, ◌+◌, ◌-◌, ◌*◌, ◌/◌, ◌≤◌, ◌<◌, ◌||◌, leb, ◌==◌, if◌then◌else◌}
use spy_socket.Time.{is_leap_year, Utc}

-- The days of the years from 1 up to `y`, which is not counted.
abbrev pub days_before_year : ℕ → ℕ
days_before_year y = let p = y - 1 in p * 365 + p / 4 + p / 400 - p / 100

-- The days of a year that come before month `m`, counted from 1.
abbrev pub days_before_month : ℕ → ℕ → ℕ
days_before_month y m =
    (if leb m 1 then 0 else 31)
    + (if leb m 2 then 0 else if is_leap_year y then 29 else 28)
    + (if leb m 3 then 0 else 31)
    + (if leb m 4 then 0 else 30)
    + (if leb m 5 then 0 else 31)
    + (if leb m 6 then 0 else 30)
    + (if leb m 7 then 0 else 31)
    + (if leb m 8 then 0 else 31)
    + (if leb m 9 then 0 else 30)
    + (if leb m 10 then 0 else 31)
    + (if leb m 11 then 0 else 30)

-- The days from 1970-01-01 to a date.
abbrev pub day_number : Utc → ℕ
day_number t =
    days_before_year t.year - days_before_year 1970 + days_before_month t.year t.month + (t.day - 1)

abbrev pub length_of_month : ℕ → ℕ → ℕ
length_of_month y m =
    if m == 2
    then (if is_leap_year y then 29 else 28)
    else if (m == 4 || m == 6) || (m == 9 || m == 11)
    then 30
    else 31

-- A date of the calendar, from 1970 on, with a time of day.
pub record IsDate (t : Utc) : Type 0 where
  pub year_in : 1970 ≤ t.year
  pub month_in : (1 ≤ t.month) × (t.month ≤ 12)
  pub day_in : (1 ≤ t.day) × (t.day ≤ length_of_month t.year t.month)
  pub hour_in : t.hour < 24
  pub minute_in : t.minute < 60
  pub second_in : t.second < 60
