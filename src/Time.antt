-- ===== src/Time.antt =====
-- src/utils/ft_time.cpp: the conversion of seconds since 1970 to a date in UTC, and the two formats
-- that are made of it. The number of seconds is the modification time of /proc/self, which is not
-- negative; it is a parameter. The year is an `int`, which it fits as long as the time is below
-- 2 ^ 55 seconds. `print_time` only prints.
pub mod Gregorian
pub mod Calendar
use spy_socket.Prelude.{
  ℕ, zero, suc, ◌+◌, ◌-◌, ◌*◌, ◌/◌, ◌%◌, Bool, true, false, not, ◌&&◌, ◌||◌, List, [], ◌∷◌, ◌++◌,
  Option, none, some, ltb, leb, ◌==◌, if◌then◌else◌, get_or,
}
use spy_socket.Prelude.Text.{Bytes, codes}

unfoldable pub is_leap_year : ℕ → Bool
is_leap_year year = (year % 4 == 0 && not (year % 100 == 0)) || year % 400 == 0

unfoldable pub days_in_year : ℕ → ℕ
days_in_year year = if is_leap_year year then 366 else 365

pub record Utc : Type 0 where
  pub year : ℕ
  pub month : ℕ
  pub day : ℕ
  pub hour : ℕ
  pub minute : ℕ
  pub second : ℕ

-- The first loop: the year, and the days that are left of it. `none` means that the fuel ran out.
unfoldable pub year_loop : ℕ → ℕ → ℕ → Option (ℕ × ℕ)
year_loop zero year days = none
year_loop (suc fuel) year days =
    let later = year_loop fuel (year + 1) (days - days_in_year year) in
    if leb (days_in_year year) days then later else some (year, days)

-- `monthDays`, with its second entry set.
abbrev pub month_days : ℕ → List ℕ
month_days year =
    31
    ∷ (if is_leap_year year then 29 else 28)
    ∷ 31
    ∷ 30
    ∷ 31
    ∷ 30
    ∷ 31
    ∷ 31
    ∷ 30
    ∷ 31
    ∷ 30
    ∷ 31
    ∷ []

-- The second loop, over what is left of the array; `none` is a read behind its end.
unfoldable pub month_loop : List ℕ → ℕ → ℕ → Option (ℕ × ℕ)
month_loop [] month days = none
month_loop (n ∷ ns) month days =
    let later = month_loop ns (month + 1) (days - n) in
    if leb n days then later else some (month, days)

-- The date of day `days` of a year, with the time of day.
unfoldable pub in_year : ℕ → ℕ → ℕ → Option Utc
in_year epoch year days = elim (month_loop (month_days year) 0 days) [
  | none ↦ none
  | some (month, left) ↦ some (record {
    year = year;
    month = month + 1;
    day = left + 1;
    hour = epoch / 60 / 60 % 24;
    minute = epoch / 60 % 60;
    second = epoch % 60;
  })
]

-- A year takes 365 days at least, so the number of days is fuel enough. The numbers have no bound here;
-- the code's year is an int, which holds the year of every time below 2 ^ 55.
unfoldable pub epoch_to_utc : ℕ → Option Utc
epoch_to_utc epoch =
    let all_days = epoch / 60 / 60 / 24 in
    elim (year_loop (suc all_days) 1970 all_days) [
      | none ↦ none
      | some (year, days) ↦ in_year epoch year days
    ]

-- The decimal digits of a number, as an output stream prints them.
unfoldable pub print_loop : ℕ → ℕ → Bytes → Bytes
print_loop zero n out = out
print_loop (suc fuel) n out =
    let more = print_loop fuel (n / 10) ((b'0' + n % 10) ∷ out) in
    if ltb n 10 then (b'0' + n) ∷ out else more

unfoldable pub print_nat : ℕ → Bytes
print_nat n = print_loop (suc n) n []

-- (n < 10 ? "0" : "") << n
unfoldable pub two_digits : ℕ → Bytes
two_digits n = if ltb n 10 then b'0' ∷ print_nat n else print_nat n

abbrev pub day_names : List Bytes
day_names =
    codes "Sun"
    ∷ codes "Mon"
    ∷ codes "Tue"
    ∷ codes "Wed"
    ∷ codes "Thu"
    ∷ codes "Fri"
    ∷ codes "Sat"
    ∷ []

abbrev pub month_names : List Bytes
month_names =
    codes "Jan"
    ∷ codes "Feb"
    ∷ codes "Mar"
    ∷ codes "Apr"
    ∷ codes "May"
    ∷ codes "Jun"
    ∷ codes "Jul"
    ∷ codes "Aug"
    ∷ codes "Sep"
    ∷ codes "Oct"
    ∷ codes "Nov"
    ∷ codes "Dec"
    ∷ []

-- 0 is Sunday; 1970-01-01 was a Thursday.
unfoldable pub day_of_week : ℕ → ℕ
day_of_week epoch = (epoch / 86400 + 4) % 7

unfoldable pub format_utc : ℕ → Utc → Bytes
format_utc weekday t =
    get_or day_names weekday []
    ++ (codes ", "
        ++ (two_digits t.day
            ++ (codes " "
                ++ (get_or month_names (t.month - 1) []
                    ++ (codes " "
                        ++ (print_nat t.year
                            ++ (codes " "
                                ++ (two_digits t.hour
                                    ++ (codes ":"
                                        ++ (two_digits t.minute
                                            ++ (codes ":"
                                                ++ (two_digits t.second ++ codes " GMT"))))))))))))

-- `ft_time_format`, on the time that `stat` gives; without one the result is empty.
unfoldable pub ft_time_format : Option ℕ → Bytes
ft_time_format none = []
ft_time_format (some epoch) = elim (epoch_to_utc epoch) [
  | none ↦ []
  | some t ↦ format_utc (day_of_week epoch) t
]

-- `ft_random_time`: the digits of the date down to the minute.
unfoldable pub ft_random_time : Option ℕ → Bytes
ft_random_time none = []
ft_random_time (some epoch) = elim (epoch_to_utc epoch) [
  | none ↦ []
  | some t ↦
      print_nat t.year
      ++ (two_digits t.month ++ (two_digits t.day ++ (two_digits t.hour ++ two_digits t.minute)))
]
