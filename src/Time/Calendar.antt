-- ===== src/Time/Calendar.antt =====
-- `epochToUTC` of src/utils/ft_time.cpp and the Gregorian calendar.
use spy_socket.Prelude.{
  ◌^◌, ℕ, zero, suc, ◌+◌, ◌-◌, ◌*◌, ◌/◌, ◌%◌, ◌≤◌, ◌<◌, List, [], ◌∷◌, Option, some, ◌≡◌, refl, ◌∙◌,
  ap, leb, arith, Bool-cases, inl, inr, get_elem?, take,
}
use spy_socket.Time.Gregorian.{
  days_before_year, days_before_month, day_number, length_of_month, IsDate,
}
use spy_socket.Time.{
  is_leap_year, days_in_year, Utc, year_loop, month_days, month_loop, in_year, epoch_to_utc,
}

days_before_year-suc :
    (y : ℕ) → 1 ≤ y → days_before_year (y + 1) ≡ days_before_year y + days_in_year y
unfolding days_in_year is_leap_year
days_before_year-suc y h = ground arith

days_in_year_pos : (y : ℕ) → 365 ≤ days_in_year y
unfolding days_in_year
days_in_year_pos y = ground arith

-- What the first loop returns: a year and a day of it, the same day as the one it was given.
record IsYearDay (y d : ℕ) (r : Option (ℕ × ℕ)) : Type 0 where
  pub year : ℕ
  pub left : ℕ
  pub returns : r ≡ some (year, left)
  pub later : y ≤ year
  pub within : left < days_in_year year
  pub same_day : days_before_year year + left ≡ days_before_year y + d

year_loop-IsYearDay : (fuel y d : ℕ) → d < fuel → 1 ≤ y → IsYearDay y d (year_loop fuel y d)
unfolding year_loop
year_loop-IsYearDay zero y d h pos = absurd (omega arith)
year_loop-IsYearDay (suc fuel) y d h pos = elim (Bool-cases (leb (days_in_year y) d)) [
  | inl more ↦
      let r =
        year_loop-IsYearDay fuel (y + 1) (d - days_in_year y) (ground (arith, days_in_year_pos y))
          (omega arith) in
      rw more (record {
        year = r.year;
        left = r.left;
        returns = r.returns;
        later = omega (arith, r.later);
        within = r.within;
        same_day = ground (arith, r.same_day, days_before_year-suc y pos);
      })
  | inr less ↦ rw less (record {
    year = y;
    left = d;
    returns = refl;
    later = omega arith;
    within = ground arith;
    same_day = refl;
  })
]

abbrev sum : List ℕ → ℕ
sum [] = 0
sum (n ∷ ns) = n + sum ns

-- What the second loop returns for a day that the entries cover: an entry, and a day of it.
record IsEntry (ns : List ℕ) (k d : ℕ) (r : Option (ℕ × ℕ)) : Type 0 where
  index : ℕ
  size : ℕ
  left : ℕ
  returns : r ≡ some (k + index, left)
  entry : get_elem? ns index ≡ some size
  within : left < size
  same_day : sum (take index ns) + left ≡ d

month_loop-IsEntry : (ns : List ℕ) (k d : ℕ) → d < sum ns → IsEntry ns k d (month_loop ns k d)
unfolding month_loop
month_loop-IsEntry [] k d h = elim h [ ]
month_loop-IsEntry (n ∷ ns) k d h = elim (Bool-cases (leb n d)) [
  | inl more ↦
      let r = month_loop-IsEntry ns (k + 1) (d - n) (ground arith) in
      rw more (record {
        index = suc r.index;
        size = r.size;
        left = r.left;
        returns = r.returns ∙ ap (λ i. some (i, r.left)) (omega arith);
        entry = r.entry;
        within = r.within;
        same_day = ground (arith, r.same_day);
      })
  | inr less ↦ rw less (record {
    index = 0;
    size = n;
    left = d;
    returns = ap (λ i. some (i, d)) (omega arith);
    entry = refl;
    within = ground arith;
    same_day = omega arith;
  })
]

-- The array and the calendar agree on each of the twelve months.
month_facts :
    (y i n : ℕ)
    → get_elem? (month_days y) i ≡ some n
    → (i < 12)
      × (days_before_month y (i + 1) ≡ sum (take i (month_days y)))
      × (length_of_month y (i + 1) ≡ n)
month_facts y (suc (suc (suc (suc (suc (suc (suc (suc (suc (suc (suc (suc i)))))))))))) n h = cc
month_facts y _ n h = ground arith

sum-month_days : (y : ℕ) → sum (month_days y) ≡ days_in_year y
unfolding days_in_year
sum-month_days y = ground arith

in_year-IsDate :
    (epoch y d : ℕ)
    → 1970 ≤ y
    → d < days_in_year y
    → (t : Utc) × (in_year epoch y d ≡ some t)
      × IsDate t
      × (t.year ≡ y)
      × (days_before_month t.year t.month + (t.day - 1) ≡ d)
      × ((t.hour * 60 + t.minute) * 60 + t.second ≡ epoch % 86400)
unfolding in_year
in_year-IsDate epoch y d h lt =
    let e = month_loop-IsEntry (month_days y) 0 d (omega (arith, sum-month_days y)) in
    let (low, before, long) = month_facts y e.index e.size e.entry in
    let t : Utc = record {
      year = y;
      month = 0 + e.index + 1;
      day = e.left + 1;
      hour = epoch / 60 / 60 % 24;
      minute = epoch / 60 % 60;
      second = epoch % 60;
    } in
    let m : 0 + e.index + 1 ≡ e.index + 1 = omega arith in
    (
      t,
      rw (in_year, e.returns),
      record {
        year_in = h;
        month_in = omega (arith, low);
        day_in = rw m (omega (arith, long, e.within));
        hour_in = omega arith;
        minute_in = omega arith;
        second_in = omega arith;
      },
      refl,
      rw m (omega (arith, before, e.same_day)),
      omega arith,
    )

-- What is left of a difference when the smaller side is taken away.
count_up : (a b l k c d : ℕ) → a + l ≡ b + k → c + d ≡ l → b ≤ a → a - b + c + d ≡ k
count_up a b l k c d e f h = omega arith

days_before_year_mono : (y : ℕ) → 1970 ≤ y → days_before_year 1970 ≤ days_before_year y
days_before_year_mono y h = omega arith

-- The days of a date from the days of its year.
same_day-day_number :
    (t : Utc) (y l k : ℕ)
    → t.year ≡ y
    → days_before_month t.year t.month + (t.day - 1) ≡ l
    → 1970 ≤ t.year
    → days_before_year y + l ≡ days_before_year 1970 + k
    → day_number t ≡ k
same_day-day_number t y l k e f h g =
    count_up (days_before_year t.year) (days_before_year 1970) l k
      (days_before_month t.year t.month) (t.day - 1) (ap (λ z. days_before_year z + l) e ∙ g) f
      (days_before_year_mono t.year h)

clock_up :
    (n h m s epoch : ℕ)
    → n ≡ epoch / 60 / 60 / 24
    → (h * 60 + m) * 60 + s ≡ epoch % 86400
    → ((n * 24 + h) * 60 + m) * 60 + s ≡ epoch
clock_up n h m s epoch e f = omega arith

year_bound :
    (y l k : ℕ) → k < 2 ^ 39 → days_before_year y + l ≡ days_before_year 1970 + k → y < 2 ^ 31
year_bound y l k h e = omega arith

-- For every time below 2 ^ 55 seconds behind 1970, epochToUTC ends within its array and returns
-- the date of the Gregorian calendar and the time of day that lie just that many seconds behind
-- 1970; the year is below 2 ^ 31, so no int overflows.
pub epoch_to_utc-IsDate :
    (epoch : ℕ)
    → epoch < 2 ^ 55
    → (t : Utc) × (epoch_to_utc epoch ≡ some t)
      × IsDate t
      × (t.year < 2 ^ 31)
      × (((day_number t * 24 + t.hour) * 60 + t.minute) * 60 + t.second ≡ epoch)
unfolding epoch_to_utc
epoch_to_utc-IsDate epoch early =
    let days = epoch / 60 / 60 / 24 in
    let r = year_loop-IsYearDay (suc days) 1970 days (omega arith) (omega arith) in
    let (t, made, valid, year_is, day_is, clock) =
      in_year-IsDate epoch r.year r.left r.later r.within in
    (
      t,
      rw (epoch_to_utc, r.returns) made,
      valid,
      rw year_is (year_bound r.year r.left days (omega arith) r.same_day),
      clock_up (day_number t) t.hour t.minute t.second epoch
          (same_day-day_number t r.year r.left days year_is day_is valid.year_in r.same_day) clock,
    )
