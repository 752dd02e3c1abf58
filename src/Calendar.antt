-- ===== src/Calendar.antt =====
-- What include/cloudevents/detail/timestamp.hpp uses of the calendar of `std::chrono`: `ok` of a
-- `year_month_day`, and the conversions between it and `sys_days`. A day number counts the days
-- since 0000-01-01 of the proleptic Gregorian calendar.
pub mod Dates
use cloudevents_sdk_cpp.Base.{
  ℕ, zero, suc, ◌+◌, ◌-◌, ◌*◌, ◌/◌, ◌%◌, Bool, true, false, not, ◌&&◌, ◌||◌, ltb, leb, ◌==◌,
  if◌then◌else◌,
}

pub record Date : Type 0 where
  pub year : ℕ
  pub month : ℕ
  pub day : ℕ

unfoldable pub is_leap : ℕ → Bool
is_leap y = y % 4 == 0 && (not (y % 100 == 0) || y % 400 == 0)

-- by the leap rule's answer for the year
unfoldable pub month_length : Bool → ℕ → ℕ
month_length leap m =
    if m == 2
    then (if leap then 29 else 28)
    else if m == 4 || m == 6 || m == 9 || m == 11
    then 30
    else 31

-- the days of the months before month `m`
unfoldable pub days_before_month : Bool → ℕ → ℕ
days_before_month leap zero = 0
days_before_month leap (suc zero) = 0
days_before_month leap (suc (suc m)) = days_before_month leap (suc m) + month_length leap (suc m)

-- 365 days for each year before, and the leap days among them
unfoldable pub days_before_year : ℕ → ℕ
days_before_year y = 365 * y + (y + 3) / 4 + (y + 399) / 400 - (y + 99) / 100

unfoldable pub year_length : ℕ → ℕ
year_length y = if is_leap y then 366 else 365

-- `year_month_day::ok`, for a year from 0 to 9999
unfoldable pub is_valid_date : ℕ → ℕ → ℕ → Bool
is_valid_date y m d = leb 1 m && leb m 12 && leb 1 d && leb d (month_length (is_leap y) m)

-- `sys_days` of a valid date
unfoldable pub day_number : ℕ → ℕ → ℕ → ℕ
day_number y m d = days_before_year y + days_before_month (is_leap y) m + (d - 1)

-- The average length of a year gives the year up to one.
unfoldable pub year_of : ℕ → ℕ
year_of n =
    let y = n * 400 / 146097 in
    if ltb n (days_before_year y)
    then y - 1
    else if ltb n (days_before_year (y + 1))
    then y
    else y + 1

-- The month and the day of a day of the year, from month `m` on.
unfoldable pub find_month : Bool → ℕ → ℕ → ℕ → ℕ × ℕ
find_month leap zero m n = (m, n + 1)
find_month leap (suc left) m n =
    let later = find_month leap left (m + 1) (n - month_length leap m) in
    if ltb n (month_length leap m) then (m, n + 1) else later

abbrev date_in : ℕ → ℕ × ℕ → Date
date_in y (m, d) = record { year = y; month = m; day = d }

-- `year_month_day` of a day number
unfoldable pub date_of : ℕ → Date
date_of n = let y = year_of n in date_in y (find_month (is_leap y) 11 1 (n - days_before_year y))
