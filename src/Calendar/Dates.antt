-- ===== src/Calendar/Dates.antt =====
-- Every day number has a valid date, whose day number it is.
use cloudevents_sdk_cpp.Base.{
  ℕ, suc, ◌+◌, ◌-◌, ◌≤◌, ◌<◌, ◌≡◌, refl, Bool, true, false, ◌&&◌, leb, ◌==◌, if◌then◌else◌, arith,
}
use cloudevents_sdk_cpp.Base.Bits.{every_below, every_below_lem}
use cloudevents_sdk_cpp.Calendar.{
  Date, is_leap, month_length, days_before_month, days_before_year, year_length, is_valid_date,
  day_number, year_of, find_month, date_of,
}

pub days_before_year-suc : (y : ℕ) → days_before_year (suc y) ≡ days_before_year y + year_length y
unfolding days_before_year year_length is_leap
days_before_year-suc y = ground arith

-- The year found is the one that the day falls into.
pub year_of_range :
    (n : ℕ) → (days_before_year (year_of n) ≤ n) × (n < days_before_year (year_of n + 1))
unfolding year_of days_before_year
year_of_range n = ground arith

-- the month and the day that a table entry has to show
abbrev shows_day : Bool → ℕ → ℕ × ℕ → Bool
shows_day leap n (m, d) =
    leb 1 m
    && leb m 12
    && leb 1 d
    && leb d (month_length leap m)
    && days_before_month leap m + (d - 1) == n

months_table :
    (leap : Bool)
    → every_below (λ n. shows_day leap n (find_month leap 11 1 n)) (if leap then 366 else 365)
      ≡ true
unfolding every_below month_length days_before_month find_month
months_table true = refl
months_table false = refl

-- A valid date, and the day number that it has.
pub record HasDay (n : ℕ) (t : Date) : Type 0 where
  pub valid : is_valid_date t.year t.month t.day ≡ true
  pub number : day_number t.year t.month t.day ≡ n

length_of_year : (y : ℕ) → (if is_leap y then 366 else 365) ≡ year_length y
unfolding year_length
length_of_year y = refl

shown :
    (leap : Bool) (n m d : ℕ)
    → shows_day leap n (m, d) ≡ true
    → ((1 ≤ m) × (m ≤ 12) × (1 ≤ d) × (d ≤ month_length leap m))
      × (days_before_month leap m + (d - 1) ≡ n)
shown leap n m d h = ground arith

-- The date of a day number is valid, and it has that day number.
pub date_of-HasDay : (n : ℕ) → HasDay n (date_of n)
unfolding date_of is_valid_date day_number days_before_year year_length
date_of-HasDay n =
    let y = year_of n in
    let day = n - days_before_year y in
    let found = find_month (is_leap y) 11 1 day in
    let below : day < year_length y = omega (arith, year_of_range n, days_before_year-suc y) in
    let (ok, number) =
      shown (is_leap y) day found.0 found.1
        (every_below_lem _ (year_length y) day below (months_table (is_leap y))) in
    record { valid = ground arith; number = omega (arith, year_of_range n) }
