-- ===== src/Calendar.antt =====
-- What time.py uses of the calendar of Python's standard library: `datetime.date(...).toordinal()`,
-- `calendar.timegm` and `time.gmtime`, in the proleptic Gregorian calendar.
mod Months
pub mod Civil
use self_improving_trading_s.Prelude.{
  ℕ, zero, suc, ◌+◌, ◌-◌, ◌*◌, ◌/◌, ◌%◌, Bool, not, ◌&&◌, ◌||◌, if◌then◌else◌, ltb, leb, ◌==◌, ℤ,
  pos, ◌+ℤ◌, ◌-ℤ◌, ◌*ℤ◌, floor_div, floor_mod,
}
use self_improving_trading_s.Errors.{Result, ok, err, value_error}

unfoldable pub is_leap : ℕ → Bool
is_leap y = (y % 4 == 0) && (not (y % 100 == 0) || (y % 400 == 0))

unfoldable pub days_in_month : ℕ → ℕ → ℕ
unfolding is_leap
days_in_month y m =
    if m == 2
    then (if is_leap y then 29 else 28)
    else if (m == 4) || (m == 6) || (m == 9) || (m == 11)
    then 30
    else 31

unfoldable pub days_before_month : ℕ → ℕ → ℕ
unfolding days_in_month
days_before_month y zero = 0
days_before_month y (suc zero) = 0
days_before_month y (suc (suc m)) = days_before_month y (suc m) + days_in_month y (suc m)

unfoldable pub days_before_year : ℕ → ℕ
days_before_year y = let p = y - 1 in p * 365 + p / 4 - p / 100 + p / 400

-- `datetime.date(y, m, d).toordinal()`, for a valid date
unfoldable pub toordinal : ℕ → ℕ → ℕ → ℕ
toordinal y m d = days_before_year y + days_before_month y m + d

-- `datetime.date(1970, 1, 1).toordinal()`
abbrev pub epoch_ordinal : ℕ
epoch_ordinal = 719163

-- `calendar.timegm`: the date is the first of the month, so only the year and month are checked.
unfoldable pub timegm : ℕ → ℕ → ℕ → ℕ → ℕ → ℕ → Result ℤ
timegm year month day hour minute second =
    if leb 1 year && ltb year 10000 && leb 1 month && ltb month 13
    then (let days = pos (toordinal year month 1 + day) -ℤ pos (epoch_ordinal + 1) in
        let hours = days *ℤ pos 24 +ℤ pos hour in
        let minutes = hours *ℤ pos 60 +ℤ pos minute in ok (minutes *ℤ pos 60 +ℤ pos second))
    else err value_error

pub record StructTime : Type 0 where
  pub tm_year : ℤ
  pub tm_mon : ℕ
  pub tm_mday : ℕ
  pub tm_hour : ℕ
  pub tm_min : ℕ
  pub tm_sec : ℕ

-- The month and the day of the n-th day from the first of month `m`, with the months left.
unfoldable pub month_and_day : ℕ → ℕ → ℕ → ℕ → ℕ × ℕ
unfolding days_in_month
month_and_day y zero m n = (m, n)
month_and_day y (suc left) m n =
    let later = month_and_day y left (m + 1) (n - days_in_month y m) in
    if ltb (days_in_month y m) n then later else (m, n)

-- The year within a cycle of 400 years and the day within that year, both from 0.
unfoldable pub year_in_cycle : ℕ → ℕ × ℕ
year_in_cycle r =
    let centuries = if ltb (r / 36524) 4 then r / 36524 else 3 in
    let in_century = r - centuries * 36524 in
    let in_four = in_century % 1461 in
    let years = if ltb (in_four / 365) 4 then in_four / 365 else 3 in
    (centuries * 100 + (in_century / 1461) * 4 + years, in_four - years * 365)

-- The month and day of a day within a year, both from 0.
unfoldable pub day_of_year : ℕ × ℕ → ℕ × ℕ
day_of_year (year, day) = month_and_day (year + 1) 11 1 (day + 1)

-- The fields of a day, from 0001-01-01, and the seconds of that day.
unfoldable pub struct_time : ℤ → ℕ → StructTime
struct_time days rest =
    let place = year_in_cycle (floor_mod days 146097) in
    let date = day_of_year place in
    record {
      tm_year = floor_div days 146097 *ℤ pos 400 +ℤ pos (place.0 + 1);
      tm_mon = date.0;
      tm_mday = date.1;
      tm_hour = rest / 3600;
      tm_min = (rest / 60) % 60;
      tm_sec = rest % 60;
    }

-- `time.gmtime(seconds)`
unfoldable pub gmtime : ℤ → StructTime
gmtime seconds =
    struct_time (floor_div seconds 86400 +ℤ pos (epoch_ordinal - 1)) (floor_mod seconds 86400)
