-- ===== src/Calendar/Civil.antt =====
-- `gmtime` splits an instant, and `timegm` puts it together again.
use self_improving_trading_s.Prelude.{
  ℕ, ◌+◌, ◌-◌, ◌*◌, ◌/◌, ◌%◌, ◌≤◌, ◌<◌, ◌≡◌, ap, ◌∙◌, arith, ℤ, pos, negsuc, ◌+ℤ◌, ◌-ℤ◌, ◌*ℤ◌,
  pos_part, neg_part, floor_div, floor_mod, int_laws, *ℤ-pos_parts, ltb, leb, true, ◌&&◌, ◌≤ℤ◌,
  ◌<ℤ◌,
}
use native.Mathlib.Nat.{add_assoc}
use self_improving_trading_s.Errors.{ok}
use self_improving_trading_s.Calendar.{
  days_before_month, days_before_year, toordinal, epoch_ordinal, timegm, StructTime, month_and_day,
  year_in_cycle, day_of_year, struct_time, gmtime,
}
use self_improving_trading_s.Calendar.Months.{
  IsMonthOf, month_and_day-IsMonthOf, year_lem, year_bounds, cycle_months, day_bound,
}

-- The day and the time of day of an instant.
day_of_instant :
    (s : ℤ)
    → negsuc 62_135_596_799 ≤ℤ s
    → s <ℤ pos 253_402_300_800
    → (n : ℕ) × (floor_div s 86400 +ℤ pos (epoch_ordinal - 1) ≡ pos n) × (n < 3_652_059)
unfolding floor_div ◌+ℤ◌
day_of_instant (pos a) lo hi = (a / 86400 + 719162, ground arith, ground arith)
day_of_instant (negsuc a) lo hi = (719161 - a / 86400, ground arith, ground arith)

-- A quotient and its rest make up the dividend.
pub floor_div_mod :
    (s : ℤ) (n : ℕ)
    → 0 < n
    → (floor_div s n *ℤ pos n +ℤ pos (floor_mod s n) ≡ s) × (floor_mod s n < n)
unfolding floor_div floor_mod
floor_div_mod (pos a) n h =
    let (p, q) = *ℤ-pos_parts (pos (a / n)) n in (grind int_laws, grind arith)
floor_div_mod (negsuc a) n h =
    let (p, q) = *ℤ-pos_parts (negsuc (a / n)) n in (grind int_laws, grind arith)

-- The fields of `gmtime`, for an instant of the years 1 to 9999.
pub record IsSplit (s : ℤ) (t : StructTime) (year : ℕ) : Type 0 where
  pub year_is : t.tm_year ≡ pos year
  pub year_in : (1 ≤ year) × (year < 10000)
  pub month_in : (1 ≤ t.tm_mon) × (t.tm_mon ≤ 12)
  pub day_in : t.tm_mday ≤ 32
  pub hour_in : t.tm_hour < 24
  pub minute_in : t.tm_min < 60
  pub second_in : t.tm_sec < 60
  pub back : timegm year t.tm_mon t.tm_mday t.tm_hour t.tm_min t.tm_sec ≡ ok s

-- The number of a day that is split into a cycle, the year in it, the month and the day.
day_number :
    (n : ℕ) (found : ℕ × ℕ)
    → let place = year_in_cycle (n % 146097) in
      IsMonthOf (place.0 + 1) 1 (place.1 + 1) 11 found
      → toordinal ((n / 146097) * 400 + (place.0 + 1)) found.0 1 + found.1 ≡ n + 2
unfolding toordinal days_before_month
day_number n found h =
    let y = (year_in_cycle (n % 146097)).0 in
    omega (
      arith,
      h.sums,
      cycle_months (n / 146097) (y + 1) found.0,
      year_lem (n / 146097) (n % 146097) (omega arith),
      ap days_before_year (add_assoc ((n / 146097) * 400) y 1),
    )

in_calendar :
    (year month : ℕ)
    → (1 ≤ year) × (year < 10000)
    → (1 ≤ month) × (month ≤ 12)
    → (leb 1 year && ltb year 10000 && leb 1 month && ltb month 13) ≡ true
in_calendar year month y_in m_in = ground arith

seconds_of_day :
    (q : ℤ) (rest : ℕ)
    → ((q *ℤ pos 24 +ℤ pos (rest / 3600)) *ℤ pos 60 +ℤ pos ((rest / 60) % 60)) *ℤ pos 60
        +ℤ pos (rest % 60)
      ≡ q *ℤ pos 86400 +ℤ pos rest
seconds_of_day q rest =
    let (a, a') = *ℤ-pos_parts q 24 in
    let hours = q *ℤ pos 24 +ℤ pos (rest / 3600) in
    let (b, b') = *ℤ-pos_parts hours 60 in
    let minutes = hours *ℤ pos 60 +ℤ pos ((rest / 60) % 60) in
    let (c, c') = *ℤ-pos_parts minutes 60 in let (d, d') = *ℤ-pos_parts q 86400 in omega int_laws

day_difference : (q : ℤ) (n m : ℕ) → q +ℤ pos 719162 ≡ pos n → m ≡ n + 2 → pos m -ℤ pos 719164 ≡ q
day_difference q n m at e = omega (int_laws, ap pos_part at, ap neg_part at)

-- What `timegm` makes of the fields of a day and of the rest of the instant.
timegm_lem :
    (s : ℤ) (n year month day : ℕ)
    → floor_div s 86400 +ℤ pos (epoch_ordinal - 1) ≡ pos n
    → (1 ≤ year) × (year < 10000)
    → (1 ≤ month) × (month ≤ 12)
    → toordinal year month 1 + day ≡ n + 2
    → let rest = floor_mod s 86400 in
      timegm year month day (rest / 3600) ((rest / 60) % 60) (rest % 60) ≡ ok s
unfolding timegm
timegm_lem s n year month day at y_in m_in number =
    let q = floor_div s 86400 in
    rw (in_calendar year month y_in m_in, day_difference q n _ at number)
      (ap ok (seconds_of_day q (floor_mod s 86400) ∙ (floor_div_mod s 86400 (omega arith)).0))

year_limit : (y d n : ℕ) → days_before_year y + d ≡ n → n < 3_652_059 → y ≤ 10000 → y < 10000
unfolding days_before_year
year_limit y d n e fits h = ground arith

-- The fields of a day and of the seconds of that day, if `timegm` puts such fields together.
struct_time-IsSplit :
    (s : ℤ) (n rest : ℕ)
    → n < 3_652_059
    → rest < 86400
    → ((year month day : ℕ)
        → (1 ≤ year) × (year < 10000)
        → (1 ≤ month) × (month ≤ 12)
        → toordinal year month 1 + day ≡ n + 2
        → timegm year month day (rest / 3600) ((rest / 60) % 60) (rest % 60) ≡ ok s)
    → (year : ℕ) × IsSplit s (struct_time (pos n) rest) year
unfolding struct_time floor_div floor_mod day_of_year
struct_time-IsSplit s n rest fits short together =
    let place = year_in_cycle (n % 146097) in
    let found = month_and_day (place.0 + 1) 11 1 (place.1 + 1) in
    let year = (n / 146097) * 400 + (place.0 + 1) in
    let (cycle_year, cycle_day) = year_bounds (n % 146097) (omega arith) in
    let m = month_and_day-IsMonthOf (place.0 + 1) 11 1 (place.1 + 1) (omega arith) (omega arith) in
    let year_in : (1 ≤ year) × (year < 10000) =
      (omega arith, year_limit year place.1 n (year_number n) fits (omega arith)) in
    let month_in : (1 ≤ found.0) × (found.0 ≤ 12) = (m.after, m.before) in
    (
      year,
      record {
        year_is = year_value (n / 146097) (place.0 + 1);
        year_in = year_in;
        month_in = month_in;
        day_in = day_bound (place.0 + 1) (place.1 + 1) found m (omega arith);
        hour_in = omega arith;
        minute_in = omega arith;
        second_in = omega arith;
        back = together year found.0 found.1 year_in month_in (day_number n found m);
      },
    )
  where
    year_number :
        (n : ℕ)
        → days_before_year ((n / 146097) * 400 + ((year_in_cycle (n % 146097)).0 + 1))
            + (year_in_cycle (n % 146097)).1
          ≡ n
    year_number n = omega (
      arith,
      year_lem (n / 146097) (n % 146097) (omega arith),
      ap days_before_year (add_assoc ((n / 146097) * 400) (year_in_cycle (n % 146097)).0 1),
    )

    year_value : (c y : ℕ) → pos c *ℤ pos 400 +ℤ pos y ≡ pos (c * 400 + y)
    year_value c y = let (p, q) = *ℤ-pos_parts (pos c) 400 in omega int_laws

-- `gmtime` splits an instant of the years 1 to 9999 into fields which `timegm` puts together.
pub gmtime-IsSplit :
    (s : ℤ)
    → negsuc 62_135_596_799 ≤ℤ s
    → s <ℤ pos 253_402_300_800
    → (year : ℕ) × IsSplit s (gmtime s) year
unfolding gmtime
gmtime-IsSplit s lo hi =
    let (n, at, fits) = day_of_instant s lo hi in
    rw at (
      struct_time-IsSplit s n (floor_mod s 86400) fits (floor_div_mod s 86400 (omega arith)).1
        (λ year month day. timegm_lem s n year month day at))
