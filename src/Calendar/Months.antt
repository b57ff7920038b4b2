-- ===== src/Calendar/Months.antt =====
-- Years of a cycle and months of a year.
use self_improving_trading_s.Prelude.{
  ℕ, zero, suc, ◌⊎◌, ◌+◌, ◌-◌, ◌*◌, ◌≤◌, ◌<◌, ◌≡◌, refl, ap, arith, ltb, Bool-cases, inl, inr,
}
use self_improving_trading_s.Calendar.{
  is_leap, days_in_month, days_before_month, days_before_year, month_and_day, year_in_cycle,
}

days_before_month-suc :
    (y m : ℕ) → 1 ≤ m → days_before_month y (suc m) ≡ days_before_month y m + days_in_month y m
unfolding days_before_month
days_before_month-suc y zero h = absurd (omega arith)
days_before_month-suc y (suc m) h = refl

days_in_month_bounds : (y m : ℕ) → (28 ≤ days_in_month y m) × (days_in_month y m ≤ 31)
unfolding days_in_month
days_in_month_bounds y m = ground arith

-- The month found and the days before it make up the day that was sought.
pub record IsMonthOf (y m n left : ℕ) (found : ℕ × ℕ) : Type 0 where
  pub sums : days_before_month y found.0 + found.1 ≡ days_before_month y m + n
  pub after : m ≤ found.0
  pub before : found.0 ≤ m + left
  pub day_from : 1 ≤ found.1
  pub short : (found.1 ≤ 31) ⊎ (found.0 ≡ m + left)

pub month_and_day-IsMonthOf :
    (y left m n : ℕ) → 1 ≤ m → 1 ≤ n → IsMonthOf y m n left (month_and_day y left m n)
unfolding month_and_day
month_and_day-IsMonthOf y zero m n hm hn = record {
  sums = refl;
  after = omega arith;
  before = omega arith;
  day_from = hn;
  short = inr (omega arith);
}
month_and_day-IsMonthOf y (suc left) m n hm hn = elim (Bool-cases (ltb (days_in_month y m) n)) [
  | inl late ↦
      let ih : IsMonthOf y (m + 1) (n - days_in_month y m) left _ =
        month_and_day-IsMonthOf y left (m + 1) (n - days_in_month y m) (omega arith)
          (ground arith) in
      ground (arith, late, ih, days_before_month-suc y m hm)
  | inr here ↦ ground (arith, here, days_in_month_bounds y m)
]

pub year_lem :
    (c r : ℕ)
    → r < 146097
    → days_before_year (c * 400 + (year_in_cycle r).0 + 1) + (year_in_cycle r).1 ≡ c * 146097 + r
unfolding days_before_year year_in_cycle
year_lem c r h = ground arith

pub year_bounds : (r : ℕ) → r < 146097 → ((year_in_cycle r).0 < 400) × ((year_in_cycle r).1 ≤ 365)
unfolding year_in_cycle
year_bounds r h = ground arith

cycle_leap : (c y : ℕ) → is_leap (c * 400 + y) ≡ is_leap y
unfolding is_leap
cycle_leap c y = ground arith

-- The calendar repeats after 400 years.
pub cycle_months : (c y m : ℕ) → days_before_month (c * 400 + y) m ≡ days_before_month y m
unfolding days_before_month days_in_month
cycle_months c y zero = refl
cycle_months c y (suc zero) = refl
cycle_months c y (suc (suc m)) = rw (cycle_months c y (suc m), cycle_leap c y) refl

eleven_months : (y : ℕ) → (days_before_month y 1 ≡ 0) × (334 ≤ days_before_month y 12)
unfolding days_before_month days_in_month
eleven_months y = (refl, ground arith)

pub day_bound : (y n : ℕ) (found : ℕ × ℕ) → IsMonthOf y 1 n 11 found → n ≤ 366 → found.1 ≤ 32
day_bound y n found m h = elim m.short [
  | inl short ↦ omega arith
  | inr last ↦ omega (arith, m.sums, eleven_months y, ap (days_before_month y) last)
]
