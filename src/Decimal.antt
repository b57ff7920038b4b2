-- ===== src/Decimal.antt =====
-- The part of `decimal.Decimal` of the standard library that `dollars` uses, for finite numbers: a product
-- is fitted into the default context, whose precision is 28 digits and whose exponents are limited. It
-- rounds half-even, raises for a number that is too large, and raises nothing for one that is inexact,
-- subnormal or so small that it becomes zero.
pub mod Fitted
use self_improving_trading_s.Prelude.{
  ℕ, zero, suc, ◌+◌, ◌*◌, ◌/◌, ◌%◌, ◌^◌, ◌-◌, Bool, true, not, ◌&&◌, ◌||◌, if◌then◌else◌, ltb, ◌==◌,
  ℤ, pos, negsuc, ◌+ℤ◌, ◌-ℤ◌, ltb_ℤ, max_ℤ, min_ℤ, pos_part, sub_ℕ,
}
use self_improving_trading_s.Errors.{Result, ok, err, decimal_overflow}

-- (-1)^negative * coefficient * 10^exponent
pub record Decimal : Type 0 where
  pub negative : Bool
  pub coefficient : ℕ
  pub exponent : ℤ

-- The precision of the default context.
abbrev pub precision : ℕ
precision = 28

-- The limits of the default context for the exponent of a zero, `Emax`, of a number with 28 digits,
-- `Etop()`, and of any number, `Etiny()`.
abbrev pub largest_exponent : ℤ
largest_exponent = pos 999_999

abbrev pub top_exponent : ℤ
top_exponent = pos 999_972

abbrev pub tiny_exponent : ℤ
tiny_exponent = negsuc 1_000_025

-- The number of digits of a coefficient, on fuel; the coefficient itself is fuel enough.
unfoldable pub digit_count : ℕ → ℕ → ℕ
digit_count zero n = 0
digit_count (suc fuel) n = let more = suc (digit_count fuel (n / 10)) in if n == 0 then 0 else more

-- `n / 10^k`, to the nearest, and to the even one of two that are as near.
unfoldable pub half_even : ℕ → ℕ → ℕ
half_even n k =
    let unit = 10 ^ k in
    let quotient = n / unit in
    let rest = n % unit in
    if ltb unit (2 * rest) || (2 * rest == unit) && (quotient % 2 == 1)
    then quotient + 1
    else quotient

-- A rounded coefficient at an exponent: one that has become 10^28 loses a digit.
unfoldable pub carried : Bool → ℕ → ℤ → Result Decimal
carried negative c exponent =
    if not (c == 10 ^ precision)
    then ok (record { negative = negative; coefficient = c; exponent = exponent })
    else if ltb_ℤ top_exponent (exponent +ℤ pos 1)
    then err decimal_overflow
    else ok (record {
      negative = negative;
      coefficient = 10 ^ (precision - 1);
      exponent = exponent +ℤ pos 1;
    })

-- A number other than zero that has `digits` digits, fitted into the context.
unfoldable pub fitted : Decimal → ℕ → Result Decimal
unfolding carried half_even
fitted d digits =
    let least = d.exponent +ℤ pos digits -ℤ pos precision in
    let low = max_ℤ least tiny_exponent in
    if ltb_ℤ top_exponent least
    then err decimal_overflow
    else if ltb_ℤ d.exponent low
    then carried d.negative (half_even d.coefficient (pos_part (low -ℤ d.exponent))) low
    else ok d

-- `Decimal._fix`
unfoldable pub to_context : Decimal → Result Decimal
unfolding fitted digit_count
to_context d =
    if d.coefficient == 0
    then ok (record d { exponent = min_ℤ (max_ℤ d.exponent tiny_exponent) largest_exponent })
    else fitted d (digit_count d.coefficient d.coefficient)

-- `d * n` for a positive int n
unfoldable pub times : Decimal → ℕ → Result Decimal
unfolding to_context
times d n = to_context (record d { coefficient = d.coefficient * n })

-- Whether `c * 10^exponent` is whole.
unfoldable pub integral_at : ℤ → ℕ → Bool
integral_at (pos e) c = true
integral_at (negsuc e) c = c % 10 ^ suc e == 0

-- `d == d.to_integral_value()`
unfoldable pub is_integral : Decimal → Bool
unfolding integral_at
is_integral d = integral_at d.exponent d.coefficient

-- `c * 10^exponent`, rounded down
unfoldable pub magnitude_at : ℤ → ℕ → ℕ
magnitude_at (pos e) c = c * 10 ^ e
magnitude_at (negsuc e) c = c / 10 ^ suc e

-- `abs(int(d))`
unfoldable pub magnitude : Decimal → ℕ
unfolding magnitude_at
magnitude d = magnitude_at d.exponent d.coefficient

-- `int(d)`
unfoldable pub to_int : Decimal → ℤ
unfolding magnitude
to_int d = if d.negative then sub_ℕ 0 (magnitude d) else pos (magnitude d)
