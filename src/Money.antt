-- ===== src/Money.antt =====
-- packages/schemas/src/trading/schemas/money.py: nano-dollars, whole shares, and rounding.
-- A Python int is a `ℤ`; the proofs are in the modules below.
pub mod Sides
pub mod Rounding
pub mod Dollars
use self_improving_trading_s.Fraction.{
  Fraction, denominator, of_int, mul_frac, sub_int, add_int, is_positive, abs_lt_one,
}
use self_improving_trading_s.Prelude.{
  ℕ, ◌+◌, ◌*◌, ◌^◌, ◌≡◌, Bool, true, false, ◌&&◌, not, if◌then◌else◌, ◌==◌, ℤ, pos, negsuc, ◌+ℤ◌,
  ◌*ℤ◌, leb_ℤ, floor_div, floor_mod, sub_ℕ, ◌-◌, leb, pos_part, neg_part,
}
use self_improving_trading_s.Decimal.{Decimal, times, is_integral, to_int}
use self_improving_trading_s.Errors.{
  Result, ok, err, Error, money_overflow, value_error, overflow_error, ◌>>=◌,
}

-- `NANO`
abbrev pub nano : ℕ
nano = 1_000_000_000

-- `STORABLE_MAX`, `STORABLE_MIN`
abbrev pub storable_max : ℤ
storable_max = pos (2 ^ 62)

abbrev pub storable_min : ℤ
storable_min = sub_ℕ 0 (2 ^ 62)

unfoldable pub is_storable : ℤ → Bool
is_storable value = leb_ℤ storable_min value && leb_ℤ value storable_max

-- From this magnitude on, `value / NANO` is too large for a float.
abbrev pub float_limit : ℕ
float_limit = nano * (2 ^ 1024 - 2 ^ 970)

-- From this magnitude on, an int has more digits than Python turns into text.
abbrev pub text_limit : ℕ
text_limit = 10 ^ 4300

-- What the `raise` of `narrow` raises: the text of its error is made first, and that can fail.
unfoldable pub overflow_of : ℤ → Error
overflow_of value =
    let magnitude = pos_part value + neg_part value in
    if leb text_limit magnitude
    then value_error
    else if leb float_limit magnitude
    then overflow_error
    else money_overflow

unfoldable pub narrow : ℤ → Result ℤ
unfolding is_storable overflow_of
narrow value = if not (is_storable value) then err (overflow_of value) else ok value

unfoldable pub notional : ℤ → ℤ → ℤ
notional price quantity = price *ℤ quantity

pub record RoundedMoney : Type 0 where
  pub value : ℤ
  pub remainder : Fraction

-- `RoundedMoney(value, remainder)` with its `__post_init__`
unfoldable pub rounded_money : ℤ → Fraction → Result RoundedMoney
rounded_money value remainder =
    if not (abs_lt_one remainder)
    then err value_error
    else ok (record { value = value; remainder = remainder })

-- `RoundedMoney.exact`
unfoldable pub exact : RoundedMoney → Fraction
exact m = add_int m.value m.remainder

-- `(a == b)` on bools
abbrev same : Bool → Bool → Bool
same true b = b
same false b = not b

-- The value that `_round_against_us` chooses.
unfoldable pub rounded_value : Fraction → Bool → ℤ
unfolding is_positive
rounded_value e away_from_zero =
    let floor = floor_div e.numerator (denominator e) in
    if floor_mod e.numerator (denominator e) == 0
    then floor
    else if same (is_positive e) away_from_zero
    then floor +ℤ pos 1
    else floor

-- `_round_against_us`
unfoldable pub round_against_us : Fraction → Bool → Result RoundedMoney
round_against_us e away_from_zero = do
  let value = rounded_value e away_from_zero
  stored ← narrow value
  rounded_money stored (sub_int e value)

unfoldable pub round_cost : Fraction → Result RoundedMoney
round_cost e = round_against_us e true

unfoldable pub round_credit : Fraction → Result RoundedMoney
round_credit e = round_against_us e false

unfoldable pub round_statistic : Fraction → Result RoundedMoney
round_statistic e = round_against_us e false

unfoldable pub apply_rate : ℤ → Fraction → Bool → Result RoundedMoney
apply_rate base rate credit =
    let e = mul_frac (of_int base) rate in if credit then round_credit e else round_cost e

-- `dollars`, of a `Decimal`
unfoldable pub dollars : Decimal → Result ℤ
unfolding times is_integral to_int
dollars amount = do
  value ← times amount nano
  if not (is_integral value) then err value_error else narrow (to_int value)
