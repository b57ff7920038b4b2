-- ===== src/Money/Rounding.antt =====
-- What rounding does to an amount: the exact identity, the direction, and when it raises.
use self_improving_trading_s.Money.Sides.{
  abs_ℤ, AwayFromZero, TowardZero, frac, away_lem, toward_lem,
}
use self_improving_trading_s.Prelude.{
  ℕ, ◌+◌, ◌*◌, ◌<◌, ◌≡◌, refl, ap, Bool, true, false, arith, int_laws, ℤ, pos, pos_part, neg_part,
  ◌≤ℤ◌, ◌*ℤ◌, ◌-ℤ◌, -ℤ_parts, Bool-cases, inl, inr, ◌⊎◌, if◌then◌else◌, ◌≤◌, leb, sym, ◌∙◌, ◌<ℤ◌,
  parts_apart, *ℤ-pos_parts,
}
use self_improving_trading_s.Errors.{
  Result, Error, ok, err, money_overflow, overflow_error, value_error,
}
use self_improving_trading_s.Fraction.{
  Fraction, denominator, of_int, mul_frac, sub_int, add_int, abs_lt_one,
}
use self_improving_trading_s.Money.{
  overflow_of, float_limit, text_limit, storable_min, storable_max, RoundedMoney, is_storable,
  narrow, rounded_money, exact, rounded_value, round_against_us, round_cost, round_credit,
  round_statistic, apply_rate,
}

-- Rounding loses nothing: the value and the remainder make up the amount.
pub add_int-sub_int : (e : Fraction) (v : ℤ) → add_int v (sub_int e v) ≡ e
unfolding add_int sub_int
add_int-sub_int e v = ap (λ (n : ℤ). frac n e.den_pred) (omega int_laws)

pub add_int-round :
    (e : Fraction) (away : Bool) {m : RoundedMoney} → round_against_us e away ≡ ok m → exact m ≡ e
unfolding round_against_us narrow rounded_money exact
add_int-round e away h = ground (arith, add_int-sub_int e (rounded_value e away))

-- Two ints whose parts are on one side differ by what their parts differ.
diff_small :
    (n p : ℤ) (d : ℕ)
    → ((pos_part n ≡ 0) × (pos_part p ≡ 0)) ⊎ ((neg_part n ≡ 0) × (neg_part p ≡ 0))
    → abs_ℤ n < abs_ℤ p + d
    → abs_ℤ p < abs_ℤ n + d
    → abs_ℤ (n -ℤ p) < d
diff_small n p d s h g = omega (int_laws, parts_apart (n -ℤ p), -ℤ_parts n p)

remainder_lem :
    (e : Fraction) (v : ℤ)
    → ((pos_part e.numerator ≡ 0) × (pos_part v ≡ 0))
      ⊎ ((neg_part e.numerator ≡ 0) × (neg_part v ≡ 0))
    → abs_ℤ e.numerator < abs_ℤ v * denominator e + denominator e
    → abs_ℤ v * denominator e < abs_ℤ e.numerator + denominator e
    → abs_lt_one (sub_int e v) ≡ true
unfolding abs_lt_one sub_int
remainder_lem e v s h g =
    let (p, n) = *ℤ-pos_parts v (denominator e) in
    let small : abs_ℤ (e.numerator -ℤ v *ℤ pos (denominator e)) < denominator e =
      diff_small e.numerator (v *ℤ pos (denominator e)) (denominator e) (ground arith) (omega arith)
        (omega arith) in
    ground arith

-- What is left over is less than one nano-dollar.
remainder_small :
    (e : Fraction) (away : Bool) → abs_lt_one (sub_int e (rounded_value e away)) ≡ true
remainder_small e true =
    let a = away_lem e.numerator e.den_pred in
    remainder_lem e (rounded_value e true) a.same_sign (omega arith) a.tight
remainder_small e false =
    let a = toward_lem e.numerator e.den_pred in
    remainder_lem e (rounded_value e false) a.same_sign a.tight (omega arith)

-- Rounding raises exactly where the chosen value does not fit, and then the error of the overflow.
pub round-eq-narrow :
    (e : Fraction) (away : Bool)
    → round_against_us e away ≡ (
        if is_storable (rounded_value e away)
        then ok
            (record { value = rounded_value e away; remainder = sub_int e (rounded_value e away) })
        else err (overflow_of (rounded_value e away)))
unfolding round_against_us narrow rounded_money
round-eq-narrow e away = ground (arith, remainder_small e away)

narrowed : (v : ℤ) {w : ℤ} → narrow v ≡ ok w → (w ≡ v) × (storable_min ≤ℤ v) × (v ≤ℤ storable_max)
unfolding narrow
narrowed v h = ground arith

round_ok :
    (e : Fraction) (away : Bool) {m : RoundedMoney}
    → round_against_us e away ≡ ok m
    → (m.value ≡ rounded_value e away)
      × (m.remainder ≡ sub_int e (rounded_value e away))
      × (storable_min ≤ℤ m.value)
      × (m.value ≤ℤ storable_max)
unfolding is_storable
round_ok e away h = let k = sym (round-eq-narrow e away) ∙ h in ground arith

-- A rounded amount is what a stored money value has to be: with its remainder it makes up the amount
-- that was rounded, the remainder is less than one nano-dollar, and the value can be stored.
pub record IsRounding (e : Fraction) (m : RoundedMoney) : Type 0 where
  pub complete : exact m ≡ e
  pub small : abs_lt_one m.remainder ≡ true
  pub above_min : storable_min ≤ℤ m.value
  pub below_max : m.value ≤ℤ storable_max

round-IsRounding :
    (e : Fraction) (away : Bool) {m : RoundedMoney}
    → round_against_us e away ≡ ok m
    → IsRounding e m
unfolding exact
round-IsRounding e away h =
    let (v, r, lo, hi) = round_ok e away h in
    record {
      complete = rw (v, r) (add_int-sub_int e (rounded_value e away));
      small = rw r (remainder_small e away);
      above_min = lo;
      below_max = hi;
    }

-- A cost that is rounded successfully keeps the whole amount in value and remainder, and its value is
-- the whole number of nano-dollars next to the amount on the side away from zero, so that no cost is
-- understated and an exact amount is left alone.
pub round_cost_lem :
    (e : Fraction) {m : RoundedMoney}
    → round_cost e ≡ ok m
    → IsRounding e m × AwayFromZero e m.value
unfolding round_cost
round_cost_lem e h =
    (round-IsRounding e true h, rw ((round_ok e true h).0) (away_lem e.numerator e.den_pred))

-- A credit that is rounded successfully keeps the whole amount in value and remainder, and its value
-- is the whole number of nano-dollars next to the amount on the side of zero.
pub round_credit_lem :
    (e : Fraction) {m : RoundedMoney}
    → round_credit e ≡ ok m
    → IsRounding e m × TowardZero e m.value
unfolding round_credit
round_credit_lem e h =
    (round-IsRounding e false h, rw ((round_ok e false h).0) (toward_lem e.numerator e.den_pred))

pub round_statistic_lem :
    (e : Fraction) {m : RoundedMoney}
    → round_statistic e ≡ ok m
    → IsRounding e m × TowardZero e m.value
unfolding round_statistic
round_statistic_lem e h =
    (round-IsRounding e false h, rw ((round_ok e false h).0) (toward_lem e.numerator e.den_pred))

-- The side on which a rate's result may lie: a credit toward zero, a cost away from it.
abbrev pub AgainstUs : Bool → Fraction → ℤ → Type 0
AgainstUs true e v = TowardZero e v
AgainstUs false e v = AwayFromZero e v

-- A rate that is applied to a base successfully gives the exact product, split into a value and a
-- remainder of less than one nano-dollar: toward zero for a credit, away from zero for a cost.
pub apply_rate_lem :
    (base : ℤ) (rate : Fraction) (credit : Bool) {m : RoundedMoney}
    → apply_rate base rate credit ≡ ok m
    → IsRounding (mul_frac (of_int base) rate) m
      × AgainstUs credit (mul_frac (of_int base) rate) m.value
unfolding apply_rate
apply_rate_lem base rate true h = round_credit_lem (mul_frac (of_int base) rate) h
apply_rate_lem base rate false h = round_cost_lem (mul_frac (of_int base) rate) h

-- The ways rounding can end that chooses the whole number `v`.
pub data RoundingOutcome (v : ℤ) : Result RoundedMoney → Type 0 where
  returned :
      (m : RoundedMoney)
      → m.value ≡ v
      → storable_min ≤ℤ v
      → v ≤ℤ storable_max
      → RoundingOutcome v (ok m)
  overflowed :
      (v <ℤ storable_min) ⊎ (storable_max <ℤ v)
      → abs_ℤ v < float_limit
      → RoundingOutcome v (err money_overflow)
  untold :
      (e : Error)
      → float_limit ≤ abs_ℤ v
      → (e ≡ overflow_error) ⊎ (e ≡ value_error)
      → RoundingOutcome v (err e)

narrow-outcome :
    (v : ℤ) (r : Fraction)
    → RoundingOutcome v
        (if is_storable v then ok (record { value = v; remainder = r }) else err (overflow_of v))
unfolding is_storable overflow_of
narrow-outcome v r = elim (Bool-cases (is_storable v)) [
  | inl e ↦ rw e (returned _ refl (ground arith) (ground arith))
  | inr e ↦ rw e (elim (Bool-cases (leb text_limit (abs_ℤ v))) [
    | inl t ↦ rw t (untold value_error (ground arith) (inr refl))
    | inr t ↦ rw t (elim (Bool-cases (leb float_limit (abs_ℤ v))) [
      | inl f ↦ rw f (untold overflow_error (ground arith) (inl refl))
      | inr f ↦ rw f (overflowed (ground arith) (ground arith))
    ])
  ])
]

-- The rounding that the roundings of money share, to either side, returns the whole number it chooses
-- exactly if that can be stored. Otherwise it raises the overflow error, unless the number is so large,
-- about 1.8e317 nano-dollars and more, that making the text of that error raises an OverflowError or a
-- ValueError first.
pub rounding_total :
    (e : Fraction) (away : Bool) → RoundingOutcome (rounded_value e away) (round_against_us e away)
rounding_total e away =
    rw round-eq-narrow (narrow-outcome (rounded_value e away) (sub_int e (rounded_value e away)))
