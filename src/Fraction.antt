-- ===== src/Fraction.antt =====
-- The part of `fractions.Fraction` of the standard library that money.py and bars.py use: a numerator
-- over a positive denominator, not kept in lowest terms: the code reads it only through `divmod`,
-- products, differences and comparisons, which do not depend on the representative.
use self_improving_trading_s.Prelude.{
  ℕ, zero, suc, ◌+◌, ◌*◌, ◌≡◌, Bool, ltb, ltb_ℤ, ℤ, pos, negsuc, pos_part, neg_part, ◌+ℤ◌, ◌-ℤ◌,
  ◌*ℤ◌,
}
use self_improving_trading_s.Errors.{Result, ok, err, zero_division}

-- The denominator is `den_pred + 1`, so that it is positive.
pub record Fraction : Type 0 where
  pub numerator : ℤ
  pub den_pred : ℕ

abbrev pub denominator : Fraction → ℕ
denominator f = suc f.den_pred

-- Equal values.
infix 4 ◌≈◌
abbrev pub ◌≈◌ : Fraction → Fraction → Type 0
f ≈ g = f.numerator *ℤ pos (denominator g) ≡ g.numerator *ℤ pos (denominator f)

-- `Fraction(n)`
unfoldable pub of_int : ℤ → Fraction
of_int n = record { numerator = n; den_pred = 0 }

-- `Fraction(n, d)`: the sign goes to the numerator
unfoldable pub fraction : ℤ → ℤ → Result Fraction
fraction n (pos zero) = err zero_division
fraction n (pos (suc d)) = ok (record { numerator = n; den_pred = d })
fraction n (negsuc d) = ok (record { numerator = pos 0 -ℤ n; den_pred = d })

unfoldable pub mul_frac : Fraction → Fraction → Fraction
mul_frac f g = record {
  numerator = f.numerator *ℤ g.numerator;
  den_pred = f.den_pred + g.den_pred + f.den_pred * g.den_pred;
}

-- `f - n` and `n + f` for an int n
unfoldable pub sub_int : Fraction → ℤ → Fraction
sub_int f n = record f { numerator = f.numerator -ℤ n *ℤ pos (denominator f) }

unfoldable pub add_int : ℤ → Fraction → Fraction
add_int n f = record f { numerator = n *ℤ pos (denominator f) +ℤ f.numerator }

-- `f > 0`
unfoldable pub is_positive : Fraction → Bool
is_positive f = ltb_ℤ (pos 0) f.numerator

-- `abs(f) < 1`
unfoldable pub abs_lt_one : Fraction → Bool
abs_lt_one f = ltb (pos_part f.numerator + neg_part f.numerator) (denominator f)
