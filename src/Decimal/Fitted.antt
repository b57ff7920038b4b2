-- ===== src/Decimal/Fitted.antt =====
-- Counting digits, and the numbers that the context leaves as they are.
use self_improving_trading_s.Prelude.{
  ℕ, zero, suc, ◌*◌, ◌/◌, ◌^◌, ◌<◌, ◌≤◌, ◌≡◌, ◌==◌, false, arith, ℤ, pos, ◌+ℤ◌, ◌-ℤ◌, ltb_ℤ, max_ℤ,
  ◌≤ℤ◌, int_laws, Bool-cases, inl, inr,
}
use self_improving_trading_s.Errors.{ok}
use self_improving_trading_s.Decimal.{
  Decimal, precision, top_exponent, tiny_exponent, digit_count, fitted, to_context,
}

tenth : (n p q : ℕ) → q ≡ p * 10 → n < q → n / 10 < p
tenth n p q e h = omega arith

-- A number below 10^k has at most k digits.
digit_count-bounds : (fuel n k : ℕ) → n < 10 ^ k → digit_count fuel n ≤ k
unfolding digit_count
digit_count-bounds zero n k h = omega arith
digit_count-bounds (suc fuel) n zero h = ground arith
digit_count-bounds (suc fuel) n (suc k) h =
    let less = digit_count-bounds fuel (n / 10) k (tenth n (10 ^ k) (10 ^ suc k) (omega arith) h) in
    ground arith

whole : (n p q : ℕ) → q ≡ p * 10 → n / 10 < p → n < q
whole n p q e h = omega arith

-- The fuel is enough: a number is below 10 to the count of its digits.
digit_count-covers : (fuel n : ℕ) → n ≤ fuel → n < 10 ^ digit_count fuel n
unfolding digit_count
digit_count-covers zero n h = omega arith
digit_count-covers (suc fuel) n h = elim (Bool-cases (n == 0)) [
  | inl e ↦ rw e (ground arith)
  | inr e ↦ rw e (
      whole n (10 ^ digit_count fuel (n / 10)) (10 ^ suc (digit_count fuel (n / 10))) (omega arith)
        (digit_count-covers fuel (n / 10) (ground arith)))
]

not_above : (a b c : ℤ) → a ≤ℤ b → b ≤ℤ c → ltb_ℤ c a ≡ false
not_above a b c h k = ground arith

stays : (a e : ℤ) → a ≤ℤ e → tiny_exponent ≤ℤ e → ltb_ℤ e (max_ℤ a tiny_exponent) ≡ false
stays a e h lo = ground arith

-- A number of at most 28 digits whose exponent is within the limits stays as it is.
fitted_small :
    (d : Decimal) (digits : ℕ)
    → digits ≤ precision
    → tiny_exponent ≤ℤ d.exponent
    → d.exponent ≤ℤ top_exponent
    → fitted d digits ≡ ok d
unfolding fitted
fitted_small d digits h lo hi =
    let least = d.exponent +ℤ pos digits -ℤ pos precision in
    let under : least ≤ℤ d.exponent = omega (int_laws, h) in
    rw (not_above least d.exponent top_exponent under hi, stays least d.exponent under lo)

pub to_context_small :
    (d : Decimal)
    → d.coefficient < 10 ^ precision
    → tiny_exponent ≤ℤ d.exponent
    → d.exponent ≤ℤ top_exponent
    → to_context d ≡ ok d
unfolding to_context
to_context_small d h lo hi =
    let small = digit_count-bounds d.coefficient d.coefficient precision h in
    ground (arith, fitted_small d (digit_count d.coefficient d.coefficient) small lo hi)
