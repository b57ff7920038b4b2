-- ===== src/Money/Dollars.antt =====
-- `dollars` within the precision of the decimal context: exact, or refused.
use self_improving_trading_s.Prelude.{
  ℕ, suc, ◌*◌, ◌^◌, ◌<◌, ◌≡◌, refl, sym, ap, ◌∙◌, ◌↔◌, Bool, true, false, not, arith, ℤ, pos,
  power_pos, negsuc, sub_ℕ, ◌≤ℤ◌, Bool-cases, inl, inr, if◌then◌else◌,
}
use self_improving_trading_s.Errors.{Result, ok, err, value_error, err-ok}
use self_improving_trading_s.Decimal.{
  Decimal, precision, tiny_exponent, top_exponent, times, integral_at, is_integral, magnitude_at,
  magnitude, to_int,
}
use self_improving_trading_s.Decimal.Fitted.{to_context_small}
use self_improving_trading_s.Money.{nano, storable_max, storable_min, is_storable, narrow, dollars}

-- `m` is `c * 10^exponent`.
abbrev pub Scaled : ℤ → ℕ → ℕ → Type 0
Scaled (pos e) c m = m ≡ c * 10 ^ e
Scaled (negsuc e) c m = m * 10 ^ suc e ≡ c

abbrev pub signed : Bool → ℕ → ℤ
signed true m = sub_ℕ 0 m
signed false m = pos m

-- `v` nano-dollars are the amount, exactly.
abbrev pub IsAmount : Decimal → ℤ → Type 0
IsAmount amount v =
    (m : ℕ) × (v ≡ signed amount.negative m) × Scaled amount.exponent (amount.coefficient * nano) m

-- A whole product has its magnitude as value, and no other value.
whole-Scaled : (e : ℤ) (c : ℕ) → integral_at e c ≡ true → Scaled e c (magnitude_at e c)
unfolding integral_at magnitude_at
whole-Scaled (pos e) c h = refl
whole-Scaled (negsuc e) c h = grind (arith, power_pos (suc e))

Scaled-whole : (e : ℤ) (c m : ℕ) → Scaled e c m → (integral_at e c ≡ true) × (magnitude_at e c ≡ m)
unfolding integral_at magnitude_at
Scaled-whole (pos e) c m h = (refl, sym h)
Scaled-whole (negsuc e) c m h = grind (arith, power_pos (suc e))

times_small :
    (amount : Decimal)
    → amount.coefficient * nano < 10 ^ precision
    → tiny_exponent ≤ℤ amount.exponent
    → amount.exponent ≤ℤ top_exponent
    → times amount nano ≡ ok (record amount { coefficient = amount.coefficient * nano })
unfolding times
times_small amount h lo hi =
    to_context_small (record amount { coefficient = amount.coefficient * nano }) h lo hi

-- What `dollars` does with the product.
stored : Bool → ℤ → ℕ → Result ℤ
stored negative e c =
    if not (integral_at e c) then err value_error else narrow (signed negative (magnitude_at e c))

dollars-stored :
    (amount : Decimal)
    → amount.coefficient * nano < 10 ^ precision
    → tiny_exponent ≤ℤ amount.exponent
    → amount.exponent ≤ℤ top_exponent
    → dollars amount ≡ stored amount.negative amount.exponent (amount.coefficient * nano)
unfolding dollars stored is_integral to_int magnitude
dollars-stored amount h below above = rw (times_small amount h below above) (
    ap
      (λ z.
        if not (integral_at amount.exponent (amount.coefficient * nano))
        then err value_error
        else narrow z)
      (sign amount.negative _))
  where
    sign : (b : Bool) (m : ℕ) → (if b then sub_ℕ 0 m else pos m) ≡ signed b m
    sign true m = refl
    sign false m = refl

narrow→ : (w : ℤ) {v : ℤ} → narrow w ≡ ok v → (v ≡ w) × (storable_min ≤ℤ v) × (v ≤ℤ storable_max)
unfolding narrow is_storable
narrow→ w h = ground arith

→narrow : (w : ℤ) → storable_min ≤ℤ w → w ≤ℤ storable_max → narrow w ≡ ok w
unfolding narrow is_storable
→narrow w lo hi = ground arith

stored→ :
    (negative : Bool) (e : ℤ) (c : ℕ) {v : ℤ}
    → stored negative e c ≡ ok v
    → (integral_at e c ≡ true) × (narrow (signed negative (magnitude_at e c)) ≡ ok v)
unfolding stored
stored→ negative e c h = elim (Bool-cases (integral_at e c)) [
  | inl i ↦ (i, rw (stored, i) at h)
  | inr i ↦ absurd (err-ok (rw (stored, i) at h))
]

-- For an amount whose coefficient times 10^9 has at most 28 digits and whose exponent is within the
-- limits of the decimal context, from -1000026 to 999972, `dollars` returns exactly the amount in
-- nano-dollars, where that is a whole number which can be stored, and returns nothing else: no precision
-- is lost.
pub dollars_iff :
    (amount : Decimal) (v : ℤ)
    → amount.coefficient * nano < 10 ^ precision
    → tiny_exponent ≤ℤ amount.exponent
    → amount.exponent ≤ℤ top_exponent
    → (dollars amount ≡ ok v) ↔ (IsAmount amount v × (storable_min ≤ℤ v) × (v ≤ℤ storable_max))
dollars_iff amount v h below above = (there, back)
  where
    c : ℕ
    c = amount.coefficient * nano

    there : dollars amount ≡ ok v → IsAmount amount v × (storable_min ≤ℤ v) × (v ≤ℤ storable_max)
    there d =
        let (whole, kept) =
          stored→ amount.negative amount.exponent c
            (sym (dollars-stored amount h below above) ∙ d) in
        let (value, lo, hi) =
          narrow→ (signed amount.negative (magnitude_at amount.exponent c)) kept in
        ((magnitude_at amount.exponent c, value, whole-Scaled amount.exponent c whole), lo, hi)

    back : IsAmount amount v × (storable_min ≤ℤ v) × (v ≤ℤ storable_max) → dollars amount ≡ ok v
    back ((m, value, scaled), lo, hi) =
        let (whole, same) = Scaled-whole amount.exponent c m scaled in
        dollars-stored amount h below above
        ∙ unfold stored in rw (whole, same, ← value) (→narrow v lo hi)
