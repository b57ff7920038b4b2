-- ===== src/Money/Sides.antt =====
-- Which whole number of nano-dollars the rounding chooses.
use self_improving_trading_s.Prelude.{
  ℕ, suc, ◌+◌, ◌*◌, ◌/◌, ◌%◌, ◌≤◌, ◌<◌, ◌≡◌, refl, ap, true, false, arith, ℤ, pos, negsuc, pos_part,
  neg_part, ◌+ℤ◌, floor_div, floor_mod, Bool-cases, inl, inr, ◌⊎◌, ◌==◌, if◌then◌else◌, ◌-◌, sub_ℕ,
}
use self_improving_trading_s.Fraction.{Fraction, denominator}
use self_improving_trading_s.Money.{rounded_value}

abbrev pub abs_ℤ : ℤ → ℕ
abs_ℤ a = pos_part a + neg_part a

-- `v` is the whole number nearest to `e` on the side away from zero.
pub record AwayFromZero (e : Fraction) (v : ℤ) : Type 0 where
  pub covers : abs_ℤ e.numerator ≤ abs_ℤ v * denominator e
  pub tight : abs_ℤ v * denominator e < abs_ℤ e.numerator + denominator e
  pub same_sign :
      ((pos_part e.numerator ≡ 0) × (pos_part v ≡ 0))
      ⊎ ((neg_part e.numerator ≡ 0) × (neg_part v ≡ 0))

-- `v` is the whole number nearest to `e` on the side of zero.
pub record TowardZero (e : Fraction) (v : ℤ) : Type 0 where
  pub covered : abs_ℤ v * denominator e ≤ abs_ℤ e.numerator
  pub tight : abs_ℤ e.numerator < abs_ℤ v * denominator e + denominator e
  pub same_sign :
      ((pos_part e.numerator ≡ 0) × (pos_part v ≡ 0))
      ⊎ ((neg_part e.numerator ≡ 0) × (neg_part v ≡ 0))

abbrev pub frac : ℤ → ℕ → Fraction
frac n k = record { numerator = n; den_pred = k }

-- The forms of the chosen value.
pub cost_pos :
    (a k : ℕ)
    → rounded_value (frac (pos a) k) true ≡ pos (a / suc k + (if a % suc k == 0 then 0 else 1))
unfolding rounded_value floor_div floor_mod ◌+ℤ◌
cost_pos a k = elim (Bool-cases (a % suc k == 0)) [
  | inl e ↦ rw e (ap pos (omega arith))
  | inr e ↦ rw e (ground arith)
]

pub cost_neg : (a k : ℕ) → rounded_value (frac (negsuc a) k) true ≡ negsuc (a / suc k)
unfolding rounded_value floor_div floor_mod ◌+ℤ◌
cost_neg a k = elim (Bool-cases ((suc k - 1 - a % suc k) == 0)) [
  | inl e ↦ rw e
  | inr e ↦ rw e (ground arith)
]

pub credit_pos : (a k : ℕ) → rounded_value (frac (pos a) k) false ≡ pos (a / suc k)
unfolding rounded_value floor_div floor_mod ◌+ℤ◌
credit_pos a k = elim (Bool-cases (a % suc k == 0)) [ inl e ↦ rw e | inr e ↦ rw e (ground arith) ]

pub credit_neg :
    (a k : ℕ)
    → rounded_value (frac (negsuc a) k) false
      ≡ (if (suc k - 1 - a % suc k) == 0 then negsuc (a / suc k) else sub_ℕ 0 (a / suc k))
unfolding rounded_value floor_div floor_mod ◌+ℤ◌
credit_neg a k = elim (Bool-cases ((suc k - 1 - a % suc k) == 0)) [
  | inl e ↦ rw e
  | inr e ↦ rw e (ground arith)
]

pub away_lem : (n : ℤ) (k : ℕ) → AwayFromZero (frac n k) (rounded_value (frac n k) true)
away_lem (pos a) k = rw cost_pos (ground arith)
away_lem (negsuc a) k = rw cost_neg (ground arith)

pub sub_ℕ_parts : (q : ℕ) → (pos_part (sub_ℕ 0 q) ≡ 0) × (neg_part (sub_ℕ 0 q) ≡ q)
sub_ℕ_parts q = ground arith

pub toward_neg :
    (a k q : ℕ) (v : ℤ)
    → pos_part v ≡ 0
    → neg_part v ≡ q
    → q * suc k ≤ suc a
    → suc a < q * suc k + suc k
    → TowardZero (frac (negsuc a) k) v
toward_neg a k q v p n h g =
    let e : abs_ℤ v ≡ q = omega arith in
    record { covered = rw e (omega arith); tight = rw e (omega arith); same_sign = inl (refl, p) }

pub toward_lem : (n : ℤ) (k : ℕ) → TowardZero (frac n k) (rounded_value (frac n k) false)
toward_lem (pos a) k = rw credit_pos (ground arith)
toward_lem (negsuc a) k = rw credit_neg (elim (Bool-cases ((suc k - 1 - a % suc k) == 0)) [
  | inl e ↦ rw e (
      toward_neg a k (suc (a / suc k)) (negsuc (a / suc k)) refl refl (ground arith) (ground arith))
  | inr e ↦
      let (p, n) = sub_ℕ_parts (a / suc k) in
      rw e (toward_neg a k (a / suc k) (sub_ℕ 0 (a / suc k)) p n (ground arith) (ground arith))
])
