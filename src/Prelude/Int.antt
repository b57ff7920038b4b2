-- ===== src/Prelude/Int.antt =====
-- Signed integers over the native numbers: the ints of Python, which are unbounded. Sums and orders
-- go through the two parts of an integer, which are numbers that `omega` reads.
use Prim.Native.Nat.pow
use Prim.Native.Nat.{ℕ, zero, suc, ◌+◌, ◌-◌, ◌*◌, ◌/◌, ◌%◌, ◌^◌, ◌≤◌, ◌<◌}
use mathlib.Core.Path.{◌≡◌, ap}
use mathlib.Core.Logic.{◌↔◌, ◌⊎◌, inl, inr}
use mathlib.Core.Bool.{Bool, true}
use mathlib.Core.List.{List, [], ◌∷◌, ◌++◌}
use native.Mathlib.Omega.{arith}
use self_improving_trading_s.Prelude.Tests.{ltb, leb, ◌==◌, if◌then◌else◌, Bool-cases}

-- `negsuc n` is -(n + 1).
pub data ℤ : Type 0 where
  pos : ℕ → ℤ
  negsuc : ℕ → ℤ

abbrev pub pos_part : ℤ → ℕ
pos_part (pos n) = n
pos_part (negsuc n) = 0

abbrev pub neg_part : ℤ → ℕ
neg_part (pos n) = 0
neg_part (negsuc n) = suc n

-- a - b, as an integer.
abbrev pub sub_ℕ : ℕ → ℕ → ℤ
sub_ℕ a b = if leb b a then pos (a - b) else negsuc (b - a - 1)

infixl 65 ◌+ℤ◌ ◌-ℤ◌
infixl 70 ◌*ℤ◌
infix 50 ◌≤ℤ◌ ◌<ℤ◌
unfoldable pub ◌+ℤ◌ : ℤ → ℤ → ℤ
a +ℤ b = sub_ℕ (pos_part a + pos_part b) (neg_part a + neg_part b)

unfoldable pub ◌-ℤ◌ : ℤ → ℤ → ℤ
a -ℤ b = sub_ℕ (pos_part a + neg_part b) (neg_part a + pos_part b)

unfoldable pub ◌*ℤ◌ : ℤ → ℤ → ℤ
a *ℤ b =
    sub_ℕ (pos_part a * pos_part b + neg_part a * neg_part b)
      (pos_part a * neg_part b + neg_part a * pos_part b)

abbrev pub ◌≤ℤ◌ : ℤ → ℤ → Type 0
a ≤ℤ b = pos_part a + neg_part b ≤ pos_part b + neg_part a

abbrev pub ◌<ℤ◌ : ℤ → ℤ → Type 0
a <ℤ b = pos_part a + neg_part b < pos_part b + neg_part a

abbrev pub ltb_ℤ : ℤ → ℤ → Bool
ltb_ℤ a b = ltb (pos_part a + neg_part b) (pos_part b + neg_part a)

abbrev pub leb_ℤ : ℤ → ℤ → Bool
leb_ℤ a b = leb (pos_part a + neg_part b) (pos_part b + neg_part a)

abbrev pub eqb_ℤ : ℤ → ℤ → Bool
eqb_ℤ a b = (pos_part a + neg_part b) == (pos_part b + neg_part a)

-- One lemma for each operation lets `omega` work with the operations shut, at any depth.
pub +ℤ_parts :
    (a b : ℤ)
    → pos_part (a +ℤ b) + neg_part a + neg_part b ≡ neg_part (a +ℤ b) + pos_part a + pos_part b
unfolding ◌+ℤ◌
+ℤ_parts a b = ground arith

pub -ℤ_parts :
    (a b : ℤ)
    → pos_part (a -ℤ b) + neg_part a + pos_part b ≡ neg_part (a -ℤ b) + pos_part a + neg_part b
unfolding ◌-ℤ◌
-ℤ_parts a b = ground arith

pub *ℤ_parts :
    (a b : ℤ)
    → pos_part (a *ℤ b) + (pos_part a * neg_part b + neg_part a * pos_part b)
      ≡ neg_part (a *ℤ b) + (pos_part a * pos_part b + neg_part a * neg_part b)
unfolding ◌*ℤ◌
*ℤ_parts a b = ground arith

-- At most one of the two parts of an integer is not 0.
pub parts_apart : (a : ℤ) → (pos_part a ≡ 0) ⊎ (neg_part a ≡ 0)
parts_apart a = ground arith

pub eq_of_parts : (a b : ℤ) → pos_part a + neg_part b ≡ pos_part b + neg_part a → a ≡ b
eq_of_parts a b h = ground arith

pub ruleset int_laws = (arith, +ℤ_parts, -ℤ_parts, eq_of_parts)

pub ltb_ℤ-iff_lt : (a b : ℤ) → (ltb_ℤ a b ≡ true) ↔ (a <ℤ b)
ltb_ℤ-iff_lt a b = ground arith

pub leb_ℤ-iff_le : (a b : ℤ) → (leb_ℤ a b ≡ true) ↔ (a ≤ℤ b)
leb_ℤ-iff_le a b = ground arith

-- `a // n` and `a % n` for a positive n: `divmod` floors.
unfoldable pub floor_div : ℤ → ℕ → ℤ
floor_div (pos a) n = pos (a / n)
floor_div (negsuc a) n = negsuc (a / n)

unfoldable pub floor_mod : ℤ → ℕ → ℕ
floor_mod (pos a) n = a % n
floor_mod (negsuc a) n = n - 1 - a % n

pub *ℤ-pos_parts :
    (v : ℤ) (d : ℕ)
    → (pos_part (v *ℤ pos d) ≡ pos_part v * d) × (neg_part (v *ℤ pos d) ≡ neg_part v * d)
unfolding ◌*ℤ◌
*ℤ-pos_parts (pos n) d = ground arith
*ℤ-pos_parts (negsuc n) d = ground arith

abbrev pub max_ℤ : ℤ → ℤ → ℤ
max_ℤ a b = if ltb_ℤ a b then b else a

abbrev pub min_ℤ : ℤ → ℤ → ℤ
min_ℤ a b = if ltb_ℤ b a then b else a

mul_le : (m n d : ℕ) → m ≤ n → m * d ≤ n * d
mul_le m n d h = grind arith

pub *ℤ-mono : (a b : ℤ) (d : ℕ) → a ≤ℤ b → a *ℤ pos d ≤ℤ b *ℤ pos d
*ℤ-mono a b d h =
    let (p, n) = *ℤ-pos_parts a d in
    let (q, m) = *ℤ-pos_parts b d in
    omega (arith, mul_le (pos_part a + neg_part b) (pos_part b + neg_part a) d h)

pub *ℤ_cancel : (a b : ℤ) (d : ℕ) → a *ℤ pos d <ℤ b *ℤ pos d → a <ℤ b
*ℤ_cancel a b d h = elim (Bool-cases (leb_ℤ b a)) [
  | inl e ↦ absurd (omega (arith, *ℤ-mono b a d (leb→le b a e)))
  | inr e ↦ ground arith
]
  where
    leb→le : (a b : ℤ) → leb_ℤ a b ≡ true → a ≤ℤ b
    leb→le a b e = ground arith

pub add_one-*ℤ : (b : ℤ) (d : ℕ) → (b +ℤ pos 1) *ℤ pos d ≡ b *ℤ pos d +ℤ pos d
add_one-*ℤ b d =
    let (p, n) = *ℤ-pos_parts b d in
    let (q, m) = *ℤ-pos_parts (b +ℤ pos 1) d in omega (int_laws, mul_eq _ _ d (+ℤ_parts b (pos 1)))
  where
    mul_eq : (m n d : ℕ) → m ≡ n → m * d ≡ n * d
    mul_eq m n d e = ap (λ (t : ℕ). t * d) e

-- If `a * d` passes `b * d` by less than `d`, `a` does not pass `b`.
pub le_of_*ℤ : (a b : ℤ) (d : ℕ) → a *ℤ pos d <ℤ b *ℤ pos d +ℤ pos d → a ≤ℤ b
le_of_*ℤ a b d h =
    let e = add_one-*ℤ b d in
    let k : a <ℤ b +ℤ pos 1 = *ℤ_cancel a (b +ℤ pos 1) d (rw e h) in omega int_laws

-- `sum(f(x) for x in xs)`
abbrev pub sum_by {ℓ} : {A : Type ℓ} → (A → ℤ) → List A → ℤ
sum_by f [] = pos 0
sum_by f (x ∷ xs) = f x +ℤ sum_by f xs

pub sum_by-append {ℓ} :
    {A : Type ℓ} (f : A → ℤ) (xs ys : List A) → sum_by f (xs ++ ys) ≡ sum_by f xs +ℤ sum_by f ys
sum_by-append f [] ys = omega int_laws
sum_by-append f (x ∷ xs) ys = rw (sum_by-append f xs ys) (omega int_laws)

-- A quotient that is rounded down, times the divisor, is the nearest multiple below.
pub floor_div_bounds :
    (a : ℤ) (n : ℕ) → 0 < n → (floor_div a n *ℤ pos n ≤ℤ a) × (a <ℤ floor_div a n *ℤ pos n +ℤ pos n)
unfolding floor_div
floor_div_bounds (pos a) n h =
    let (p, q) = *ℤ-pos_parts (pos (a / n)) n in (grind int_laws, grind int_laws)
floor_div_bounds (negsuc a) n h =
    let (p, q) = *ℤ-pos_parts (negsuc (a / n)) n in (grind int_laws, grind int_laws)

pub power_pos : (e : ℕ) → 0 < 10 ^ e
power_pos zero = omega (arith, pow.zero 10)
power_pos (suc e) = omega (arith, pow.suc 10 e, power_pos e)
