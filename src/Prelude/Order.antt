-- ===== src/Prelude/Order.antt =====
-- Strict total orders with a Boolean test, the lexicographic order of pairs, and its inverse image.
use mathlib.Core.Path.{◌≡◌}
use mathlib.Core.Bool.{Bool, true, false}
use native.Mathlib.Omega.{arith}
use mathlib.Core.Logic.{◌⊎◌, inl, inr}
use self_improving_trading_s.Prelude.Tests.{if◌then◌else◌, Bool-cases}
use self_improving_trading_s.Prelude.Int.{ℤ, ltb_ℤ, eq_of_parts}

pub record LinOrd {ℓ} (A : Type ℓ) : Type ℓ where
  pub lt : A → A → Bool
  pub irrefl : (a : A) → lt a a ≡ false
  pub trans : (a b c : A) → lt a b ≡ true → lt b c ≡ true → lt a c ≡ true
  pub conn : (a b : A) → lt a b ≡ false → lt b a ≡ false → a ≡ b

pub ltb_ℤ_irrefl : (a : ℤ) → ltb_ℤ a a ≡ false
ltb_ℤ_irrefl a = ground arith

pub ltb_ℤ_trans : (a b c : ℤ) → ltb_ℤ a b ≡ true → ltb_ℤ b c ≡ true → ltb_ℤ a c ≡ true
ltb_ℤ_trans a b c h k = ground arith

pub ltb_ℤ_conn : (a b : ℤ) → ltb_ℤ a b ≡ false → ltb_ℤ b a ≡ false → a ≡ b
ltb_ℤ_conn a b h k = ground (arith, eq_of_parts a b)

instance abbrev pub int_ord : LinOrd ℤ
int_ord = record { lt = ltb_ℤ; irrefl = ltb_ℤ_irrefl; trans = ltb_ℤ_trans; conn = ltb_ℤ_conn }

-- Python compares tuples at the first place where they differ.
module _ {ℓ κ} {A : Type ℓ} {B : Type κ} (oa : LinOrd A) (ob : LinOrd B) where
  abbrev pub lex_lt : A × B → A × B → Bool
  lex_lt (a, x) (b, y) = if oa.lt a b then true else if oa.lt b a then false else ob.lt x y

  pub lex_irrefl : (p : A × B) → lex_lt p p ≡ false
  lex_irrefl (a, x) = ground (arith, oa.irrefl a, ob.irrefl x)

  pub lex_trans : (p q r : A × B) → lex_lt p q ≡ true → lex_lt q r ≡ true → lex_lt p r ≡ true
  lex_trans (a, x) (b, y) (c, z) h k = ground (
    arith,
    oa.trans a b c,
    oa.trans b c a,
    oa.trans c a b,
    oa.conn a b,
    oa.conn b c,
    oa.irrefl a,
    oa.irrefl b,
    ob.trans x y z,
  )

  pub lex_conn : (p q : A × B) → lex_lt p q ≡ false → lex_lt q p ≡ false → p ≡ q
  lex_conn (a, x) (b, y) h k = ground (arith, oa.conn a b, ob.conn x y)

  abbrev pub lex_ord : LinOrd (A × B)
  lex_ord = record { lt = lex_lt; irrefl = lex_irrefl; trans = lex_trans; conn = lex_conn }

module _ {ℓ} {A : Type ℓ} (o : LinOrd A) where
  pub lt_asymm : (a b : A) → o.lt a b ≡ true → o.lt b a ≡ false
  lt_asymm a b h = elim (Bool-cases (o.lt b a)) [
    | inl e ↦ cc (o.trans a b a h e, o.irrefl a)
    | inr e ↦ e
  ]

  -- Of two elements one is below the other, or they are equal.
  pub compare-cases : (a b : A) → (o.lt a b ≡ true) ⊎ (o.lt b a ≡ true) ⊎ (a ≡ b)
  compare-cases a b = elim (Bool-cases (o.lt a b)) [
    | inl h ↦ inl h
    | inr h ↦ elim (Bool-cases (o.lt b a)) [
      | inl k ↦ inr (inl k)
      | inr k ↦ inr (inr (o.conn a b h k))
    ]
  ]

-- The order of a key that determines the element.
module _ {ℓ κ} {A : Type ℓ} {K : Type κ} (o : LinOrd K) (key : A → K) where
  abbrev pub order_by : ((a b : A) → key a ≡ key b → a ≡ b) → LinOrd A
  order_by injective = record {
    lt = λ a b. o.lt (key a) (key b);
    irrefl = λ a. o.irrefl (key a);
    trans = λ a b c. o.trans (key a) (key b) (key c);
    conn = λ a b h k. injective a b (o.conn (key a) (key b) h k);
  }
