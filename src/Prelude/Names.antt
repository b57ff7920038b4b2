-- ===== src/Prelude/Names.antt =====
-- The order of texts, by their code points, and dictionaries with texts as keys.
use Prim.Native.Nat.{ℕ}
use Prim.Native.String.{String}
use text.Mathlib.TextEquality.{Char-path}
use mathlib.Core.Path.{◌≡◌, refl}
use mathlib.Core.Bool.{Bool, true, false}
use mathlib.Core.Option.{none}
use mathlib.Core.List.{List, [], ◌∷◌}
use native.Mathlib.Omega.{arith}
use self_improving_trading_s.Prelude.Tests.{if◌then◌else◌, ltb}
use self_improving_trading_s.Prelude.Text.{codes, str_eq, str_eq_iff, lookup}
use self_improving_trading_s.Prelude.Order.{LinOrd}

abbrev pub codes_lt : List ℕ → List ℕ → Bool
codes_lt s [] = false
codes_lt [] (d ∷ t) = true
codes_lt (c ∷ s) (d ∷ t) = if ltb c d then true else if ltb d c then false else codes_lt s t

pub codes_lt_irrefl : (s : List ℕ) → codes_lt s s ≡ false
codes_lt_irrefl [] = refl
codes_lt_irrefl (c ∷ s) = ground (arith, codes_lt_irrefl s)

pub codes_lt_trans :
    (s t u : List ℕ) → codes_lt s t ≡ true → codes_lt t u ≡ true → codes_lt s u ≡ true
codes_lt_trans s [] u h k = cc
codes_lt_trans s (d ∷ t) [] h k = cc
codes_lt_trans [] (d ∷ t) (e ∷ u) h k = refl
codes_lt_trans (c ∷ s) (d ∷ t) (e ∷ u) h k = ground (arith, codes_lt_trans s t u)

pub codes_lt_conn : (s t : List ℕ) → codes_lt s t ≡ false → codes_lt t s ≡ false → s ≡ t
codes_lt_conn [] [] h k = refl
codes_lt_conn [] (d ∷ t) h k = cc
codes_lt_conn (c ∷ s) [] h k = cc
codes_lt_conn (c ∷ s) (d ∷ t) h k = ground (arith, codes_lt_conn s t)

pub codes-injective : (s t : String) → codes s ≡ codes t → s ≡ t
codes-injective String.[] String.[] h = refl
codes-injective String.[] (String.◌∷◌ d t) h = cc
codes-injective (String.◌∷◌ c s) String.[] h = cc
codes-injective (String.◌∷◌ c s) (String.◌∷◌ d t) h =
    let first : c ≡ d = Char-path c d (cc) in let rest : s ≡ t = codes-injective s t (cc) in cc

-- Python's order of texts.
abbrev pub text_ord : LinOrd String
text_ord = record {
  lt = λ s t. codes_lt (codes s) (codes t);
  irrefl = λ s. codes_lt_irrefl (codes s);
  trans = λ s t u. codes_lt_trans (codes s) (codes t) (codes u);
  conn = λ s t h k. codes-injective s t (codes_lt_conn (codes s) (codes t) h k);
}

module _ {ℓ} {V : Type ℓ} where
  -- `m.pop(k, None)`, what is left of the dictionary
  unfoldable pub without : String → List (String × V) → List (String × V)
  without k [] = []
  without k ((j, v) ∷ m) = let rest = without k m in if str_eq j k then rest else (j, v) ∷ rest

  pub lookup-without_self : (k : String) (m : List (String × V)) → lookup k (without k m) ≡ none
  unfolding without
  lookup-without_self k [] = refl
  lookup-without_self k ((j, v) ∷ m) = ground (arith, lookup-without_self k m)

  pub lookup-without :
      (k n : String) (m : List (String × V))
      → str_eq k n ≡ false
      → lookup n (without k m) ≡ lookup n m
  unfolding without
  lookup-without k n [] h = refl
  lookup-without k n ((j, v) ∷ m) h =
      ground (arith, lookup-without k n m h, str_eq_iff j k, str_eq_iff j n, str_eq_iff k n)
