-- ===== src/Prelude/Parts.antt =====
-- Texts as lists of code points: equality, prefixes and parts.
use Prim.Native.Nat.{ℕ}
use mathlib.Core.Bool.{Bool, true, false, ◌&&◌}
use mathlib.Core.Option.{Option, none, some}
use mathlib.Core.List.{List, [], ◌∷◌, ◌++◌}
use mathlib.Core.Path.{◌≡◌}
use native.Mathlib.Omega.{arith}
use self_improving_trading_s.Prelude.Tests.{◌==◌, if◌then◌else◌}

unfoldable pub same_codes : List ℕ → List ℕ → Bool
same_codes [] [] = true
same_codes [] (d ∷ ds) = false
same_codes (c ∷ cs) [] = false
same_codes (c ∷ cs) (d ∷ ds) = (c == d) && same_codes cs ds

-- What is left behind a text that the list begins with.
unfoldable pub after_text : List ℕ → List ℕ → Option (List ℕ)
after_text [] cs = some cs
after_text (d ∷ ds) [] = none
after_text (d ∷ ds) (c ∷ cs) = let later = after_text ds cs in if c == d then later else none

-- `part in text`
unfoldable pub has_part : List ℕ → List ℕ → Bool
has_part part [] = same_codes part []
has_part part (c ∷ cs) =
    let later = has_part part cs in
    elim (after_text part (c ∷ cs)) [ none ↦ later | some rest ↦ true ]

pub after_text-append :
    (part cs : List ℕ) {rest : List ℕ} → after_text part cs ≡ some rest → cs ≡ part ++ rest
unfolding after_text
after_text-append [] cs h = cc
after_text-append (d ∷ ds) [] h = cc
after_text-append (d ∷ ds) (c ∷ cs) {rest = rest} h =
    let same : c ≡ d = ground arith in
    cc (same, after_text-append ds cs {rest = rest} (ground arith))
