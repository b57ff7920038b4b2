-- ===== src/Snapshot/Paths.antt =====
-- The parts of `pathlib` that snapshots use, on absolute paths as their text. A `Path` has no empty
-- part and no part ".", so what `relative_to` leaves is neither empty nor absolute nor ".".
use Prim.Native.Char.{code}
use Prim.Native.String.{◌++◌}
use text.Mathlib.TextLemmas.{nil-append, cons-append, append_assoc}
use text.Mathlib.TextEquality.{Char-path}
use self_improving_trading_s.Prelude.{
  ◌≡◌, sym, ◌∙◌, ◌==◌, Bool, true, false, ◌||◌, Option, none, some, String, arith, if◌then◌else◌,
  str_eq, str_eq_iff, Bool-cases, inl, inr,
}

-- `str.removeprefix`, where it applies
strip : String → String → Option String
strip String.[] s = some s
strip (String.◌∷◌ c p) String.[] = none
strip (String.◌∷◌ c p) (String.◌∷◌ d s) =
    let rest = strip p s in if code c == code d then rest else none

strip_lem : (p s : String) {r : String} → strip p s ≡ some r → s ≡ p ++ r
unfolding strip
strip_lem String.[] s {r} h = cc (nil-append r)
strip_lem (String.◌∷◌ c p) String.[] h = cc
strip_lem (String.◌∷◌ c p) (String.◌∷◌ d s) {r} h =
    let same : c ≡ d = Char-path c d (ground arith) in
    cc (same, strip_lem p s {r = r} (ground arith), cons-append c p r)

unfoldable pub is_absolute : String → Bool
is_absolute String.[] = false
is_absolute (String.◌∷◌ c s) = code c == b'/'

-- `root / path`
unfoldable pub child_path : String → String → String
child_path root path =
    if is_absolute path
    then path
    else if str_eq path "." || str_eq path ""
    then root
    else root ++ ("/" ++ path)

-- A part that is left over when the root is taken off.
proper : Option String → Option String
proper none = none
proper (some r) = if is_absolute r || (str_eq r "." || str_eq r "") then none else some r

-- `path.relative_to(root).as_posix()`
unfoldable pub relative_to : String → String → Option String
unfolding strip proper
relative_to path root = if str_eq path root then some "." else proper (strip (root ++ "/") path)

proper_lem :
    (m : Option String) {r : String}
    → proper m ≡ some r
    → (m ≡ some r) × (is_absolute r ≡ false) × (str_eq r "." ≡ false) × (str_eq r "" ≡ false)
unfolding proper
proper_lem none h = cc
proper_lem (some q) h = ground arith

-- What is relative to a root leads from the root back to the path.
pub relative_to_lem :
    (path root : String) {r : String} → relative_to path root ≡ some r → child_path root r ≡ path
unfolding relative_to child_path is_absolute
relative_to_lem path root {r} h = elim (Bool-cases (str_eq path root)) [
  | inl e ↦ rw (← here e) (sym ((str_eq_iff path root).0 e))
  | inr e ↦
      let (s, a, d, n) = proper_lem (strip (root ++ "/") path) {r = r} (there e) in
      rw (a, d, n) (sym (strip_lem (root ++ "/") path s ∙ append_assoc root "/" r))
]
  where
    here : str_eq path root ≡ true → "." ≡ r
    here e = ground arith

    there : str_eq path root ≡ false → proper (strip (root ++ "/") path) ≡ some r
    there e = ground arith
