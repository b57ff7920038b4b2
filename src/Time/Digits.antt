-- ===== src/Time/Digits.antt =====
-- Digits of a fixed width, written and read.
use Prim.Native.Nat.pow
use self_improving_trading_s.Prelude.{
  ℕ, zero, suc, ◌+◌, ◌*◌, ◌/◌, ◌%◌, ◌^◌, ◌<◌, ◌≡◌, refl, ap, ◌∙◌, arith, some, List, [], ◌∷◌, ◌++◌,
  map, All, length, power_pos,
}
use self_improving_trading_s.Time.Rfc3339.{digit_of, decimal_digit, read_digits, padded_value}
use self_improving_trading_s.Time.Printed.{fixed}

digit_of-add : (d : ℕ) (zs : List ℕ) → d < 10 → digit_of (b'0' + d) (b'0' ∷ zs) ≡ some d
unfolding digit_of
digit_of-add d zs h = ground arith

pub decimal_digit-add : (d : ℕ) → d < 10 → decimal_digit (b'0' + d) ≡ some d
unfolding decimal_digit
decimal_digit-add d h = digit_of-add d _ h

power_split :
    (p n : ℕ) → 0 < p → n < 10 * p → (n / p < 10) × (n % p < p) × (p * (n / p) + n % p ≡ n)
power_split p n positive h = (grind arith, grind arith, grind arith)

digit_value : (acc d p r n : ℕ) → p * d + r ≡ n → (acc * 10 + d) * p + r ≡ acc * (10 * p) + n
digit_value acc d p r n e = grind arith

-- Digits of a fixed width are read back.
pub read_digits-fixed :
    (w acc n : ℕ) (rest : List ℕ)
    → n < 10 ^ w
    → read_digits w acc (fixed w n ++ rest) ≡ some (acc * 10 ^ w + n, rest)
unfolding read_digits fixed
read_digits-fixed zero acc n rest h = ap (λ (k : ℕ). some (k, rest)) (omega (arith, pow.zero 10))
read_digits-fixed (suc w) acc n rest h =
    let p = 10 ^ w in
    let (lt, short, sum) = power_split p n (power_pos w) (omega (arith, pow.suc 10 w)) in
    rw (decimal_digit-add (n / p) lt) (
      read_digits-fixed w (acc * 10 + n / p) (n % p) rest short
      ∙ ap (λ (k : ℕ). some (k, rest))
          (digit_value acc (n / p) p (n % p) n sum
            ∙ ap (λ q. acc * q + n) (omega (arith, pow.suc 10 w))))

pub read_fixed :
    (w n : ℕ) (rest : List ℕ) → n < 10 ^ w → read_digits w 0 (fixed w n ++ rest) ≡ some (n, rest)
read_fixed w n rest h =
    read_digits-fixed w 0 n rest h ∙ ap (λ (k : ℕ). some (k, rest)) (grind arith)

abbrev pub digit_char : ℕ → ℕ
digit_char d = b'0' + d

unfoldable pub write_fraction : List ℕ → List ℕ
write_fraction [] = []
write_fraction (d ∷ ds) = b'.' ∷ map digit_char (d ∷ ds)

digit_values : ℕ → ℕ → List ℕ
digit_values zero n = []
digit_values (suc width) n = (n / 10 ^ width) ∷ digit_values width (n % 10 ^ width)

-- The digits of a number of a fixed width, as a fraction of that width.
record AreDigits (w n : ℕ) (ds : List ℕ) : Type 0 where
  shown : fixed w n ≡ map digit_char ds
  small : All (λ d. d < 10) ds
  wide : length ds ≡ w
  valued : (acc : ℕ) → padded_value w acc ds ≡ acc * 10 ^ w + n

digit_values-AreDigits : (w n : ℕ) → n < 10 ^ w → AreDigits w n (digit_values w n)
unfolding digit_values fixed padded_value
digit_values-AreDigits zero n h = record {
  shown = refl;
  small = tt;
  wide = refl;
  valued = λ acc. omega (arith, pow.zero 10);
}
digit_values-AreDigits (suc w) n h =
    let p = 10 ^ w in
    let (lt, below, sum) = power_split p n (power_pos w) (omega (arith, pow.suc 10 w)) in
    let ih = digit_values-AreDigits w (n % p) below in
    record {
      shown = ap (λ cs. (b'0' + n / p) ∷ cs) ih.shown;
      small = (lt, ih.small);
      wide = ap suc ih.wide;
      valued = λ acc.
          ih.valued (acc * 10 + n / p)
          ∙ (digit_value acc (n / p) p (n % p) n sum
              ∙ ap (λ q. acc * q + n) (omega (arith, pow.suc 10 w)));
    }

-- A number of nine digits is written and read as a fraction.
pub nine_digits :
    (n : ℕ)
    → n < 10 ^ 9
    → (ds : List ℕ) × (b'.' ∷ fixed 9 n ≡ write_fraction ds)
      × All (λ d. d < 10) ds
      × (length ds ≡ 9)
      × (padded_value 9 0 ds ≡ n)
unfolding write_fraction digit_values
nine_digits n h =
    let known = digit_values-AreDigits 9 n h in
    (
      digit_values 9 n,
      ap (λ cs. b'.' ∷ cs) known.shown,
      known.small,
      known.wide,
      known.valued 0 ∙ omega arith,
    )
