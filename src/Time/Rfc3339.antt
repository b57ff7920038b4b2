-- ===== src/Time/Rfc3339.antt =====
-- packages/schemas/src/trading/schemas/time.py: parsing instants, over the code points of
-- a text. The regular expression is not backtracked, since a digit is neither the letter nor the sign that
-- follows the fraction. `\d` is a decimal digit of Unicode 15, and `$` stands before a last newline, too.
use self_improving_trading_s.Prelude.{
  ℕ, zero, suc, ◌+◌, ◌-◌, ◌*◌, Bool, true, false, ◌&&◌, ◌||◌, if◌then◌else◌, ltb, leb, ◌==◌, Option,
  none, some, List, [], ◌∷◌, ℤ, pos, ◌+ℤ◌, ◌-ℤ◌, ◌*ℤ◌,
}
use self_improving_trading_s.Errors.{Result, ok, err, timestamp_error}
use self_improving_trading_s.Calendar.{timegm}
use self_improving_trading_s.Time.{ns_per_second, ns_per_minute, ns_per_hour}

-- The zeros of the decimal digits, each of which its nine other digits follow.
abbrev pub zeros : List ℕ
zeros =
    0x30 ∷ 0x660 ∷ 0x6f0 ∷ 0x7c0 ∷ 0x966 ∷ 0x9e6 ∷ 0xa66 ∷ 0xae6 ∷ 0xb66 ∷ 0xbe6 ∷ 0xc66 ∷ 0xce6
    ∷ 0xd66 ∷ 0xde6 ∷ 0xe50 ∷ 0xed0 ∷ 0xf20 ∷ 0x1040 ∷ 0x1090 ∷ 0x17e0 ∷ 0x1810 ∷ 0x1946 ∷ 0x19d0
    ∷ 0x1a80 ∷ 0x1a90 ∷ 0x1b50 ∷ 0x1bb0 ∷ 0x1c40 ∷ 0x1c50 ∷ 0xa620 ∷ 0xa8d0 ∷ 0xa900 ∷ 0xa9d0
    ∷ 0xa9f0 ∷ 0xaa50 ∷ 0xabf0 ∷ 0xff10 ∷ 0x104a0 ∷ 0x10d30 ∷ 0x11066 ∷ 0x110f0 ∷ 0x11136 ∷ 0x111d0
    ∷ 0x112f0 ∷ 0x11450 ∷ 0x114d0 ∷ 0x11650 ∷ 0x116c0 ∷ 0x11730 ∷ 0x118e0 ∷ 0x11950 ∷ 0x11c50
    ∷ 0x11d50 ∷ 0x11da0 ∷ 0x11f50 ∷ 0x16a60 ∷ 0x16ac0 ∷ 0x16b50 ∷ 0x1d7ce ∷ 0x1d7d8 ∷ 0x1d7e2
    ∷ 0x1d7ec ∷ 0x1d7f6 ∷ 0x1e140 ∷ 0x1e2f0 ∷ 0x1e4f0 ∷ 0x1e950 ∷ 0x1fbf0 ∷ []

unfoldable pub digit_of : ℕ → List ℕ → Option ℕ
digit_of c [] = none
digit_of c (z ∷ zs) = if leb z c && ltb c (z + 10) then some (c - z) else digit_of c zs

-- The value of a character that `\d` matches.
unfoldable pub decimal_digit : ℕ → Option ℕ
decimal_digit c = digit_of c zeros

infixl 5 ◌>>=◌
abbrev pub ◌>>=◌ {ℓ μ} : {A : Type ℓ} {B : Type μ} → Option A → (A → Option B) → Option B
none >>= next = none
some a >>= next = next a

-- `int` of the digits that `\d{width}` matches, from a value on, and the text after them.
unfoldable pub read_digits : ℕ → ℕ → List ℕ → Option (ℕ × List ℕ)
read_digits zero value cs = some (value, cs)
read_digits (suc width) value [] = none
read_digits (suc width) value (c ∷ cs) =
    decimal_digit c >>= λ d. read_digits width (value * 10 + d) cs

-- One character of a class.
unfoldable pub read_one : (ℕ → Bool) → List ℕ → Option (List ℕ)
read_one test [] = none
read_one test (c ∷ cs) = if test c then some cs else none

prepend : Option ℕ → ℕ → List ℕ → List ℕ × List ℕ → List ℕ × List ℕ
prepend none c cs taken = ([], c ∷ cs)
prepend (some d) c cs (ds, rest) = (d ∷ ds, rest)

-- The longest match of `\d{0,most}`.
unfoldable pub take_digits : ℕ → List ℕ → List ℕ × List ℕ
unfolding prepend
take_digits zero cs = ([], cs)
take_digits (suc most) [] = ([], [])
take_digits (suc most) (c ∷ cs) = prepend (decimal_digit c) c cs (take_digits most cs)

some_digits : List ℕ → List ℕ × List ℕ → List ℕ × List ℕ
some_digits cs ([], rest) = ([], cs)
some_digits cs (d ∷ ds, rest) = (d ∷ ds, rest)

-- `(?:\.(?P<fraction>\d{1,9}))?`; a fraction that is absent has no digits.
unfoldable pub read_fraction : List ℕ → List ℕ × List ℕ
unfolding some_digits
read_fraction [] = ([], [])
read_fraction (c ∷ cs) = if c == b'.' then some_digits (c ∷ cs) (take_digits 9 cs) else ([], c ∷ cs)

-- `(?P<zulu>[Zz])|(?P<sign>[+-])(?P<oh>\d{2}):(?P<om>\d{2})`
pub data Zone : Type 0 where
  zulu : Zone
  ahead behind : ℕ → ℕ → Zone

unfoldable pub read_offset : (ℕ → ℕ → Zone) → List ℕ → Option (Zone × List ℕ)
read_offset sign cs = do
  (oh, cs) ← read_digits 2 0 cs
  cs ← read_one (λ c. c == b':') cs
  (om, cs) ← read_digits 2 0 cs
  some (sign oh om, cs)

unfoldable pub read_zone : List ℕ → Option (Zone × List ℕ)
read_zone [] = none
read_zone (c ∷ cs) =
    if (c == b'Z') || (c == b'z')
    then some (zulu, cs)
    else if c == b'+'
    then read_offset ahead cs
    else if c == b'-'
    then read_offset behind cs
    else none

-- `$`
unfoldable pub is_end : List ℕ → Bool
is_end [] = true
is_end (c ∷ []) = c == 10
is_end (c ∷ d ∷ cs) = false

-- The groups of a match.
pub record Parts : Type 0 where
  pub year : ℕ
  pub month : ℕ
  pub day : ℕ
  pub hour : ℕ
  pub minute : ℕ
  pub second : ℕ
  pub fraction : List ℕ
  pub zone : Zone

-- `_RFC3339.match(text)`
unfoldable pub match_rfc3339 : List ℕ → Option Parts
match_rfc3339 cs = do
  (year, cs) ← read_digits 4 0 cs
  cs ← read_one (λ c. c == b'-') cs
  (month, cs) ← read_digits 2 0 cs
  cs ← read_one (λ c. c == b'-') cs
  (day, cs) ← read_digits 2 0 cs
  cs ← read_one (λ c. (c == b'T') || (c == b't') || (c == b' ')) cs
  (hour, cs) ← read_digits 2 0 cs
  cs ← read_one (λ c. c == b':') cs
  (minute, cs) ← read_digits 2 0 cs
  cs ← read_one (λ c. c == b':') cs
  (second, cs) ← read_digits 2 0 cs
  let (fraction, after) = read_fraction cs
  (zone, cs) ← read_zone after
  if is_end cs
      then some (record {
        year = year;
        month = month;
        day = day;
        hour = hour;
        minute = minute;
        second = second;
        fraction = fraction;
        zone = zone;
      })
      else none

-- `int(fraction.ljust(width, "0"))`, from a value on
unfoldable pub padded_value : ℕ → ℕ → List ℕ → ℕ
padded_value zero value ds = value
padded_value (suc width) value [] = padded_value width (value * 10) []
padded_value (suc width) value (d ∷ ds) = padded_value width (value * 10 + d) ds

-- What the zone adds to the time of day to make it UTC.
unfoldable pub zone_shift : Zone → ℤ
zone_shift zulu = pos 0
zone_shift (ahead oh om) = pos 0 -ℤ pos (oh * ns_per_hour + om * ns_per_minute)
zone_shift (behind oh om) = pos (oh * ns_per_hour + om * ns_per_minute)

unfoldable pub total_ns : Parts → Result ℤ → Result ℤ
total_ns parts (err e) = err e
total_ns parts (ok seconds) =
    ok (
      seconds *ℤ pos ns_per_second
      +ℤ pos (padded_value 9 0 parts.fraction)
      +ℤ zone_shift parts.zone)

unfoldable pub instant_of : Option Parts → Result ℤ
instant_of none = err timestamp_error
instant_of (some parts) =
    total_ns parts (timegm parts.year parts.month parts.day parts.hour parts.minute parts.second)

-- Over the code points of the text.
unfoldable pub parse_rfc3339_ns : List ℕ → Result ℤ
parse_rfc3339_ns text = instant_of (match_rfc3339 text)
