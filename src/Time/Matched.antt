-- ===== src/Time/Matched.antt =====
-- What the parser reads of a text that has the form of `_RFC3339`.
use self_improving_trading_s.Prelude.{
  ℕ, zero, suc, ◌≤◌, ◌<◌, ◌≡◌, ◌≢◌, refl, arith, none, some, List, [], ◌∷◌, ◌++◌, map, All, length,
}
use self_improving_trading_s.Time.Rfc3339.{
  digit_of, decimal_digit, read_one, take_digits, read_fraction, Zone, zulu, ahead, behind,
  read_offset, read_zone, is_end, Parts, match_rfc3339,
}
use self_improving_trading_s.Time.Printed.{fixed}
use self_improving_trading_s.Time.Digits.{decimal_digit-add, read_fixed, digit_char, write_fraction}

-- A text that the longest match of digits stops at.
abbrev StopsDigits : List ℕ → Type 0
StopsDigits [] = Unit
StopsDigits (c ∷ cs) = decimal_digit c ≡ none

take_digits-map :
    (most : ℕ) (ds rest : List ℕ)
    → All (λ d. d < 10) ds
    → length ds ≤ most
    → StopsDigits rest
    → take_digits most (map digit_char ds ++ rest) ≡ (ds, rest)
unfolding take_digits
take_digits-map zero [] rest small short stop = refl
take_digits-map zero (d ∷ ds) rest small short stop = absurd (omega arith)
take_digits-map (suc most) [] [] small short stop = refl
take_digits-map (suc most) [] (c ∷ rest) small short stop = rw stop
take_digits-map (suc most) (d ∷ ds) rest (lt, small) short stop =
    rw (decimal_digit-add d lt, take_digits-map most ds rest small (omega arith) stop)

read_fraction-write :
    (ds : List ℕ) (c : ℕ) (rest : List ℕ)
    → All (λ d. d < 10) ds
    → length ds ≤ 9
    → c ≢ b'.'
    → decimal_digit c ≡ none
    → read_fraction (write_fraction ds ++ (c ∷ rest)) ≡ (ds, c ∷ rest)
unfolding read_fraction write_fraction
read_fraction-write [] c rest small short dot stop = ground arith
read_fraction-write (d ∷ ds) c rest small short dot stop =
    rw (take_digits-map 9 (d ∷ ds) (c ∷ rest) small short stop)

unfoldable pub write_zone : Zone → List ℕ
write_zone zulu = b'Z' ∷ []
write_zone (ahead oh om) = b'+' ∷ (fixed 2 oh ++ (b':' ∷ (fixed 2 om ++ [])))
write_zone (behind oh om) = b'-' ∷ (fixed 2 oh ++ (b':' ∷ (fixed 2 om ++ [])))

abbrev pub IsZone : Zone → Type 0
IsZone zulu = Unit
IsZone (ahead oh om) = (oh < 100) × (om < 100)
IsZone (behind oh om) = (oh < 100) × (om < 100)

read_offset-fixed :
    (sign : ℕ → ℕ → Zone) (oh om : ℕ)
    → oh < 100
    → om < 100
    → read_offset sign (fixed 2 oh ++ (b':' ∷ (fixed 2 om ++ []))) ≡ some (sign oh om, [])
unfolding read_offset read_one
read_offset-fixed sign oh om h k =
    rw (read_fixed 2 oh (b':' ∷ (fixed 2 om ++ [])) h, read_fixed 2 om [] k)

read_zone-write : (z : Zone) → IsZone z → read_zone (write_zone z) ≡ some (z, [])
unfolding read_zone write_zone
read_zone-write zulu h = refl
read_zone-write (ahead oh om) (h, k) = read_offset-fixed ahead oh om h k
read_zone-write (behind oh om) (h, k) = read_offset-fixed behind oh om h k

-- A text that `_RFC3339` matches: the fields, the fraction and the zone.
unfoldable pub written : Parts → List ℕ
written p =
    fixed 4 p.year
    ++ (b'-'
        ∷ (fixed 2 p.month
            ++ (b'-'
                ∷ (fixed 2 p.day
                    ++ (b'T'
                        ∷ (fixed 2 p.hour
                            ++ (b':'
                                ∷ (fixed 2 p.minute
                                    ++ (b':'
                                        ∷ (fixed 2 p.second
                                            ++ (write_fraction p.fraction
                                                ++ write_zone p.zone)))))))))))

-- The fields have the widths of the format.
pub record IsWritable (p : Parts) : Type 0 where
  pub year_in : p.year < 10000
  pub month_in : p.month < 100
  pub day_in : p.day < 100
  pub hour_in : p.hour < 100
  pub minute_in : p.minute < 100
  pub second_in : p.second < 100
  pub digits : All (λ d. d < 10) p.fraction
  pub short : length p.fraction ≤ 9
  pub zone_in : IsZone p.zone

marks_stop : (decimal_digit b'Z' ≡ none) × (decimal_digit b'+' ≡ none) × (decimal_digit b'-' ≡ none)
unfolding decimal_digit digit_of
marks_stop = (refl, refl, refl)

read_fraction-zone :
    (ds : List ℕ) (z : Zone)
    → All (λ d. d < 10) ds
    → length ds ≤ 9
    → read_fraction (write_fraction ds ++ write_zone z) ≡ (ds, write_zone z)
unfolding write_zone
read_fraction-zone ds zulu small short =
    read_fraction-write ds _ _ small short (omega arith) marks_stop.0
read_fraction-zone ds (ahead oh om) small short =
    read_fraction-write ds _ _ small short (omega arith) marks_stop.1
read_fraction-zone ds (behind oh om) small short =
    read_fraction-write ds _ _ small short (omega arith) marks_stop.2

pub match-written : (p : Parts) → IsWritable p → match_rfc3339 (written p) ≡ some p
unfolding match_rfc3339 written read_one is_end
match-written p w = rw (
  read_fixed 4 p.year _ w.year_in,
  read_fixed 2 p.month _ w.month_in,
  read_fixed 2 p.day _ w.day_in,
  read_fixed 2 p.hour _ w.hour_in,
  read_fixed 2 p.minute _ w.minute_in,
  read_fixed 2 p.second _ w.second_in,
  read_fraction-zone p.fraction p.zone w.digits w.short,
  read_zone-write p.zone w.zone_in,
)
