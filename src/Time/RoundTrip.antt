-- ===== src/Time/RoundTrip.antt =====
-- A printed instant is parsed again, and the offset of a text shifts its instant.
use self_improving_trading_s.Prelude.{
  ℕ, zero, suc, [], inl, inr, ◌+◌, ◌*◌, ◌^◌, ◌<◌, ◌≡◌, ◌⊎◌, sym, ap, ◌∙◌, arith, List, ◌∷◌, All,
  length, ℤ, pos, negsuc, pos_part, neg_part, ◌+ℤ◌, ◌-ℤ◌, ◌*ℤ◌, ◌≤ℤ◌, ◌<ℤ◌, floor_div, floor_mod,
  int_laws, ltb, true,
}
use self_improving_trading_s.Errors.{
  Error, Result, ok, err, ok-injective, value_error, Result-cases,
}
use self_improving_trading_s.Calendar.{StructTime, timegm, gmtime}
use self_improving_trading_s.Calendar.Civil.{floor_div_mod, IsSplit, gmtime-IsSplit}
use self_improving_trading_s.Time.{ns_per_second, ns_per_minute, ns_per_hour}
use self_improving_trading_s.Time.Rfc3339.{
  Zone, zulu, ahead, behind, Parts, zone_shift, total_ns, instant_of, parse_rfc3339_ns,
  padded_value,
}
use self_improving_trading_s.Time.Printed.{fixed, padded, padded_int, format_parts, format_ns}
use self_improving_trading_s.Time.Digits.{write_fraction, nine_digits}
use self_improving_trading_s.Time.Matched.{write_zone, IsZone, written, IsWritable, match-written}

-- The nanoseconds that the digits of a fraction are worth: the first one 10^(width - 1), each further
-- one a tenth of the digit before it.
abbrev pub digits_worth : ℕ → List ℕ → ℕ
digits_worth zero ds = 0
digits_worth (suc width) [] = 0
digits_worth (suc width) (d ∷ ds) = d * 10 ^ width + digits_worth width ds

-- By how many nanoseconds the clocks of a zone are ahead of UTC.
abbrev pub offset_ns : Zone → ℤ
offset_ns zulu = pos 0
offset_ns (ahead oh om) = pos ((60 * oh + om) * 60_000_000_000)
offset_ns (behind oh om) = pos 0 -ℤ pos ((60 * oh + om) * 60_000_000_000)

tenfold : (v p q : ℕ) → q ≡ p * 10 → v * 10 * p ≡ v * q
tenfold v p q h = rw h (omega arith)

place : (v d p q r : ℕ) → q ≡ p * 10 → (v * 10 + d) * p + r ≡ v * q + (d * p + r)
place v d p q r h = rw h (omega arith)

padded_value-nothing : (width value : ℕ) → padded_value width value [] ≡ value * 10 ^ width
unfolding padded_value
padded_value-nothing zero value = omega arith
padded_value-nothing (suc width) value =
    padded_value-nothing width (value * 10)
    ∙ tenfold value (10 ^ width) (10 ^ suc width) (omega arith)

padded_value-digits :
    (width value : ℕ) (ds : List ℕ)
    → padded_value width value ds ≡ value * 10 ^ width + digits_worth width ds
unfolding padded_value
padded_value-digits zero value ds = omega arith
padded_value-digits (suc width) value [] =
    padded_value-nothing width (value * 10)
    ∙ (tenfold value (10 ^ width) (10 ^ suc width) (omega arith) ∙ omega arith)
padded_value-digits (suc width) value (d ∷ ds) =
    padded_value-digits width (value * 10 + d) ds
    ∙ place value d (10 ^ width) (10 ^ suc width) (digits_worth width ds) (omega arith)

less : (a b : ℤ) → a +ℤ (pos 0 -ℤ b) ≡ a -ℤ b
less a b = omega int_laws

more : (a b : ℤ) → a +ℤ b ≡ a -ℤ (pos 0 -ℤ b)
more a b = omega int_laws

in_minutes : (oh om : ℕ) → oh * ns_per_hour + om * ns_per_minute ≡ (60 * oh + om) * 60_000_000_000
in_minutes oh om = omega arith

zone_shift-offset : (a : ℤ) (z : Zone) → a +ℤ zone_shift z ≡ a -ℤ offset_ns z
unfolding zone_shift
zone_shift-offset a zulu = omega int_laws
zone_shift-offset a (ahead oh om) = less a _ ∙ ap (λ (n : ℕ). a -ℤ pos n) (in_minutes oh om)
zone_shift-offset a (behind oh om) =
    more a _ ∙ ap (λ (n : ℕ). a -ℤ (pos 0 -ℤ pos n)) (in_minutes oh om)

-- What is made of the parts of a text.
parse-parts :
    (p : Parts)
    → IsWritable p
    → parse_rfc3339_ns (written p)
      ≡ total_ns p (timegm p.year p.month p.day p.hour p.minute p.second)
unfolding parse_rfc3339_ns instant_of
parse-parts p w = rw (match-written p w)

total_ns-ok :
    (p : Parts) (s : ℤ)
    → total_ns p (ok s)
      ≡ ok (s *ℤ pos 1_000_000_000 +ℤ pos (digits_worth 9 p.fraction) -ℤ offset_ns p.zone)
unfolding total_ns
total_ns-ok p s = ap ok (
    zone_shift-offset _ p.zone
    ∙ ap (λ (n : ℕ). s *ℤ pos 1_000_000_000 +ℤ pos n -ℤ offset_ns p.zone)
        (padded_value-digits 9 0 p.fraction ∙ omega arith))

-- A text in the form of an RFC 3339 timestamp, of a fraction of up to nine digits and whichever two
-- digits the day and the time of day have, is parsed to the seconds that `timegm` makes of its six
-- numbers, with the nanoseconds that the digits of the fraction are worth, less the offset by which its
-- zone is ahead of UTC; what `timegm` raises is raised.
pub parse-written :
    (p : Parts)
    → IsWritable p
    → ((e : Error) × (timegm p.year p.month p.day p.hour p.minute p.second ≡ err e)
        × (parse_rfc3339_ns (written p) ≡ err e))
      ⊎ ((s : ℤ) × (timegm p.year p.month p.day p.hour p.minute p.second ≡ ok s)
          × (parse_rfc3339_ns (written p)
              ≡ ok (s *ℤ pos 1_000_000_000 +ℤ pos (digits_worth 9 p.fraction) -ℤ offset_ns p.zone)))
unfolding total_ns
parse-written p w = elim (Result-cases (timegm p.year p.month p.day p.hour p.minute p.second)) [
  | inl (e, raised) ↦ inl (e, raised, parse-parts p w ∙ ap (total_ns p) raised)
  | inr (s, returned) ↦
      inr (s, returned, parse-parts p w ∙ (ap (total_ns p) returned ∙ total_ns-ok p s))
]

timegm_refused :
    (y m d h mi s : ℕ) → (y ≡ 0) ⊎ ((m ≡ 0) ⊎ (12 < m)) → timegm y m d h mi s ≡ err value_error
unfolding timegm
timegm_refused y m d h mi s bad = ground arith

-- In such a text a month that is not one of the twelve, or the year 0, raises a ValueError, which is
-- no TimestampError.
pub month_refused :
    (p : Parts)
    → IsWritable p
    → (p.year ≡ 0) ⊎ ((p.month ≡ 0) ⊎ (12 < p.month))
    → parse_rfc3339_ns (written p) ≡ err value_error
unfolding total_ns
month_refused p w bad =
    parse-parts p w
    ∙ ap (total_ns p) (timegm_refused p.year p.month p.day p.hour p.minute p.second bad)

shifted :
    (p : Parts) (t : Result ℤ) (v : ℤ) (oh om : ℕ)
    → total_ns (record p { zone = zulu }) t ≡ ok v
    → let shift = pos (oh * ns_per_hour + om * ns_per_minute) in
      (total_ns (record p { zone = ahead oh om }) t ≡ ok (v -ℤ shift))
      × (total_ns (record p { zone = behind oh om }) t ≡ ok (v +ℤ shift))
unfolding total_ns zone_shift
shifted p (err e) v oh om h = cc
shifted p (ok s) v oh om h =
    let e = ok-injective h in
    (
      ap ok (omega (int_laws, ap pos_part e, ap neg_part e)),
      ap ok (omega (int_laws, ap pos_part e, ap neg_part e)),
    )

-- An offset ahead of UTC makes the instant that much earlier, and one behind it that much later, than
-- the same text with a Z.
pub parse_offset :
    (p : Parts) (v : ℤ) (oh om : ℕ)
    → IsWritable p
    → oh < 100
    → om < 100
    → parse_rfc3339_ns (written (record p { zone = zulu })) ≡ ok v
    → let shift = pos (oh * ns_per_hour + om * ns_per_minute) in
      (parse_rfc3339_ns (written (record p { zone = ahead oh om })) ≡ ok (v -ℤ shift))
      × (parse_rfc3339_ns (written (record p { zone = behind oh om })) ≡ ok (v +ℤ shift))
parse_offset p v oh om w h k parsed =
    let t = timegm p.year p.month p.day p.hour p.minute p.second in
    let (sooner, later) =
      shifted p t v oh om (sym (parse-parts (in_zone zulu) (writable zulu tt)) ∙ parsed) in
    (
      parse-parts (in_zone (ahead oh om)) (writable (ahead oh om) (h, k)) ∙ sooner,
      parse-parts (in_zone (behind oh om)) (writable (behind oh om) (h, k)) ∙ later,
    )
  where
    in_zone : Zone → Parts
    in_zone z = record p { zone = z }

    writable : (z : Zone) → IsZone z → IsWritable (record p { zone = z })
    writable z known = record {
      year_in = w.year_in;
      month_in = w.month_in;
      day_in = w.day_in;
      hour_in = w.hour_in;
      minute_in = w.minute_in;
      second_in = w.second_in;
      digits = w.digits;
      short = w.short;
      zone_in = known;
    }

padded-fixed : (w n : ℕ) → n < 10 ^ w → padded w n ≡ fixed w n
unfolding padded
padded-fixed w n h = rw (below (10 ^ w) n h)
  where
    below : (p n : ℕ) → n < p → ltb n p ≡ true
    below p n h = ground arith

-- The fields of an instant, as those of a text.
abbrev printed_parts : StructTime → ℕ → List ℕ → Parts
printed_parts t year ds = record {
  year = year;
  month = t.tm_mon;
  day = t.tm_mday;
  hour = t.tm_hour;
  minute = t.tm_min;
  second = t.tm_sec;
  fraction = ds;
  zone = zulu;
}

format_parts-written :
    (s : ℤ) (t : StructTime) (year nanos : ℕ) (ds : List ℕ)
    → IsSplit s t year
    → nanos < 10 ^ 9
    → b'.' ∷ fixed 9 nanos ≡ write_fraction ds
    → format_parts t nanos ≡ written (printed_parts t year ds)
unfolding format_parts written padded_int write_zone
format_parts-written s t year nanos ds split h shown = rw (
  split.year_is,
  padded-fixed 4 year split.year_in.1,
  padded-fixed 2 t.tm_mon (omega (arith, split.month_in)),
  padded-fixed 2 t.tm_mday (omega (arith, split.day_in)),
  padded-fixed 2 t.tm_hour (omega (arith, split.hour_in)),
  padded-fixed 2 t.tm_min (omega (arith, split.minute_in)),
  padded-fixed 2 t.tm_sec (omega (arith, split.second_in)),
  padded-fixed 9 nanos h,
  ← shown,
)

seconds_in :
    (v : ℤ)
    → negsuc 62_135_596_799_999_999_999 ≤ℤ v
    → v <ℤ pos 253_402_300_800_000_000_000
    → let s = floor_div v ns_per_second in (negsuc 62_135_596_799 ≤ℤ s) × (s <ℤ pos 253_402_300_800)
unfolding floor_div
seconds_in (pos a) lo hi = (omega arith, omega arith)
seconds_in (negsuc a) lo hi = (omega arith, omega arith)

add_nothing : (a : ℤ) → a +ℤ pos 0 ≡ a
add_nothing a = omega int_laws

-- An instant of the years 1 to 9999 is printed as a text that is parsed to the instant again.
pub parse-format :
    (v : ℤ)
    → negsuc 62_135_596_799_999_999_999 ≤ℤ v
    → v <ℤ pos 253_402_300_800_000_000_000
    → parse_rfc3339_ns (format_ns v) ≡ ok v
unfolding format_ns total_ns zone_shift
parse-format v lo hi =
    let s = floor_div v ns_per_second in
    let nanos = floor_mod v ns_per_second in
    let t = gmtime s in
    let (low, high) = seconds_in v lo hi in
    let (year, split) = gmtime-IsSplit s low high in
    let (sum, rest) = floor_div_mod v ns_per_second (omega arith) in
    let (ds, shown, small, wide, valued) = nine_digits nanos rest in
    ap parse_rfc3339_ns (format_parts-written s t year nanos ds split rest shown)
    ∙ (parse-parts (printed_parts t year ds) (writable s t year ds split small wide)
        ∙ (ap (total_ns (printed_parts t year ds)) split.back
            ∙ ap ok
                (add_nothing _ ∙ (ap (λ (k : ℕ). s *ℤ pos ns_per_second +ℤ pos k) valued ∙ sum))))
  where
    writable :
        (s : ℤ) (t : StructTime) (year : ℕ) (ds : List ℕ)
        → IsSplit s t year
        → All (λ (d : ℕ). d < 10) ds
        → length ds ≡ 9
        → IsWritable (printed_parts t year ds)
    writable s t year ds split small wide = record {
      year_in = split.year_in.1;
      month_in = omega (arith, split.month_in);
      day_in = omega (arith, split.day_in);
      hour_in = omega (arith, split.hour_in);
      minute_in = omega (arith, split.minute_in);
      second_in = omega (arith, split.second_in);
      digits = small;
      short = omega (arith, wide);
      zone_in = tt;
    }
