-- ===== src/Examples/Instants.antt =====
-- Instants: parsing and printing at concrete texts.
use self_improving_trading_s.Prelude.{
  ℤ, ◌⊎◌, ◌≡◌, refl, [], ◌∷◌, codes, pos, negsuc, ◌+ℤ◌, ◌-ℤ◌, ◌*ℤ◌, floor_div, floor_mod, arith,
}
use self_improving_trading_s.Errors.{Error, ok, err, timestamp_error}
use self_improving_trading_s.Calendar.{
  timegm, gmtime, day_of_year, days_before_month, days_before_year, month_and_day, struct_time,
  toordinal, year_in_cycle,
}
use self_improving_trading_s.Time.Rfc3339.{
  Parts, ahead, decimal_digit, digit_of, instant_of, is_end, match_rfc3339, padded_value,
  parse_rfc3339_ns, read_digits, read_fraction, read_offset, read_one, read_zone, take_digits,
  total_ns, zone_shift, zulu,
}
use self_improving_trading_s.Time.Digits.{write_fraction}
use self_improving_trading_s.Time.Matched.{write_zone, written, IsWritable}
use self_improving_trading_s.Time.RoundTrip.{parse-written, parse-format}
use self_improving_trading_s.Time.Printed.{fixed, format_ns, format_parts, padded, padded_int}

parse_offset_run :
    parse_rfc3339_ns (codes "2026-09-19T13:30:00.5+05:30") ≡ ok (pos 1_789_804_800_500_000_000)
unfolding parse_rfc3339_ns decimal_digit timegm ◌+ℤ◌ ◌*ℤ◌ ◌-ℤ◌ toordinal days_before_year
    days_before_month instant_of match_rfc3339 read_digits digit_of read_one read_zone read_fraction
    take_digits read_offset is_end total_ns padded_value zone_shift
parse_offset_run = refl

-- The day, the hour, the minute and the second are not checked.
parse_no_such_day_run :
    parse_rfc3339_ns (codes "2026-02-31T25:61:61Z") ≡ ok (pos 1_772_589_721_000_000_000)
unfolding parse_rfc3339_ns decimal_digit timegm toordinal days_before_month days_before_year ◌-ℤ◌
    ◌*ℤ◌ ◌+ℤ◌ instant_of match_rfc3339 read_digits digit_of read_one read_zone read_fraction is_end
    total_ns padded_value zone_shift
parse_no_such_day_run = refl

parse_no_offset_run : parse_rfc3339_ns (codes "2026-09-19T13:30:00.5") ≡ err timestamp_error
unfolding parse_rfc3339_ns decimal_digit instant_of match_rfc3339 read_digits digit_of read_one
    read_zone read_fraction take_digits
parse_no_offset_run = refl

parse_no_digits_run : parse_rfc3339_ns (codes "2026-09-19T13:30:00.Z") ≡ err timestamp_error
unfolding parse_rfc3339_ns decimal_digit instant_of match_rfc3339 read_digits digit_of read_one
    read_zone read_fraction take_digits
parse_no_digits_run = refl

format_run : format_ns (pos 1_789_804_800_500_000_000) ≡ codes "2026-09-19T08:00:00.500000000Z"
unfolding format_ns gmtime struct_time ◌+ℤ◌ ◌*ℤ◌ floor_div year_in_cycle floor_mod day_of_year
    month_and_day format_parts padded_int padded
format_run = refl

format_before_epoch_run : format_ns (negsuc 0) ≡ codes "1969-12-31T23:59:59.999999999Z"
unfolding format_ns gmtime struct_time ◌+ℤ◌ ◌*ℤ◌ floor_div year_in_cycle floor_mod day_of_year
    month_and_day format_parts padded_int padded
format_before_epoch_run = refl

format_last_run :
    format_ns (pos 253_402_300_799_999_999_999) ≡ codes "9999-12-31T23:59:59.999999999Z"
unfolding format_ns gmtime struct_time ◌+ℤ◌ ◌*ℤ◌ floor_div year_in_cycle floor_mod day_of_year
    month_and_day format_parts padded_int padded
format_last_run = refl

-- A date that does not exist, with an offset.
abbrev strange : Parts
strange = record {
  year = 2026;
  month = 2;
  day = 31;
  hour = 25;
  minute = 61;
  second = 61;
  fraction = 5 ∷ [];
  zone = ahead 5 30;
}

strange-IsWritable : IsWritable strange
strange-IsWritable = record {
  year_in = omega arith;
  month_in = omega arith;
  day_in = omega arith;
  hour_in = omega arith;
  minute_in = omega arith;
  second_in = omega arith;
  digits = omega arith;
  short = omega arith;
  zone_in = omega arith;
}

parse-written_example :
    ((e : Error) × (timegm 2026 2 31 25 61 61 ≡ err e)
      × (parse_rfc3339_ns (written strange) ≡ err e))
    ⊎ ((s : ℤ) × (timegm 2026 2 31 25 61 61 ≡ ok s)
        × (parse_rfc3339_ns (written strange)
            ≡ ok (s *ℤ pos 1_000_000_000 +ℤ pos 500_000_000 -ℤ pos 19_800_000_000_000)))
parse-written_example = parse-written strange strange-IsWritable

parse-format_example :
    parse_rfc3339_ns (format_ns (pos 1_789_804_800_500_000_000))
    ≡ ok (pos 1_789_804_800_500_000_000)
parse-format_example = parse-format (pos 1_789_804_800_500_000_000) (omega arith) (omega arith)

abbrev no_month : Parts
no_month = record strange { month = 13 }

no_month-IsWritable : IsWritable no_month
no_month-IsWritable = record {
  year_in = omega arith;
  month_in = omega arith;
  day_in = omega arith;
  hour_in = omega arith;
  minute_in = omega arith;
  second_in = omega arith;
  digits = omega arith;
  short = omega arith;
  zone_in = omega arith;
}

strange_parsed :
    parse_rfc3339_ns (written (record strange { zone = zulu })) ≡ ok (pos 1_772_589_721_500_000_000)
unfolding parse_rfc3339_ns decimal_digit timegm toordinal days_before_month days_before_year ◌-ℤ◌
    ◌*ℤ◌ ◌+ℤ◌ instant_of match_rfc3339 read_digits digit_of read_one read_zone read_fraction
    take_digits is_end total_ns padded_value zone_shift written fixed write_fraction write_zone
strange_parsed = refl
