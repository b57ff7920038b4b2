-- ===== src/Examples/Records.antt =====
-- Records of the vendor's and the files of a partition, at concrete values.
use self_improving_trading_s.Prelude.{
  ◌≡◌, refl, [], ◌∷◌, String, codes, pos, ◌++◌, swapped, All, ◌+ℤ◌, ◌*ℤ◌, ◌-ℤ◌,
}
use self_improving_trading_s.Errors.{Result, ok}
use self_improving_trading_s.Calendar.{timegm, days_before_month, days_before_year, toordinal}
use self_improving_trading_s.Time.Rfc3339.{
  decimal_digit, digit_of, instant_of, is_end, match_rfc3339, padded_value, parse_rfc3339_ns,
  read_digits, read_fraction, read_one, read_zone, total_ns, zone_shift,
}
use self_improving_trading_s.Vendor.{Json, Record, text, require_key, parse_trade}
use self_improving_trading_s.Vendor.Mapped.{
  trade_record, HasKey, trade_keys, HoldsNumber, HoldsTime, parse_trade-record, parse_trade_lem,
}
use self_improving_trading_s.Vendor.Files.{read_partition, read_partition-Reordered}
use self_improving_trading_s.Examples.Stored.{Blob, of_text}
use self_improving_trading_s.Storage.{Files, store}
use self_improving_trading_s.Examples.Sessions.{a_trade, builtins, documents, start, str_differ}

abbrev at : String
at = "2023-11-14T22:13:20Z"

at_is : parse_rfc3339_ns (codes at) ≡ ok (pos 1_700_000_000_000_000_000)
unfolding parse_rfc3339_ns decimal_digit timegm toordinal days_before_month days_before_year ◌-ℤ◌
    ◌*ℤ◌ ◌+ℤ◌ instant_of match_rfc3339 read_digits digit_of read_one read_zone read_fraction is_end
    total_ns padded_value zone_shift
at_is = refl

abbrev others : Record
others = ("T", text "t") ∷ []

parse_trade-record_example : parse_trade builtins (trade_record a_trade at ++ others) ≡ ok a_trade
parse_trade-record_example = parse_trade-record builtins a_trade at others at_is

parse_trade_lem_example :
    All (HasKey (trade_record a_trade at ++ others)) trade_keys
    × HoldsTime builtins (trade_record a_trade at ++ others) "t" (pos 1_700_000_000_000_000_000)
    × HoldsNumber (trade_record a_trade at ++ others) "p" a_trade.price
parse_trade_lem_example =
    parse_trade_lem builtins (trade_record a_trade at ++ others)
      (parse_trade-record builtins a_trade at others at_is)

abbrev two : Files Blob
two = store "/raw/1.ndjson" (of_text "quote") (store "/raw/0.ndjson" (of_text "trade") start)

abbrev symbol_of : Record → Result Json
symbol_of record_ = require_key record_ "S"

read_partition-Reordered_example :
    read_partition documents symbol_of ("/raw/1.ndjson" ∷ "/raw/0.ndjson" ∷ []) two
    ≡ read_partition documents symbol_of ("/raw/0.ndjson" ∷ "/raw/1.ndjson" ∷ []) two
read_partition-Reordered_example =
    read_partition-Reordered documents symbol_of two (swapped "/raw/1.ndjson" "/raw/0.ndjson" [])
      ((str_differ "/raw/1.ndjson" "/raw/0.ndjson" refl, tt), (tt, tt))
