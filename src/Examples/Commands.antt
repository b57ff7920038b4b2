-- ===== src/Examples/Commands.antt =====
-- The commands on the raw partition of one trade and one quote.
use self_improving_trading_s.Prelude.{◌≡◌, ap, refl, ◌+ℤ◌, ◌*ℤ◌, ◌-ℤ◌, pos}
use self_improving_trading_s.Errors.{Result, ok, err, value_error}
use self_improving_trading_s.Effects.{◌>>=◌, lift}
use self_improving_trading_s.Calendar.{timegm, days_before_month, days_before_year, toordinal}
use self_improving_trading_s.Time.Rfc3339.{
  decimal_digit, digit_of, instant_of, is_end, match_rfc3339, padded_value, parse_rfc3339_ns,
  read_digits, read_fraction, read_one, read_zone, total_ns, zone_shift,
}
use self_improving_trading_s.Snapshot.{SnapshotManifest}
use self_improving_trading_s.Pipeline.{SnapshotResult}
use self_improving_trading_s.Command.{
  BuildArguments, provenance_of, context_of, options_of, snapshot_build, snapshot_verify,
}
use self_improving_trading_s.Command.Verified.{snapshot_build-verify}
use self_improving_trading_s.Examples.Tables.{memory, context}
use self_improving_trading_s.Examples.Stored.{Blob, of_table, of_text, of_manifest, memory_formats}
use self_improving_trading_s.Examples.Sessions.{
  builtins, documents, start, contracts, listing, options, json, outcome, result, run_returns,
  contracts-WellKept,
}

abbrev arguments : BuildArguments
arguments = record {
  raw = "/raw";
  reference = "/ref.json";
  out = "/out";
  receive_time = "2023-11-14T22:15:00Z";
  process_time = "2023-11-14T22:16:40Z";
  as_of = "2023-11-14T22:16:40Z";
  publication_lag_ns = pos 1_000_000;
  partition_id = "p";
  event_time_source = "exchange";
  venue_coverage = "iex_only";
  calendar_version = "xnys_1";
}

context_run : context_of arguments ≡ ok context
unfolding context_of provenance_of parse_rfc3339_ns decimal_digit timegm toordinal days_before_month
    days_before_year ◌-ℤ◌ ◌*ℤ◌ ◌+ℤ◌ instant_of match_rfc3339 read_digits digit_of read_one read_zone
    read_fraction is_end total_ns padded_value zone_shift
context_run = refl

options_run : options_of arguments ≡ ok options
unfolding options_of parse_rfc3339_ns decimal_digit timegm toordinal days_before_month
    days_before_year ◌-ℤ◌ ◌*ℤ◌ ◌+ℤ◌ instant_of match_rfc3339 read_digits digit_of read_one read_zone
    read_fraction is_end total_ns padded_value zone_shift
options_run = refl

abbrev validate : Blob → Result SnapshotManifest
validate (of_manifest m) = ok m
validate (of_text s) = err value_error
validate (of_table t) = err value_error

build_run :
    snapshot_build memory memory_formats contracts documents builtins json listing arguments start
    ≡ (ok result, outcome.1)
unfolding snapshot_build ◌>>=◌ lift
build_run =
    rw (context_run, options_run) (ap (λ (r : Result SnapshotResult). (r, outcome.1)) run_returns)

snapshot_build-verify_example :
    snapshot_verify memory memory_formats contracts validate "/out" outcome.1 ≡ ok 0
snapshot_build-verify_example =
    snapshot_build-verify memory memory_formats contracts documents builtins json validate listing
      arguments start contracts-WellKept (λ m. refl) build_run
