-- ===== src/Examples/Sessions.antt =====
-- A raw partition of one trade and one quote, from its files to a sealed snapshot.
use self_improving_trading_s.Prelude.{
  ◌≡◌, ◌≢◌, refl, ap, true, false, Option, none, some, List, [], ◌∷◌, String, ℤ, pos, negsuc,
  if◌then◌else◌, str_eq, str_eq_iff,
}
use self_improving_trading_s.Errors.{Result, ok, err, value_error}
use self_improving_trading_s.Contracts.Market.{trade_contract, quote_contract, bar_contract}
use self_improving_trading_s.Storage.{Files, store}
use self_improving_trading_s.Registry.{Contracts}
use self_improving_trading_s.Registry.Registered.{WellKept}
use self_improving_trading_s.Vendor.{
  RawTrade, RawQuote, Json, int, bool, text, array, object, null, nil, cons, end, entry, Record,
  Builtins,
}
use self_improving_trading_s.Vendor.Mapped.{trade_record, quote_record}
use self_improving_trading_s.Vendor.Files.{Documents}
use self_improving_trading_s.Snapshot.{SnapshotManifest}
use self_improving_trading_s.Normalize.Partition.{RawListing}
use self_improving_trading_s.Bars.{one_minute_ns}
use self_improving_trading_s.Pipeline.{SnapshotResult, RunOptions, run}
use self_improving_trading_s.Pipeline.Sealed.{IsSealed, run-IsSealed}
use self_improving_trading_s.Examples.Tables.{memory, context, value_or}
use self_improving_trading_s.Examples.Stored.{
  Blob, of_table, of_text, of_manifest, memory_formats, no_files,
}

abbrev pub a_trade : RawTrade
a_trade = record {
  symbol = "META";
  event_time = pos 1_700_000_000_000_000_000;
  price = record { negative = false; coefficient = 10125; exponent = negsuc 1 };
  size = pos 100;
  exchange = "V";
  conditions = "@" ∷ [];
  trade_id = "1";
  tape = "C";
  vendor_sequence = pos 1;
}

abbrev pub a_quote : RawQuote
a_quote = record {
  symbol = "META";
  event_time = pos 1_700_000_000_000_000_000;
  bid_price = record { negative = false; coefficient = 10124; exponent = negsuc 1 };
  bid_size = pos 2;
  bid_exchange = "V";
  ask_price = record { negative = false; coefficient = 10126; exponent = negsuc 1 };
  ask_size = pos 3;
  ask_exchange = "V";
  conditions = "R" ∷ [];
  tape = "C";
  vendor_sequence = pos 2;
}

abbrev pub builtins : Builtins
builtins = record { repr = λ v. "?"; int_of_text = λ s. err value_error }

abbrev bundle : Json
bundle = object (
    entry "instrument"
      (object (
        entry "instrument_id" (int (pos 1)) (
          entry "primary_exchange" (text "XNAS")
            (entry "security_type" (text "equity") (entry "lot_size" (int (pos 100)) end)))))
      (entry "calendar"
        (object (
          entry "session_date" (text "2023-11-14") (
            entry "is_trading_day" (bool true) (
              entry "regular_open_ns" (int (pos 1_699_972_200_000_000_000)) (
                entry "regular_close_ns" (int (pos 1_699_995_600_000_000_000))
                  (entry "is_early_close" (bool false) end))))))
        (entry "ticker_history"
          (array (
            cons
              (object (
                entry "instrument_id" (int (pos 1)) (
                  entry "ticker" (text "META") (
                    entry "effective_time" (text "2022-06-09T00:00:00Z")
                      (entry "end_time" null end)))))
              nil))
          end)))

abbrev line_of : Blob → List String
line_of (of_text s) = s ∷ []
line_of (of_table t) = []
line_of (of_manifest m) = []

abbrev parsed : String → Option Record
parsed line =
    if str_eq line "trade"
    then some (trade_record a_trade "2023-11-14T22:13:20Z")
    else if str_eq line "quote"
    then some (quote_record a_quote "2023-11-14T22:13:20Z")
    else none

abbrev pub documents : Documents Blob
documents = record { lines = line_of; loads = parsed; document = λ content. ok bundle }

abbrev pub start : Files Blob
start = store "/raw/trades/000.ndjson" (of_text "trade") (
    store "/raw/quotes/000.ndjson" (of_text "quote")
      (store "/ref.json" (of_text "bundle") no_files))

abbrev pub contracts : Contracts
contracts =
    ("normalized.trade", trade_contract)
    ∷ ("normalized.quote", quote_contract)
    ∷ ("normalized.bar", bar_contract)
    ∷ []

abbrev pub listing : RawListing
listing = record { trades = "/raw/trades/000.ndjson" ∷ []; quotes = "/raw/quotes/000.ndjson" ∷ [] }

abbrev pub options : RunOptions
options = record {
  as_of = pos 1_700_000_200_000_000_000;
  window_ns = one_minute_ns;
  calendar_version = "xnys_1";
}

abbrev pub json : SnapshotManifest → Blob
json manifest = of_manifest manifest

abbrev pub outcome : Result SnapshotResult × Files Blob
outcome =
    run memory memory_formats contracts documents builtins json listing "/ref.json" "/out" context
      options start

abbrev nothing : SnapshotResult
nothing = record {
  manifest = record {
    files = [];
    versions = record {
      calendar_version = "";
      corporate_action_version = "";
      cost_model_id = "";
      data_quality_report_sha256 = "";
      license_id = "";
    };
  };
  receipts = [];
  root = "";
}

abbrev pub result : SnapshotResult
result = value_or nothing outcome.0

pub run_returns : outcome.0 ≡ ok result
unfolding self_improving_trading_s.Effects.◌>>=◌ self_improving_trading_s.Effects.lift
    self_improving_trading_s.Effects.gets self_improving_trading_s.Storage.store
    self_improving_trading_s.Storage.read_bytes self_improving_trading_s.Reference.item
    self_improving_trading_s.Reference.truth self_improving_trading_s.Reference.iterate
    self_improving_trading_s.Reference.load_reference self_improving_trading_s.Vendor.require_key
    self_improving_trading_s.Vendor.as_decimal self_improving_trading_s.Vendor.str
    self_improving_trading_s.Vendor.to_integer self_improving_trading_s.Vendor.str_each
    self_improving_trading_s.Vendor.conditions_at self_improving_trading_s.Vendor.sequence_at
    self_improving_trading_s.Vendor.parse_trade self_improving_trading_s.Vendor.parse_quote
    self_improving_trading_s.Vendor.Files.read_ndjson
    self_improving_trading_s.Vendor.Files.read_files
    self_improving_trading_s.Vendor.Files.read_partition
    self_improving_trading_s.Vendor.Mapped.items_of
    self_improving_trading_s.Vendor.Mapped.trade_record
    self_improving_trading_s.Vendor.Mapped.quote_record
    self_improving_trading_s.Time.Rfc3339.digit_of
    self_improving_trading_s.Time.Rfc3339.decimal_digit
    self_improving_trading_s.Time.Rfc3339.read_digits self_improving_trading_s.Time.Rfc3339.read_one
    self_improving_trading_s.Time.Rfc3339.read_fraction
    self_improving_trading_s.Time.Rfc3339.read_zone self_improving_trading_s.Time.Rfc3339.is_end
    self_improving_trading_s.Time.Rfc3339.match_rfc3339
    self_improving_trading_s.Time.Rfc3339.padded_value
    self_improving_trading_s.Time.Rfc3339.zone_shift self_improving_trading_s.Time.Rfc3339.total_ns
    self_improving_trading_s.Time.Rfc3339.instant_of
    self_improving_trading_s.Time.Rfc3339.parse_rfc3339_ns
    self_improving_trading_s.Calendar.days_before_month
    self_improving_trading_s.Calendar.days_before_year self_improving_trading_s.Calendar.toordinal
    self_improving_trading_s.Calendar.timegm self_improving_trading_s.Normalize.knowledge_time
    self_improving_trading_s.Normalize.time_columns
    self_improving_trading_s.Normalize.ordering_columns self_improving_trading_s.Normalize.cells
    self_improving_trading_s.Normalize.sorted_by_key self_improving_trading_s.Normalize.trade_row
    self_improving_trading_s.Normalize.quote_row self_improving_trading_s.Normalize.rows_from
    self_improving_trading_s.Normalize.normalize_trades
    self_improving_trading_s.Normalize.normalize_quotes self_improving_trading_s.Normalize.column_of
    self_improving_trading_s.Normalize.columns_of self_improving_trading_s.Normalize.to_table
    self_improving_trading_s.Normalize.Partition.dataset_path
    self_improving_trading_s.Normalize.Partition.write_dataset
    self_improving_trading_s.Normalize.Partition.write_tables
    self_improving_trading_s.Normalize.Partition.normalize_partition
    self_improving_trading_s.Pipeline.bar_settings self_improving_trading_s.Pipeline.reference_at
    self_improving_trading_s.Pipeline.write_manifest self_improving_trading_s.Pipeline.seal
    self_improving_trading_s.Pipeline.run self_improving_trading_s.Pipeline.Inputs.receipt_for
    self_improving_trading_s.Pipeline.Inputs.trade_inputs
    self_improving_trading_s.Pipeline.Inputs.inputs_of
    self_improving_trading_s.Pipeline.Inputs.stored_trades
    self_improving_trading_s.Bars.window_start self_improving_trading_s.Bars.append_to
    self_improving_trading_s.Bars.group_from self_improving_trading_s.Bars.total_size
    self_improving_trading_s.Bars.total_notional self_improving_trading_s.Bars.highest
    self_improving_trading_s.Bars.lowest self_improving_trading_s.Bars.last_of
    self_improving_trading_s.Bars.bar_of_window self_improving_trading_s.Bars.by_time
    self_improving_trading_s.Bars.bars_from self_improving_trading_s.Bars.by_start
    self_improving_trading_s.Bars.build_bars self_improving_trading_s.Bars.Rows.bar_row
    self_improving_trading_s.Writer.required_ints self_improving_trading_s.Writer.check_plausible
    self_improving_trading_s.Writer.check_order_of_times
    self_improving_trading_s.Writer.check_increasing self_improving_trading_s.Writer.zip_keys
    self_improving_trading_s.Writer.check_amounts self_improving_trading_s.Writer.check_schema
    self_improving_trading_s.Writer.check_time_fields self_improving_trading_s.Writer.check_ordering
    self_improving_trading_s.Writer.check_money
    self_improving_trading_s.Writer.Store.checks_of_write
    self_improving_trading_s.Writer.Store.receipt_of
    self_improving_trading_s.Writer.Store.write_contract_table
    self_improving_trading_s.Writer.Store.read_contract_table
    self_improving_trading_s.Snapshot.snapshot_manifest
    self_improving_trading_s.Snapshot.identity_body self_improving_trading_s.Snapshot.entry_at
    self_improving_trading_s.Snapshot.entry_of self_improving_trading_s.Snapshot.entries_of
    self_improving_trading_s.Snapshot.build_manifest
    self_improving_trading_s.Snapshot.Paths.is_absolute
    self_improving_trading_s.Snapshot.Paths.child_path
    self_improving_trading_s.Snapshot.Paths.relative_to self_improving_trading_s.Registry.get
    self_improving_trading_s.Spec.check_contract self_improving_trading_s.Spec.arrow_schema
    self_improving_trading_s.Money.narrow self_improving_trading_s.Money.rounded_money
    self_improving_trading_s.Money.rounded_value self_improving_trading_s.Money.round_against_us
    self_improving_trading_s.Money.round_statistic self_improving_trading_s.Money.dollars
    self_improving_trading_s.Fraction.fraction self_improving_trading_s.Fraction.sub_int
    self_improving_trading_s.Fraction.abs_lt_one
    self_improving_trading_s.Ordering.assign_ingest_index
    self_improving_trading_s.Instrument.resolve_ticker self_improving_trading_s.Prelude.◌+ℤ◌
    self_improving_trading_s.Prelude.◌-ℤ◌ self_improving_trading_s.Prelude.◌*ℤ◌
    self_improving_trading_s.Prelude.floor_mod self_improving_trading_s.Prelude.sorted_by
    self_improving_trading_s.Time.require_plausible
    self_improving_trading_s.Contracts.Market.trade_contract
    self_improving_trading_s.Contracts.Market.quote_contract
    self_improving_trading_s.Contracts.Market.bar_contract
run_returns = refl

pub str_differ : (s t : String) → str_eq s t ≡ false → s ≢ t
str_differ s t h e = cc ((str_eq_iff s t).1 e, h)

pub contracts-WellKept : WellKept contracts
unfolding trade_contract quote_contract bar_contract
contracts-WellKept = record {
  own_names = (refl, (refl, (refl, tt)));
  once = (
    (
      str_differ "normalized.trade" "normalized.quote" refl,
      (str_differ "normalized.trade" "normalized.bar" refl, tt),
    ),
    ((str_differ "normalized.quote" "normalized.bar" refl, tt), (tt, tt)),
  );
}

run-IsSealed_example :
    IsSealed memory memory_formats contracts documents builtins json listing "/ref.json" "/out"
      context options start result outcome.1
run-IsSealed_example =
    run-IsSealed memory memory_formats contracts documents builtins json listing "/ref.json" "/out"
      context options start contracts-WellKept
      (ap (λ (r : Result SnapshotResult). (r, outcome.1)) run_returns)
