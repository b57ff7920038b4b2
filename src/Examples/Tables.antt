-- ===== src/Examples/Tables.antt =====
-- Normalization and the writer at concrete inputs, with tables held in memory.
use self_improving_trading_s.Money.{dollars, narrow}
use self_improving_trading_s.Prelude.{
  ◌≡◌, refl, ap, true, false, Option, none, some, List, [], ◌∷◌, map, String, pos, negsuc, arith,
  All, ◌↔◌, ◌⊎◌, lookup, in_names, sorted_by, ◌+ℤ◌, ◌-ℤ◌,
}
use self_improving_trading_s.Errors.{Result, ok, err, value_error, ok-injective}
use self_improving_trading_s.Instrument.{TickerAssignment, resolve_ticker}
use self_improving_trading_s.Spec.{Column, field_names}
use self_improving_trading_s.Contracts.Market.{trade_contract, quote_contract}
use self_improving_trading_s.Arrow.{Arrow, Cell}
use self_improving_trading_s.Ordering.{OrderingKey, assign_ingest_index}
use self_improving_trading_s.Writer.{
  is_live, backfill, live_capture, check_time_fields, check_ordering, check_money,
}
use self_improving_trading_s.Writer.Times.{TimesHold, check_time_fields_iff}
use self_improving_trading_s.Writer.Keys.{Increasing, KeyColumns, check_ordering_iff}
use self_improving_trading_s.Writer.Amounts.{AmountsHold, check_money_iff}
use self_improving_trading_s.Normalize.{
  RawTrade, RawQuote, NormalizationContext, Row, row_key, knowledge_time, normalize_trades,
  normalize_quotes, to_table, cells, column_of, columns_of, ordering_columns, quote_row, rows_from,
  sorted_by_key, time_columns, trade_row,
}
use self_improving_trading_s.Normalize.Passes.{IsTimely, IsOrdered}
use self_improving_trading_s.Normalize.Written.{Passes, trades_pass}

-- A table is its columns with its schema.
abbrev pub Memory : Type 0
Memory = List (String × List Cell) × List Column

abbrev pub or_empty : Option (List Cell) → List Cell
or_empty none = []
or_empty (some c) = c

pub memory_column :
    (cs : List (String × List Cell)) (s : List Column) (t : Memory) (n : String) (c : List Cell)
    → ◌≡◌ {A = Result Memory} (ok (cs, s)) (ok t)
    → lookup n cs ≡ some c
    → or_empty (lookup n t.0) ≡ c
memory_column cs s t n c h e = rw (← ok-injective h) (ap or_empty e)

-- One table is its own concatenation; no example has several.
abbrev pub first_of : List Memory → Result Memory
first_of [] = err value_error
first_of (t ∷ ts) = ok t

abbrev pub memory : Arrow
memory = record {
  Table = Memory;
  schema = λ t. t.1;
  column = λ t n. or_empty (lookup n t.0);
  num_rows = λ t. 0;
  table = λ cs s. ok (cs, s);
  concat_tables = first_of;
  table_schema = λ cs s t h. rw (← ok-injective h) refl;
  table_column = memory_column;
}

abbrev pub value_or {ℓ} : {A : Type ℓ} → A → Result A → A
value_or a (ok b) = b
value_or a (err e) = a

abbrev pub history : List TickerAssignment
history =
    record { instrument_id = pos 1; ticker = "META"; effective_time = pos 0; end_time = none } ∷ []

abbrev pub context : NormalizationContext
context = record {
  receive_time = pos 1_700_000_100_000_000_000;
  process_time = pos 1_700_000_200_000_000_000;
  publication_lag_ns = pos 1_000_000;
  raw_partition_id = "p";
  event_time_source = "exchange";
  venue_coverage = "iex_only";
  knowledge_policy = backfill;
}

-- The later trade was sent first.
abbrev pub raws : List RawTrade
raws =
    record {
      symbol = "META";
      event_time = pos 1_700_000_000_000_000_005;
      price = record { negative = false; coefficient = 10125; exponent = negsuc 1 };
      size = pos 100;
      exchange = "V";
      conditions = "@" ∷ [];
      trade_id = "2";
      tape = "C";
      vendor_sequence = pos 2;
    }
    ∷ record {
      symbol = "META";
      event_time = pos 1_700_000_000_000_000_000;
      price = record { negative = false; coefficient = 101; exponent = pos 0 };
      size = pos 10;
      exchange = "V";
      conditions = [];
      trade_id = "1";
      tape = "C";
      vendor_sequence = pos 1;
    }
    ∷ []

abbrev pub rows : List Row
rows = value_or [] (normalize_trades raws history context)

pub normalize_trades_run : normalize_trades raws history context ≡ ok rows
unfolding normalize_trades rows_from trade_row ordering_columns assign_ingest_index resolve_ticker
    dollars narrow ◌+ℤ◌ ◌-ℤ◌
normalize_trades_run = refl

abbrev pub table : Memory
table = value_or ([], []) (to_table memory rows trade_contract)

pub to_table_run : to_table memory rows trade_contract ≡ ok table
unfolding to_table normalize_trades columns_of field_names trade_contract column_of rows_from
    trade_row ordering_columns assign_ingest_index resolve_ticker dollars narrow ◌+ℤ◌ ◌-ℤ◌
    sorted_by_key sorted_by row_key time_columns cells
to_table_run = refl

pub ordered : IsOrdered context
ordered = record { processed = omega arith; lag = omega arith }

pub timely : All (λ (raw : RawTrade). IsTimely context raw.event_time) raws
unfolding knowledge_time is_live ◌+ℤ◌
timely = (
  record { received = omega arith; plausible = (omega arith, omega arith) },
  (record { received = omega arith; plausible = (omega arith, omega arith) }, tt),
)

trades_pass_example : Passes memory table trade_contract backfill
trades_pass_example =
    trades_pass memory raws history context ordered timely normalize_trades_run to_table_run

check_time_fields_iff_example :
    (check_time_fields memory table trade_contract live_capture ≡ ok tt)
    ↔ ((trade_contract.time_group ≡ none) ⊎ TimesHold memory table live_capture)
check_time_fields_iff_example = check_time_fields_iff memory table live_capture trade_contract

check_money_iff_example :
    (check_money memory table trade_contract ≡ ok tt)
    ↔ AmountsHold memory table trade_contract.fields
check_money_iff_example = check_money_iff memory table trade_contract

abbrev keys : List OrderingKey
keys = map row_key rows

columns : KeyColumns memory table keys
unfolding row_key normalize_trades to_table rows_from columns_of trade_row field_names
    ordering_columns trade_contract assign_ingest_index column_of resolve_ticker dollars narrow ◌+ℤ◌
    ◌-ℤ◌ sorted_by_key sorted_by time_columns cells
columns = record {
  event_column = refl;
  rank_column = refl;
  vendor_column = refl;
  venue_column = refl;
  index_column = refl;
}

index_listed : in_names "ingest_index" (field_names trade_contract) ≡ true
unfolding field_names trade_contract
index_listed = refl

check_ordering_iff_example : (check_ordering memory table trade_contract ≡ ok tt) ↔ Increasing keys
check_ordering_iff_example =
    check_ordering_iff memory table keys columns trade_contract index_listed

abbrev pub raw_quotes : List RawQuote
raw_quotes =
    record {
      symbol = "META";
      event_time = pos 1_700_000_000_000_000_005;
      bid_price = record { negative = false; coefficient = 10125; exponent = negsuc 1 };
      bid_size = pos 100;
      bid_exchange = "V";
      ask_price = record { negative = false; coefficient = 10127; exponent = negsuc 1 };
      ask_size = pos 200;
      ask_exchange = "V";
      conditions = "R" ∷ [];
      tape = "C";
      vendor_sequence = pos 2;
    }
    ∷ []

abbrev pub quote_rows : List Row
quote_rows = value_or [] (normalize_quotes raw_quotes history context)

pub normalize_quotes_run : normalize_quotes raw_quotes history context ≡ ok quote_rows
unfolding normalize_quotes rows_from quote_row ordering_columns assign_ingest_index resolve_ticker
    dollars narrow ◌+ℤ◌ ◌-ℤ◌
normalize_quotes_run = refl

abbrev pub quote_table : Memory
quote_table = value_or ([], []) (to_table memory quote_rows quote_contract)

pub quote_table_run : to_table memory quote_rows quote_contract ≡ ok quote_table
unfolding to_table normalize_quotes columns_of field_names quote_contract column_of rows_from
    quote_row ordering_columns assign_ingest_index resolve_ticker dollars narrow ◌+ℤ◌ ◌-ℤ◌
    sorted_by_key sorted_by cells
quote_table_run = refl

pub quotes-IsTimely : All (λ (raw : RawQuote). IsTimely context raw.event_time) raw_quotes
unfolding knowledge_time is_live ◌+ℤ◌
quotes-IsTimely = (record { received = omega arith; plausible = (omega arith, omega arith) }, tt)
