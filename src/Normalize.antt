-- ===== src/Normalize.antt =====
-- packages/market_data/src/trading/market_data/normalize.py: vendor records to rows of the contract
-- tables. A row is a dict with fixed keys, the same for trades and quotes but for the columns of the
-- contract itself, which are kept as the list of its remaining items.
pub mod Rows
pub mod Tables
pub mod Passes
pub mod Present
pub mod Good
pub mod Written
pub mod Stored
pub mod Partition
use self_improving_trading_s.Prelude.{
  ℕ, suc, Bool, true, false, Option, none, some, List, [], ◌∷◌, ◌++◌, map, String, ℤ, pos, ◌+ℤ◌,
  if◌then◌else◌, sorted_by, lookup,
}
use self_improving_trading_s.Errors.{Result, ok, err, key_error, ◌>>=◌}
pub use self_improving_trading_s.Vendor.{RawTrade, RawQuote}
use self_improving_trading_s.Money.{dollars}
use self_improving_trading_s.Ordering.{
  SourceRank, trade, quote, rank_value, OrderingKey, key_tuple, tuple_ord, missing_sequence,
  assign_ingest_index,
}
use self_improving_trading_s.Instrument.{TickerAssignment, resolve_ticker}
use self_improving_trading_s.Spec.{ContractSpec, field_names, arrow_schema}
use self_improving_trading_s.Arrow.{Arrow, Cell, null, int, text, texts, bool}
use self_improving_trading_s.Writer.{KnowledgeTimePolicy, is_live}

pub record NormalizationContext : Type 0 where
  pub receive_time : ℤ
  pub process_time : ℤ
  pub publication_lag_ns : ℤ
  pub raw_partition_id : String
  pub event_time_source : String
  pub venue_coverage : String
  pub knowledge_policy : KnowledgeTimePolicy

-- `NormalizationContext.knowledge_time`
unfoldable pub knowledge_time : NormalizationContext → ℤ → ℤ
unfolding is_live
knowledge_time context event_time =
    if is_live context.knowledge_policy
    then context.receive_time
    else event_time +ℤ context.publication_lag_ns

-- The columns of `_time_columns`; `revision_time` is None in every row.
pub record TimeColumns : Type 0 where
  pub event_time : ℤ
  pub receive_time : ℤ
  pub process_time : ℤ
  pub knowledge_time : ℤ

unfoldable pub time_columns : ℤ → NormalizationContext → TimeColumns
time_columns event_time context = record {
  event_time = event_time;
  receive_time = context.receive_time;
  process_time = context.process_time;
  knowledge_time = knowledge_time context event_time;
}

-- The columns of `_ordering_columns`.
pub record OrderingColumns : Type 0 where
  pub source_rank : ℤ
  pub vendor_sequence : ℤ
  pub venue_sequence : ℤ
  pub ingest_index : ℤ
  pub raw_partition_id : String
  pub event_time_source : String

unfoldable pub ordering_columns : SourceRank → ℤ → ℤ → NormalizationContext → Result OrderingColumns
ordering_columns rank vendor_sequence position context = do
  index ← assign_ingest_index position
  ok (record {
    source_rank = rank_value rank;
    vendor_sequence = vendor_sequence;
    venue_sequence = missing_sequence;
    ingest_index = index;
    raw_partition_id = context.raw_partition_id;
    event_time_source = context.event_time_source;
  })

pub record Row : Type 0 where
  pub times : TimeColumns
  pub ordering : OrderingColumns
  pub items : List (String × Cell)

-- All items of a row.
unfoldable pub cells : Row → List (String × Cell)
cells r =
    ("event_time", int r.times.event_time)
    ∷ ("receive_time", int r.times.receive_time)
    ∷ ("process_time", int r.times.process_time)
    ∷ ("knowledge_time", int r.times.knowledge_time)
    ∷ ("revision_time", null)
    ∷ ("source_rank", int r.ordering.source_rank)
    ∷ ("vendor_sequence", int r.ordering.vendor_sequence)
    ∷ ("venue_sequence", int r.ordering.venue_sequence)
    ∷ ("ingest_index", int r.ordering.ingest_index)
    ∷ ("raw_partition_id", text r.ordering.raw_partition_id)
    ∷ ("event_time_source", text r.ordering.event_time_source)
    ∷ r.items

-- The key of `_sorted_by_key`.
unfoldable pub row_key : Row → OrderingKey
row_key r = record {
  event_time = r.times.event_time;
  source_rank = r.ordering.source_rank;
  vendor_sequence = r.ordering.vendor_sequence;
  venue_sequence = r.ordering.venue_sequence;
  ingest_index = r.ordering.ingest_index;
}

unfoldable pub sorted_by_key : List Row → List Row
sorted_by_key rows = sorted_by tuple_ord (λ (r : Row). key_tuple (row_key r)) rows

-- The dict that `normalize_trades` builds for one raw trade.
unfoldable pub trade_row : List TickerAssignment → NormalizationContext → ℤ → RawTrade → Result Row
trade_row history context position raw = do
  let times = time_columns raw.event_time context
  ordering ← ordering_columns trade raw.vendor_sequence position context
  instrument ← resolve_ticker history raw.symbol raw.event_time
  price ← dollars raw.price
  ok (record {
    times = times;
    ordering = ordering;
    items =
        ("instrument_id", int instrument)
        ∷ ("price_nano", int price)
        ∷ ("size_shares", int raw.size)
        ∷ ("exchange", text raw.exchange)
        ∷ ("conditions", texts raw.conditions)
        ∷ ("trade_id", text raw.trade_id)
        ∷ ("tape", text raw.tape)
        ∷ ("is_cancelled", bool false)
        ∷ [];
  })

-- The dict that `normalize_quotes` builds for one raw quote.
unfoldable pub quote_row : List TickerAssignment → NormalizationContext → ℤ → RawQuote → Result Row
quote_row history context position raw = do
  let times = time_columns raw.event_time context
  ordering ← ordering_columns quote raw.vendor_sequence position context
  instrument ← resolve_ticker history raw.symbol raw.event_time
  bid ← dollars raw.bid_price
  ask ← dollars raw.ask_price
  ok (record {
    times = times;
    ordering = ordering;
    items =
        ("instrument_id", int instrument)
        ∷ ("bid_price_nano", int bid)
        ∷ ("bid_size_shares", int raw.bid_size)
        ∷ ("bid_exchange", text raw.bid_exchange)
        ∷ ("ask_price_nano", int ask)
        ∷ ("ask_size_shares", int raw.ask_size)
        ∷ ("ask_exchange", text raw.ask_exchange)
        ∷ ("conditions", texts raw.conditions)
        ∷ ("tape", text raw.tape)
        ∷ ("venue_coverage", text context.venue_coverage)
        ∷ [];
  })

-- `[row(position, raw) for position, raw in enumerate(raws)]`, from a position on
unfoldable pub rows_from {ℓ} : {R : Type ℓ} → (ℤ → R → Result Row) → ℕ → List R → Result (List Row)
rows_from row position [] = ok []
rows_from row position (raw ∷ raws) = do
  first ← row (pos position) raw
  rest ← rows_from row (suc position) raws
  ok (first ∷ rest)

unfoldable pub normalize_trades :
    List RawTrade → List TickerAssignment → NormalizationContext → Result (List Row)
normalize_trades raws history context = do
  rows ← rows_from (trade_row history context) 0 raws
  ok (sorted_by_key rows)

unfoldable pub normalize_quotes :
    List RawQuote → List TickerAssignment → NormalizationContext → Result (List Row)
normalize_quotes raws history context = do
  rows ← rows_from (quote_row history context) 0 raws
  ok (sorted_by_key rows)

-- `[row[name] for row in rows]`
unfoldable pub column_of : String → List Row → Result (List Cell)
column_of name [] = ok []
column_of name (r ∷ rs) = elim (lookup name (cells r)) [
  | none ↦ err key_error
  | some c ↦ do rest ← column_of name rs; ok (c ∷ rest)
]

unfoldable pub columns_of : List String → List Row → Result (List (String × List Cell))
columns_of [] rows = ok []
columns_of (name ∷ names) rows = do
  column ← column_of name rows
  rest ← columns_of names rows
  ok ((name, column) ∷ rest)

unfoldable pub to_table : (arrow : Arrow) → List Row → ContractSpec → Result arrow.Table
to_table arrow rows contract = do
  columns ← columns_of (field_names contract) rows
  arrow.table columns (arrow_schema contract)
