-- ===== src/Bars/Rows.antt =====
-- packages/market_data/src/trading/market_data/bars.py: a bar as the dict that `build_bars` makes.
use self_improving_trading_s.Prelude.{[], ◌∷◌, pos}
use self_improving_trading_s.Arrow.{int, bool}
use self_improving_trading_s.Bars.{Bar}
use self_improving_trading_s.Normalize.{Row}

-- The dict that `build_bars` makes of a window.
unfoldable pub bar_row : Bar → Row
bar_row b = record {
  times = record {
    event_time = b.event_time;
    receive_time = b.receive_time;
    process_time = b.process_time;
    knowledge_time = b.knowledge_time;
  };
  ordering = record {
    source_rank = b.source_rank;
    vendor_sequence = b.vendor_sequence;
    venue_sequence = b.venue_sequence;
    ingest_index = b.ingest_index;
    raw_partition_id = b.raw_partition_id;
    event_time_source = b.event_time_source;
  };
  items =
      ("instrument_id", int b.instrument_id)
      ∷ ("window_ns", int b.window_ns)
      ∷ ("open_nano", int b.open_nano)
      ∷ ("high_nano", int b.high_nano)
      ∷ ("low_nano", int b.low_nano)
      ∷ ("close_nano", int b.close_nano)
      ∷ ("volume_shares", int b.volume_shares)
      ∷ ("vwap_nano", int b.vwap_nano)
      ∷ ("trade_count", int (pos b.trade_count))
      ∷ ("is_complete", bool b.is_complete)
      ∷ [];
}
