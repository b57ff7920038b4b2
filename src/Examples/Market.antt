-- ===== src/Examples/Market.antt =====
-- Bars and tickers at concrete inputs.
use self_improving_trading_s.Prelude.{
  ◌≡◌, refl, true, false, none, some, List, [], ◌∷◌, pos, negsuc, arith, ◌+ℤ◌, floor_div, floor_mod,
  ◌-ℤ◌, ◌*ℤ◌, sorted_by, ◌*ℤ◌, ◌-ℤ◌,
}
use self_improving_trading_s.Errors.{ok, err, ticker_ambiguous}
use self_improving_trading_s.Instrument.{TickerAssignment, resolve_ticker}
use self_improving_trading_s.Instrument.Resolve.{Outcome, resolve_ticker_lem}
use self_improving_trading_s.Fraction.{fraction, abs_lt_one, sub_int}
use self_improving_trading_s.Money.{
  round_statistic, round_against_us, rounded_value, narrow, rounded_money,
}
use self_improving_trading_s.Ordering.{assign_ingest_index}
use self_improving_trading_s.Bars.{
  total_size, total_notional, int_floor_div, group_from, append_to, is_bar_eligible, meets,
  by_start, by_time, bars_from, highest, lowest, last_of, TradeInput, Bar, BarSettings, build_bars,
  bar_of_window, window_start,
}
use self_improving_trading_s.Bars.Conserved.{Conserves, build_bars_lem}
use self_improving_trading_s.Bars.Prices.{PricesHold, bar_of_window_prices}

-- Two windows of ten; the third trade is an extended-hours print.
abbrev print1 : TradeInput
print1 = record {
  event_time = pos 12;
  price_nano = pos 500;
  size_shares = pos 3;
  conditions = "@" ∷ [];
  instrument_id = pos 1;
}

abbrev print2 : TradeInput
print2 = record {
  event_time = pos 19;
  price_nano = pos 507;
  size_shares = pos 1;
  conditions = [];
  instrument_id = pos 1;
}

abbrev print3 : TradeInput
print3 = record {
  event_time = pos 15;
  price_nano = pos 900;
  size_shares = pos 2;
  conditions = "T" ∷ [];
  instrument_id = pos 1;
}

abbrev print4 : TradeInput
print4 = record {
  event_time = pos 4;
  price_nano = pos 498;
  size_shares = pos 5;
  conditions = "@" ∷ [];
  instrument_id = pos 1;
}

abbrev settings : BarSettings
settings = record {
  window_ns = pos 10;
  origin_ns = pos 0;
  as_of = pos 15;
  raw_partition_id = "p";
  event_time_source = "vendor";
  receive_time = pos 30;
  process_time = pos 40;
  knowledge_lag_ns = pos 1;
}

abbrev early_bar : Bar
early_bar = record {
  event_time = pos 0;
  receive_time = pos 30;
  process_time = pos 40;
  knowledge_time = pos 11;
  source_rank = pos 6;
  vendor_sequence = negsuc 0;
  venue_sequence = negsuc 0;
  ingest_index = pos 0;
  raw_partition_id = "p";
  event_time_source = "vendor";
  instrument_id = pos 1;
  window_ns = pos 10;
  open_nano = pos 498;
  high_nano = pos 498;
  low_nano = pos 498;
  close_nano = pos 498;
  volume_shares = pos 5;
  vwap_nano = pos 498;
  trade_count = 1;
  is_complete = true;
}

-- Its average is 501.75, rounded toward zero, and its window is not over.
abbrev late_bar : Bar
late_bar = record {
  event_time = pos 10;
  receive_time = pos 30;
  process_time = pos 40;
  knowledge_time = pos 21;
  source_rank = pos 6;
  vendor_sequence = negsuc 0;
  venue_sequence = negsuc 0;
  ingest_index = pos 1;
  raw_partition_id = "p";
  event_time_source = "vendor";
  instrument_id = pos 1;
  window_ns = pos 10;
  open_nano = pos 500;
  high_nano = pos 507;
  low_nano = pos 500;
  close_nano = pos 507;
  volume_shares = pos 4;
  vwap_nano = pos 501;
  trade_count = 2;
  is_complete = false;
}

build_bars_run :
    build_bars (print1 ∷ print2 ∷ print3 ∷ print4 ∷ []) settings ≡ ok (early_bar ∷ late_bar ∷ [])
unfolding build_bars group_from window_start int_floor_div append_to is_bar_eligible meets by_start
    by_time bars_from sorted_by bar_of_window total_size total_notional fraction round_statistic
    round_against_us rounded_value narrow rounded_money abs_lt_one sub_int floor_div floor_mod ◌+ℤ◌
    ◌-ℤ◌ ◌*ℤ◌ assign_ingest_index highest lowest last_of
build_bars_run = refl

build_bars_lem_example :
    Conserves (print1 ∷ print2 ∷ print3 ∷ print4 ∷ []) (early_bar ∷ late_bar ∷ [])
build_bars_lem_example =
    build_bars_lem (print1 ∷ print2 ∷ print3 ∷ print4 ∷ []) settings 9 refl build_bars_run

bar_of_window_run : bar_of_window settings 1 (pos 10) (print1 ∷ print2 ∷ []) ≡ ok late_bar
unfolding bar_of_window total_size total_notional fraction round_statistic round_against_us
    rounded_value narrow rounded_money abs_lt_one sub_int floor_div floor_mod ◌+ℤ◌ ◌-ℤ◌ ◌*ℤ◌
    assign_ingest_index highest lowest last_of
bar_of_window_run = refl

bar_of_window_prices_example : PricesHold late_bar print1 (print2 ∷ [])
bar_of_window_prices_example =
    bar_of_window_prices settings 1 (pos 10) print1 (print2 ∷ []) (omega arith, (omega arith, tt))
      bar_of_window_run

window_start_run : window_start (negsuc 2) (pos 10) (pos 5) ≡ ok (negsuc 4)
unfolding window_start ◌+ℤ◌ ◌*ℤ◌ ◌-ℤ◌
window_start_run = refl

abbrev history : List TickerAssignment
history =
    record {
      instrument_id = pos 1;
      ticker = "META";
      effective_time = pos 0;
      end_time = some (pos 100);
    }
    ∷ record { instrument_id = pos 2; ticker = "META"; effective_time = pos 90; end_time = none }
    ∷ []

resolve_ticker_run : resolve_ticker history "META" (pos 95) ≡ err ticker_ambiguous
unfolding resolve_ticker
resolve_ticker_run = refl

resolve_ticker_lem_example :
    Outcome "META" (pos 95) history (resolve_ticker history "META" (pos 95))
resolve_ticker_lem_example = resolve_ticker_lem "META" (pos 95) history
