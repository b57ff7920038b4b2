-- ===== src/Bars.antt =====
-- packages/market_data/src/trading/market_data/bars.py: bars from trades.
pub mod Weighted
pub mod Prices
pub mod Grouping
pub mod Conserved
pub mod Rows
use self_improving_trading_s.Prelude.{
  ℕ, zero, suc, ◌*◌, ◌+◌, Bool, true, false, not, ◌&&◌, ◌||◌, List, [], ◌∷◌, ◌++◌, String, ℤ, pos,
  negsuc, ◌+ℤ◌, ◌-ℤ◌, ◌*ℤ◌, leb_ℤ, eqb_ℤ, ltb_ℤ, max_ℤ, min_ℤ, floor_div, if◌then◌else◌, in_names,
  sum_by, sorted_by, int_ord, length,
}
use self_improving_trading_s.Errors.{Result, ok, err, zero_division, index_error, ◌>>=◌}
use self_improving_trading_s.Fraction.{fraction}
use self_improving_trading_s.Money.{round_statistic}
use self_improving_trading_s.Ordering.{bar, rank_value, missing_sequence, assign_ingest_index}

-- `INELIGIBLE_CONDITIONS`
abbrev pub ineligible_conditions : List String
ineligible_conditions = "T" ∷ "U" ∷ "Z" ∷ []

-- `ONE_MINUTE_NS`
abbrev pub one_minute_ns : ℤ
one_minute_ns = pos 60_000_000_000

pub record TradeInput : Type 0 where
  pub event_time : ℤ
  pub price_nano : ℤ
  pub size_shares : ℤ
  pub conditions : List String
  pub instrument_id : ℤ

-- Whether the two sets have a common member.
unfoldable pub meets : List String → List String → Bool
meets [] set = false
meets (c ∷ cs) set = in_names c set || meets cs set

unfoldable pub is_bar_eligible : List String → Bool
unfolding meets
is_bar_eligible conditions = not (meets conditions ineligible_conditions)

-- `a // b` of Python
unfoldable pub int_floor_div : ℤ → ℤ → Result ℤ
unfolding floor_div
int_floor_div a (pos zero) = err zero_division
int_floor_div a (pos (suc d)) = ok (floor_div a (suc d))
int_floor_div a (negsuc d) = ok (floor_div (pos 0 -ℤ a) (suc d))

unfoldable pub window_start : ℤ → ℤ → ℤ → Result ℤ
unfolding int_floor_div
window_start event_time window_ns origin_ns = do
  let offset = event_time -ℤ origin_ns
  index ← int_floor_div offset window_ns
  ok (origin_ns +ℤ index *ℤ window_ns)

-- A dict from a window's start to its trades, in the order of insertion.
abbrev pub Groups : Type 0
Groups = List (ℤ × List TradeInput)

-- `grouped.setdefault(start, []).append(trade)`
unfoldable pub append_to : ℤ → TradeInput → Groups → Groups
append_to start trade [] = (start, trade ∷ []) ∷ []
append_to start trade ((s, ts) ∷ groups) =
    let rest = append_to start trade groups in
    if eqb_ℤ s start then (s, ts ++ (trade ∷ [])) ∷ groups else (s, ts) ∷ rest

-- The loop that groups the eligible trades by window.
unfoldable pub group_from : ℤ → ℤ → Groups → List TradeInput → Result Groups
unfolding is_bar_eligible
group_from window_ns origin_ns grouped [] = ok grouped
group_from window_ns origin_ns grouped (trade ∷ trades) =
    let skipped = group_from window_ns origin_ns grouped trades in
    let kept : Result Groups = (do
      start ← window_start trade.event_time window_ns origin_ns
      group_from window_ns origin_ns (append_to start trade grouped) trades) in
    if not (is_bar_eligible trade.conditions) then skipped else kept

pub record Bar : Type 0 where
  pub event_time : ℤ
  pub receive_time : ℤ
  pub process_time : ℤ
  pub knowledge_time : ℤ
  pub source_rank : ℤ
  pub vendor_sequence : ℤ
  pub venue_sequence : ℤ
  pub ingest_index : ℤ
  pub raw_partition_id : String
  pub event_time_source : String
  pub instrument_id : ℤ
  pub window_ns : ℤ
  pub open_nano : ℤ
  pub high_nano : ℤ
  pub low_nano : ℤ
  pub close_nano : ℤ
  pub volume_shares : ℤ
  pub vwap_nano : ℤ
  pub trade_count : ℕ
  pub is_complete : Bool

-- The keyword arguments of `build_bars`.
pub record BarSettings : Type 0 where
  pub window_ns : ℤ
  pub origin_ns : ℤ
  pub as_of : ℤ
  pub raw_partition_id : String
  pub event_time_source : String
  pub receive_time : ℤ
  pub process_time : ℤ
  pub knowledge_lag_ns : ℤ

-- `sum(t.size_shares for t in window)`
unfoldable pub total_size : List TradeInput → ℤ
total_size = sum_by (λ (t : TradeInput). t.size_shares)

-- `sum(t.price_nano * t.size_shares for t in window)`
unfoldable pub total_notional : List TradeInput → ℤ
total_notional = sum_by (λ (t : TradeInput). t.price_nano *ℤ t.size_shares)

-- `max(...)`, `min(...)` of the prices of a window with a first trade
unfoldable pub highest : ℤ → List TradeInput → ℤ
highest p [] = p
highest p (t ∷ ts) = highest (max_ℤ p t.price_nano) ts

unfoldable pub lowest : ℤ → List TradeInput → ℤ
lowest p [] = p
lowest p (t ∷ ts) = lowest (min_ℤ p t.price_nano) ts

-- `window[-1]`
unfoldable pub last_of : TradeInput → List TradeInput → TradeInput
last_of t [] = t
last_of t (u ∷ ts) = last_of u ts

-- The row of one window, once its trades are sorted by time.
unfoldable pub bar_of_window : BarSettings → ℕ → ℤ → List TradeInput → Result Bar
bar_of_window settings position start window = do
  let end = start +ℤ settings.window_ns
  let volume = total_size window
  average ← fraction (total_notional window) volume
  vwap ← round_statistic average
  let known = end +ℤ settings.knowledge_lag_ns
  index ← assign_ingest_index (pos position)
  elim window [
    | [] ↦ err index_error
    | first ∷ rest ↦ ok (record {
      event_time = start;
      receive_time = max_ℤ settings.receive_time known;
      process_time = max_ℤ settings.process_time known;
      knowledge_time = known;
      source_rank = rank_value bar;
      vendor_sequence = missing_sequence;
      venue_sequence = missing_sequence;
      ingest_index = index;
      raw_partition_id = settings.raw_partition_id;
      event_time_source = settings.event_time_source;
      instrument_id = first.instrument_id;
      window_ns = settings.window_ns;
      open_nano = first.price_nano;
      high_nano = highest first.price_nano rest;
      low_nano = lowest first.price_nano rest;
      close_nano = (last_of first rest).price_nano;
      volume_shares = volume;
      vwap_nano = vwap.value;
      trade_count = length (first ∷ rest);
      is_complete = leb_ℤ end settings.as_of;
    })
  ]

-- `sorted(grouped[start], key=lambda t: int(t.event_time))`
unfoldable pub by_time : List TradeInput → List TradeInput
by_time = sorted_by int_ord (λ (t : TradeInput). t.event_time)

-- The loop over the windows, from a position on.
unfoldable pub bars_from : BarSettings → ℕ → Groups → Result (List Bar)
bars_from settings position [] = ok []
bars_from settings position ((start, window) ∷ groups) = do
  first ← bar_of_window settings position start (by_time window)
  rest ← bars_from settings (suc position) groups
  ok (first ∷ rest)

-- `sorted(grouped)`
unfoldable pub by_start : Groups → Groups
by_start = sorted_by int_ord (λ (g : ℤ × List TradeInput). g.0)

unfoldable pub build_bars : List TradeInput → BarSettings → Result (List Bar)
build_bars trades settings = do
  grouped ← group_from settings.window_ns settings.origin_ns [] trades
  bars_from settings 0 (by_start grouped)
