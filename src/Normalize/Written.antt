-- ===== src/Normalize/Written.antt =====
-- What is normalized passes the checks of the writer.
use self_improving_trading_s.Normalize.Good.{
  trade_row_lem, quote_row_lem, trade-HasColumns, quote-HasColumns, GoodTrade, good_trade,
  GoodQuote, good_quote, price_listed, bid_listed, ask_listed, trade_amounts, quote_amounts,
  only_name, two_names,
}
use mathlib.Core.Path.{subst}
use self_improving_trading_s.Prelude.{◌≡◌, List, [], ◌∷◌, All, All-imp}
use self_improving_trading_s.Errors.{ok}
use self_improving_trading_s.Instrument.{TickerAssignment}
use self_improving_trading_s.Spec.{ContractSpec}
use self_improving_trading_s.Contracts.Market.{trade_contract, quote_contract}
use self_improving_trading_s.Arrow.{Arrow}
use self_improving_trading_s.Writer.{
  KnowledgeTimePolicy, int_column, check_time_fields, check_ordering, check_money,
}
use self_improving_trading_s.Writer.Amounts.{Storable, check_money_iff}
use self_improving_trading_s.Normalize.{
  RawTrade, RawQuote, NormalizationContext, Row, sorted_by_key, trade_row, quote_row,
  normalize_trades, normalize_quotes, to_table,
}
use self_improving_trading_s.Normalize.Rows.{normalized}
use self_improving_trading_s.Normalize.Passes.{
  IsTimely, IsOrdered, times_pass, keys_pass, amounts_in, Storable-column,
}

-- The three checks of the writer on the content of a table.
abbrev pub Passes : (arrow : Arrow) → arrow.Table → ContractSpec → KnowledgeTimePolicy → Type 0
Passes arrow t contract policy =
    (check_time_fields arrow t contract policy ≡ ok tt)
    × (check_ordering arrow t contract ≡ ok tt)
    × (check_money arrow t contract ≡ ok tt)

-- The table of any normalized trades passes the time, the ordering and the money check of the writer,
-- in whatever order the vendor sent them, if processing does not precede reception, the declared lag
-- is not negative, and for each trade the reception is not before the event and the knowledge time of
-- the context's policy is plausible.
pub trades_pass :
    (arrow : Arrow) (raws : List RawTrade) (history : List TickerAssignment)
    (context : NormalizationContext) {rows : List Row} {t : arrow.Table}
    → IsOrdered context
    → All (λ (raw : RawTrade). IsTimely context raw.event_time) raws
    → normalize_trades raws history context ≡ ok rows
    → to_table arrow rows trade_contract ≡ ok t
    → Passes arrow t trade_contract context.knowledge_policy
unfolding normalize_trades sorted_by_key
trades_pass arrow raws history context {rows} {t} c timely n built =
    let (each, keys) =
      normalized (trade_row history context)
        (λ p raw r h. (trade_row_lem history context p raw r h).index)
        (λ raw. IsTimely context raw.event_time) (GoodTrade context)
        (λ p raw r q h. good_trade history context p raw r c q h) raws timely n in
    let prices =
      Storable-column arrow trade_contract context rows t built trade-HasColumns "price_nano"
        price_listed (All-imp (λ r g. g.price) rows each) in
    (
      times_pass arrow trade_contract context rows t built trade-HasColumns
          (All-imp (λ r g. g.timely) rows each),
      keys_pass arrow trade_contract context rows t built trade-HasColumns keys,
      (check_money_iff arrow t trade_contract).1 (
          amounts_in arrow trade_contract context rows t built trade-HasColumns ("price_nano" ∷ [])
            trade_contract.fields trade_amounts
            (λ n e. subst (λ m. All Storable (int_column arrow t m)) (only_name n e) prices)),
    )

-- The table of any normalized quotes passes the time, the ordering and the money check of the writer,
-- in whatever order the vendor sent them, if processing does not precede reception, the declared lag
-- is not negative, and for each quote the reception is not before the event and the knowledge time of
-- the context's policy is plausible.
pub quotes_pass :
    (arrow : Arrow) (raws : List RawQuote) (history : List TickerAssignment)
    (context : NormalizationContext) {rows : List Row} {t : arrow.Table}
    → IsOrdered context
    → All (λ (raw : RawQuote). IsTimely context raw.event_time) raws
    → normalize_quotes raws history context ≡ ok rows
    → to_table arrow rows quote_contract ≡ ok t
    → Passes arrow t quote_contract context.knowledge_policy
unfolding normalize_quotes sorted_by_key
quotes_pass arrow raws history context {rows} {t} c timely n built =
    let (each, keys) =
      normalized (quote_row history context)
        (λ p raw r h. (quote_row_lem history context p raw r h).index)
        (λ raw. IsTimely context raw.event_time) (GoodQuote context)
        (λ p raw r q h. good_quote history context p raw r c q h) raws timely n in
    let bids =
      Storable-column arrow quote_contract context rows t built quote-HasColumns "bid_price_nano"
        bid_listed (All-imp (λ r g. g.bid) rows each) in
    let asks =
      Storable-column arrow quote_contract context rows t built quote-HasColumns "ask_price_nano"
        ask_listed (All-imp (λ r g. g.ask) rows each) in
    (
      times_pass arrow quote_contract context rows t built quote-HasColumns
          (All-imp (λ r g. g.timely) rows each),
      keys_pass arrow quote_contract context rows t built quote-HasColumns keys,
      (check_money_iff arrow t quote_contract).1 (
          amounts_in arrow quote_contract context rows t built quote-HasColumns
            ("bid_price_nano" ∷ "ask_price_nano" ∷ []) quote_contract.fields quote_amounts
            (λ n e. two_names arrow t n e bids asks)),
    )
