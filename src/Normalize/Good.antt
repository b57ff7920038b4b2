-- ===== src/Normalize/Good.antt =====
-- The rows and the columns of normalized trades and quotes, as the checks of the writer read them.
use mathlib.Core.Path.{subst}
use self_improving_trading_s.Prelude.{
  ◌≡◌, refl, Bool, true, false, not, if◌then◌else◌, ◌||◌, some, List, [], ◌∷◌, String, arith, All,
  all, ℤ, in_names, Bool-cases, inl, inr, str_eq, str_eq_iff,
}
use self_improving_trading_s.Errors.{Result, Error, ok, err, value_error, ok-injective, >>=-eq-ok}
use self_improving_trading_s.Decimal.{Decimal, times, is_integral, to_int}
use self_improving_trading_s.Money.{nano, dollars, is_storable, narrow}
use self_improving_trading_s.Ordering.{SourceRank, trade, quote, assign_ingest_index}
use self_improving_trading_s.Instrument.{TickerAssignment, resolve_ticker}
use self_improving_trading_s.Spec.{FieldSpec, field_names}
use self_improving_trading_s.Contracts.Market.{trade_contract, quote_contract}
use self_improving_trading_s.Arrow.{Arrow, as_int}
use self_improving_trading_s.Writer.{is_money, int_column}
use self_improving_trading_s.Writer.Amounts.{Storable}
use self_improving_trading_s.Normalize.{
  RawTrade, RawQuote, NormalizationContext, time_columns, ordering_columns, OrderingColumns, Row,
  cells, trade_row, quote_row,
}
use self_improving_trading_s.Normalize.Tables.{cell_of}
use self_improving_trading_s.Normalize.Passes.{
  TimelyRow, IsTimely, IsOrdered, timely_row, HasColumns,
}

narrow-Storable : (w : ℤ) {v : ℤ} → narrow w ≡ ok v → Storable (some v)
unfolding narrow is_storable
narrow-Storable w h = ground arith

past_test :
    (refused : Bool) (e : Error) (r : Result ℤ) {v : ℤ}
    → (if refused then err e else r) ≡ ok v
    → r ≡ ok v
past_test true e r h = cc
past_test false e r h = h

pub dollars-Storable : (amount : Decimal) {v : ℤ} → dollars amount ≡ ok v → Storable (some v)
unfolding dollars
dollars-Storable amount h =
    let (value, _, k) = >>=-eq-ok (times amount nano) _ h in
    narrow-Storable (to_int value) (past_test (not (is_integral value)) value_error _ k)

-- What `trade_row` builds.
pub record TradeRow (context : NormalizationContext) (position : ℤ) (raw : RawTrade) (r : Row)
    : Type 0 where
  pub times : r.times ≡ time_columns raw.event_time context
  pub index : r.ordering.ingest_index ≡ position
  pub price : Storable (as_int (cell_of "price_nano" r))

pub ordering_index :
    (rank : SourceRank) (v position : ℤ) (context : NormalizationContext) {o : OrderingColumns}
    → ordering_columns rank v position context ≡ ok o
    → o.ingest_index ≡ position
unfolding ordering_columns assign_ingest_index
ordering_index rank v position context h = ground arith

pub trade_row_lem :
    (history : List TickerAssignment) (context : NormalizationContext) (position : ℤ)
    (raw : RawTrade) (r : Row)
    → trade_row history context position raw ≡ ok r
    → TradeRow context position raw r
unfolding trade_row cell_of cells
trade_row_lem history context position raw r h =
    let (o, a, h1) = >>=-eq-ok (ordering_columns trade raw.vendor_sequence position context) _ h in
    let (i, b, h2) = >>=-eq-ok (resolve_ticker history raw.symbol raw.event_time) _ h1 in
    let (p, c, h3) = >>=-eq-ok (dollars raw.price) _ h2 in
    let index = ordering_index trade raw.vendor_sequence position context a in
    rw (← ok-injective h3)
      (record { times = refl; index = index; price = dollars-Storable raw.price c })

pub record QuoteRow (context : NormalizationContext) (position : ℤ) (raw : RawQuote) (r : Row)
    : Type 0 where
  pub times : r.times ≡ time_columns raw.event_time context
  pub index : r.ordering.ingest_index ≡ position
  pub bid : Storable (as_int (cell_of "bid_price_nano" r))
  pub ask : Storable (as_int (cell_of "ask_price_nano" r))

pub quote_row_lem :
    (history : List TickerAssignment) (context : NormalizationContext) (position : ℤ)
    (raw : RawQuote) (r : Row)
    → quote_row history context position raw ≡ ok r
    → QuoteRow context position raw r
unfolding quote_row cell_of cells
quote_row_lem history context position raw r h =
    let (o, a, h1) = >>=-eq-ok (ordering_columns quote raw.vendor_sequence position context) _ h in
    let (i, b, h2) = >>=-eq-ok (resolve_ticker history raw.symbol raw.event_time) _ h1 in
    let (p, c, h3) = >>=-eq-ok (dollars raw.bid_price) _ h2 in
    let (q, d, h4) = >>=-eq-ok (dollars raw.ask_price) _ h3 in
    let index = ordering_index quote raw.vendor_sequence position context a in
    rw (← ok-injective h4) (record {
      times = refl;
      index = index;
      bid = dollars-Storable raw.bid_price c;
      ask = dollars-Storable raw.ask_price d;
    })

pub trade-HasColumns : HasColumns trade_contract
unfolding trade_contract field_names
trade-HasColumns = record {
  event = refl;
  receive = refl;
  process = refl;
  knowledge = refl;
  rank = refl;
  vendor = refl;
  venue = refl;
  index = refl;
}

pub quote-HasColumns : HasColumns quote_contract
unfolding quote_contract field_names
quote-HasColumns = record {
  event = refl;
  receive = refl;
  process = refl;
  knowledge = refl;
  rank = refl;
  vendor = refl;
  venue = refl;
  index = refl;
}

pub record GoodTrade (context : NormalizationContext) (r : Row) : Type 0 where
  pub timely : TimelyRow context r
  pub price : Storable (as_int (cell_of "price_nano" r))

pub good_trade :
    (history : List TickerAssignment) (context : NormalizationContext) (position : ℤ)
    (raw : RawTrade) (r : Row)
    → IsOrdered context
    → IsTimely context raw.event_time
    → trade_row history context position raw ≡ ok r
    → GoodTrade context r
good_trade history context position raw r c q h =
    let b = trade_row_lem history context position raw r h in
    record { timely = timely_row context r raw.event_time c q b.times; price = b.price }

pub record GoodQuote (context : NormalizationContext) (r : Row) : Type 0 where
  pub timely : TimelyRow context r
  pub bid : Storable (as_int (cell_of "bid_price_nano" r))
  pub ask : Storable (as_int (cell_of "ask_price_nano" r))

pub good_quote :
    (history : List TickerAssignment) (context : NormalizationContext) (position : ℤ)
    (raw : RawQuote) (r : Row)
    → IsOrdered context
    → IsTimely context raw.event_time
    → quote_row history context position raw ≡ ok r
    → GoodQuote context r
good_quote history context position raw r c q h =
    let b = quote_row_lem history context position raw r h in
    record { timely = timely_row context r raw.event_time c q b.times; bid = b.bid; ask = b.ask }

pub price_listed : in_names "price_nano" (field_names trade_contract) ≡ true
unfolding trade_contract field_names
price_listed = refl

pub bid_listed : in_names "bid_price_nano" (field_names quote_contract) ≡ true
unfolding quote_contract field_names
bid_listed = refl

pub ask_listed : in_names "ask_price_nano" (field_names quote_contract) ≡ true
unfolding quote_contract field_names
ask_listed = refl

-- The money columns of the two contracts.
pub trade_amounts :
    all
      (λ (f : FieldSpec). not (is_money f.kind) || in_names f.name ("price_nano" ∷ []))
      trade_contract.fields
    ≡ true
unfolding trade_contract is_money
trade_amounts = refl

pub quote_amounts :
    all
      (λ (f : FieldSpec).
        not (is_money f.kind) || in_names f.name ("bid_price_nano" ∷ "ask_price_nano" ∷ []))
      quote_contract.fields
    ≡ true
unfolding quote_contract is_money
quote_amounts = refl

pub only_name : (n : String) → in_names n ("price_nano" ∷ []) ≡ true → "price_nano" ≡ n
only_name n e = (str_eq_iff "price_nano" n).0 (ground arith)

pub two_names :
    (arrow : Arrow) (t : arrow.Table) (n : String)
    → in_names n ("bid_price_nano" ∷ "ask_price_nano" ∷ []) ≡ true
    → All Storable (int_column arrow t "bid_price_nano")
    → All Storable (int_column arrow t "ask_price_nano")
    → All Storable (int_column arrow t n)
two_names arrow t n e b a = elim (Bool-cases (str_eq "bid_price_nano" n)) [
  | inl k ↦ subst (λ m. All Storable (int_column arrow t m)) ((str_eq_iff "bid_price_nano" n).0 k) b
  | inr k ↦
      subst (λ m. All Storable (int_column arrow t m))
        ((str_eq_iff "ask_price_nano" n).0 (ground arith)) a
]
