-- ===== src/Contracts/Market.antt =====
-- packages/schemas/src/trading/schemas/market_events.py: the contracts that it declares.
use self_improving_trading_s.Prelude.{pos, [], ◌∷◌, ◌++◌, some}
use self_improving_trading_s.Spec.{
  ContractSpec, frozen, core, effective, timestamp_ns, nano_dollars, shares, instrument_id, code,
  conditions, tape, sequence, text, count, bool, ratio, date, plain, in_unit, coded, or_null,
  time_fields, ordering_fields,
}

-- `TRADE`
unfoldable pub trade_contract : ContractSpec
unfolding time_fields ordering_fields
trade_contract = record {
  name = "normalized.trade";
  version = pos 1;
  maturity = frozen;
  time_group = some core;
  fields =
      time_fields core
      ++ (ordering_fields
          ++ (plain "instrument_id" instrument_id
              ∷ in_unit "price_nano" nano_dollars "nanodollar"
              ∷ in_unit "size_shares" shares "share"
              ∷ coded "exchange" code "exchange_v1"
              ∷ coded "conditions" conditions "trade_condition_v1"
              ∷ plain "trade_id" text
              ∷ coded "tape" tape "tape_v1"
              ∷ plain "is_cancelled" bool
              ∷ []));
}

-- `QUOTE`
unfoldable pub quote_contract : ContractSpec
unfolding time_fields ordering_fields
quote_contract = record {
  name = "normalized.quote";
  version = pos 1;
  maturity = frozen;
  time_group = some core;
  fields =
      time_fields core
      ++ (ordering_fields
          ++ (plain "instrument_id" instrument_id
              ∷ in_unit "bid_price_nano" nano_dollars "nanodollar"
              ∷ in_unit "bid_size_shares" shares "share"
              ∷ coded "bid_exchange" code "exchange_v1"
              ∷ in_unit "ask_price_nano" nano_dollars "nanodollar"
              ∷ in_unit "ask_size_shares" shares "share"
              ∷ coded "ask_exchange" code "exchange_v1"
              ∷ coded "conditions" conditions "quote_condition_v1"
              ∷ coded "tape" tape "tape_v1"
              ∷ coded "venue_coverage" code "venue_coverage_v1"
              ∷ []));
}

-- `BAR`
unfoldable pub bar_contract : ContractSpec
unfolding time_fields ordering_fields
bar_contract = record {
  name = "normalized.bar";
  version = pos 1;
  maturity = frozen;
  time_group = some core;
  fields =
      time_fields core
      ++ (ordering_fields
          ++ (plain "instrument_id" instrument_id
              ∷ plain "window_ns" sequence
              ∷ in_unit "open_nano" nano_dollars "nanodollar"
              ∷ in_unit "high_nano" nano_dollars "nanodollar"
              ∷ in_unit "low_nano" nano_dollars "nanodollar"
              ∷ in_unit "close_nano" nano_dollars "nanodollar"
              ∷ in_unit "volume_shares" shares "share"
              ∷ in_unit "vwap_nano" nano_dollars "nanodollar"
              ∷ plain "trade_count" count
              ∷ plain "is_complete" bool
              ∷ []));
}

-- `TRADING_STATUS`
unfoldable pub trading_status : ContractSpec
unfolding time_fields ordering_fields
trading_status = record {
  name = "normalized.trading_status";
  version = pos 1;
  maturity = frozen;
  time_group = some core;
  fields =
      time_fields core
      ++ (ordering_fields
          ++ (plain "instrument_id" instrument_id
              ∷ coded "status" code "trading_status_v1"
              ∷ coded "reason" code "halt_reason_v1"
              ∷ or_null (in_unit "resume_time" timestamp_ns "ns_utc")
              ∷ or_null (in_unit "luld_upper_nano" nano_dollars "nanodollar")
              ∷ or_null (in_unit "luld_lower_nano" nano_dollars "nanodollar")
              ∷ []));
}

-- `CORPORATE_ACTION`
unfoldable pub corporate_action : ContractSpec
unfolding time_fields ordering_fields
corporate_action = record {
  name = "reference.corporate_action";
  version = pos 1;
  maturity = frozen;
  time_group = some effective;
  fields =
      time_fields effective
      ++ (plain "instrument_id" instrument_id
          ∷ coded "action_type" code "corporate_action_v1"
          ∷ in_unit "announcement_time" timestamp_ns "ns_utc"
          ∷ or_null (plain "split_numerator" count)
          ∷ or_null (plain "split_denominator" count)
          ∷ or_null (in_unit "cash_amount_nano" nano_dollars "nanodollar")
          ∷ or_null (plain "new_ticker" text)
          ∷ []);
}

-- `CALENDAR_SESSION`
unfoldable pub calendar_session : ContractSpec
unfolding time_fields ordering_fields
calendar_session = record {
  name = "reference.calendar_session";
  version = pos 1;
  maturity = frozen;
  time_group = some effective;
  fields =
      time_fields effective
      ++ (plain "session_date" date
          ∷ plain "is_trading_day" bool
          ∷ or_null (in_unit "regular_open_ns" timestamp_ns "ns_utc")
          ∷ or_null (in_unit "regular_close_ns" timestamp_ns "ns_utc")
          ∷ plain "is_early_close" bool
          ∷ or_null (in_unit "opening_auction_ns" timestamp_ns "ns_utc")
          ∷ or_null (in_unit "closing_auction_ns" timestamp_ns "ns_utc")
          ∷ []);
}

-- `BORROW`
unfoldable pub borrow_contract : ContractSpec
unfolding time_fields ordering_fields
borrow_contract = record {
  name = "reference.borrow";
  version = pos 1;
  maturity = frozen;
  time_group = some effective;
  fields =
      time_fields effective
      ++ (plain "instrument_id" instrument_id
          ∷ plain "is_shortable" bool
          ∷ or_null (in_unit "available_shares" shares "share")
          ∷ plain "borrow_fee_annual_bps" ratio
          ∷ coded "locate_state" code "locate_state_v1"
          ∷ plain "rule_201_restricted" bool
          ∷ []);
}
