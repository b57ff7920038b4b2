-- ===== src/Contracts/Reference.antt =====
-- packages/schemas/src/trading/schemas/instrument.py: the contracts that it declares.
use self_improving_trading_s.Prelude.{pos, [], ◌∷◌, ◌++◌, some}
use self_improving_trading_s.Spec.{
  ContractSpec, frozen, effective, timestamp_ns, instrument_id, code, text, count, bool, plain,
  in_unit, coded, or_null, time_fields, ordering_fields,
}

-- `INSTRUMENT`
unfoldable pub instrument_contract : ContractSpec
unfolding time_fields ordering_fields
instrument_contract = record {
  name = "reference.instrument";
  version = pos 1;
  maturity = frozen;
  time_group = some effective;
  fields =
      time_fields effective
      ++ (plain "instrument_id" instrument_id
          ∷ coded "primary_exchange" code "exchange_v1"
          ∷ coded "security_type" code "security_type_v1"
          ∷ plain "lot_size" count
          ∷ plain "is_tradable" bool
          ∷ []);
}

-- `TICKER_HISTORY`
unfoldable pub ticker_history : ContractSpec
unfolding time_fields ordering_fields
ticker_history = record {
  name = "reference.ticker_history";
  version = pos 1;
  maturity = frozen;
  time_group = some effective;
  fields =
      time_fields effective
      ++ (plain "instrument_id" instrument_id
          ∷ plain "ticker" text
          ∷ or_null (in_unit "end_time" timestamp_ns "ns_utc")
          ∷ []);
}
