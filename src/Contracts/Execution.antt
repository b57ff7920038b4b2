-- ===== src/Contracts/Execution.antt =====
-- packages/schemas/src/trading/schemas/execution.py: the contracts that it declares.
use self_improving_trading_s.Prelude.{pos, [], ◌∷◌, ◌++◌, some}
use self_improving_trading_s.Spec.{
  ContractSpec, frozen, core, timestamp_ns, nano_dollars, shares, instrument_id, code, text, plain,
  in_unit, coded, or_null, time_fields, ordering_fields,
}

-- `ORDER_INTENT`
unfoldable pub order_intent : ContractSpec
unfolding time_fields ordering_fields
order_intent = record {
  name = "execution.order_intent";
  version = pos 1;
  maturity = frozen;
  time_group = some core;
  fields =
      time_fields core
      ++ (plain "client_order_id" text
          ∷ plain "instrument_id" instrument_id
          ∷ coded "side" code "side_v1"
          ∷ in_unit "quantity_shares" shares "share"
          ∷ or_null (in_unit "limit_price_nano" nano_dollars "nanodollar")
          ∷ coded "order_type" code "order_type_v1"
          ∷ coded "time_in_force" code "tif_v1"
          ∷ in_unit "decision_time" timestamp_ns "ns_utc"
          ∷ plain "strategy_version" text
          ∷ plain "risk_policy_version" text
          ∷ []);
}

-- `ORDER_EVENT`
unfoldable pub order_event : ContractSpec
unfolding time_fields ordering_fields
order_event = record {
  name = "execution.order_event";
  version = pos 1;
  maturity = frozen;
  time_group = some core;
  fields =
      time_fields core
      ++ (plain "client_order_id" text
          ∷ or_null (plain "broker_order_id" text)
          ∷ or_null (plain "broker_exec_id" text)
          ∷ coded "event_type" code "order_event_v1"
          ∷ coded "state" code "order_state_v1"
          ∷ coded "risk_reason" code "risk_reason_v1"
          ∷ plain "strategy_version" text
          ∷ plain "risk_policy_version" text
          ∷ []);
}

-- `FILL`
unfoldable pub fill_contract : ContractSpec
unfolding time_fields ordering_fields
fill_contract = record {
  name = "execution.fill";
  version = pos 1;
  maturity = frozen;
  time_group = some core;
  fields =
      time_fields core
      ++ (plain "client_order_id" text
          ∷ plain "broker_exec_id" text
          ∷ plain "instrument_id" instrument_id
          ∷ coded "side" code "side_v1"
          ∷ in_unit "quantity_shares" shares "share"
          ∷ in_unit "price_nano" nano_dollars "nanodollar"
          ∷ in_unit "commission_nano" nano_dollars "nanodollar"
          ∷ in_unit "regulatory_fees_nano" nano_dollars "nanodollar"
          ∷ in_unit "arrival_price_nano" nano_dollars "nanodollar"
          ∷ []);
}

-- `POSITION`
unfoldable pub position_contract : ContractSpec
unfolding time_fields ordering_fields
position_contract = record {
  name = "execution.position";
  version = pos 1;
  maturity = frozen;
  time_group = some core;
  fields =
      time_fields core
      ++ (plain "instrument_id" instrument_id
          ∷ in_unit "quantity_shares" shares "share"
          ∷ in_unit "average_cost_nano" nano_dollars "nanodollar"
          ∷ in_unit "mark_price_nano" nano_dollars "nanodollar"
          ∷ in_unit "realized_pnl_nano" nano_dollars "nanodollar"
          ∷ in_unit "unrealized_pnl_nano" nano_dollars "nanodollar"
          ∷ []);
}

-- `ACCOUNT_STATE`
unfoldable pub account_state : ContractSpec
unfolding time_fields ordering_fields
account_state = record {
  name = "execution.account_state";
  version = pos 1;
  maturity = frozen;
  time_group = some core;
  fields =
      time_fields core
      ++ (plain "account_id" text
          ∷ in_unit "cash_nano" nano_dollars "nanodollar"
          ∷ in_unit "equity_nano" nano_dollars "nanodollar"
          ∷ in_unit "buying_power_nano" nano_dollars "nanodollar"
          ∷ in_unit "gross_exposure_nano" nano_dollars "nanodollar"
          ∷ in_unit "net_exposure_nano" nano_dollars "nanodollar"
          ∷ coded "operating_state" code "operating_state_v1"
          ∷ []);
}
