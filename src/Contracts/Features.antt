-- ===== src/Contracts/Features.antt =====
-- packages/schemas/src/trading/schemas/features.py: the contracts that it declares.
use self_improving_trading_s.Prelude.{pos, [], ◌∷◌, ◌++◌, some}
use self_improving_trading_s.Spec.{
  ContractSpec, provisional, core, timestamp_ns, instrument_id, text, count, ratio, plain, in_unit,
  or_null, time_fields, ordering_fields,
}

-- `FEATURE_VALUE`
unfoldable pub feature_value : ContractSpec
unfolding time_fields ordering_fields
feature_value = record {
  name = "features.value";
  version = pos 1;
  maturity = provisional;
  time_group = some core;
  fields =
      time_fields core
      ++ (plain "feature_id" text
          ∷ plain "feature_version" count
          ∷ plain "instrument_id" instrument_id
          ∷ in_unit "decision_time" timestamp_ns "ns_utc"
          ∷ or_null (plain "value" ratio)
          ∷ []);
}
