-- ===== src/Examples/Locked.antt =====
-- The texts of packages/schemas/registry/contracts.json are those of the modelled contracts.
use self_improving_trading_s.Prelude.{◌≡◌, refl}
use self_improving_trading_s.Spec.Canonical.{
  canonical_form, field_line, group_value, int_text, kind_value, maturity_value, padded,
}
use self_improving_trading_s.Contracts.Market.{
  trade_contract, quote_contract, bar_contract, trading_status, corporate_action, calendar_session,
  borrow_contract,
}
use self_improving_trading_s.Contracts.Reference.{instrument_contract, ticker_history}
use self_improving_trading_s.Contracts.Execution.{
  order_intent, order_event, fill_contract, position_contract, account_state,
}
use self_improving_trading_s.Contracts.Features.{feature_value}

trade_contract_text :
    canonical_form trade_contract
    ≡ "contract=normalized.trade\nversion=1\nmaturity=frozen\ntime_group=core\nfield=000:event_time:timestamp_ns:required:unit=ns_utc:codeset=\nfield=001:receive_time:timestamp_ns:required:unit=ns_utc:codeset=\nfield=002:process_time:timestamp_ns:required:unit=ns_utc:codeset=\nfield=003:knowledge_time:timestamp_ns:required:unit=ns_utc:codeset=\nfield=004:revision_time:timestamp_ns:nullable:unit=ns_utc:codeset=\nfield=005:source_rank:count:required:unit=:codeset=\nfield=006:vendor_sequence:sequence:required:unit=:codeset=\nfield=007:venue_sequence:sequence:required:unit=:codeset=\nfield=008:ingest_index:sequence:required:unit=:codeset=\nfield=009:raw_partition_id:text:required:unit=:codeset=\nfield=010:event_time_source:code:required:unit=:codeset=event_time_source_v1\nfield=011:instrument_id:instrument_id:required:unit=:codeset=\nfield=012:price_nano:nano_dollars:required:unit=nanodollar:codeset=\nfield=013:size_shares:shares:required:unit=share:codeset=\nfield=014:exchange:code:required:unit=:codeset=exchange_v1\nfield=015:conditions:conditions:required:unit=:codeset=trade_condition_v1\nfield=016:trade_id:text:required:unit=:codeset=\nfield=017:tape:tape:required:unit=:codeset=tape_v1\nfield=018:is_cancelled:bool:required:unit=:codeset=\n"
unfolding canonical_form trade_contract int_text maturity_value group_value field_line padded
    kind_value
trade_contract_text = refl

quote_contract_text :
    canonical_form quote_contract
    ≡ "contract=normalized.quote\nversion=1\nmaturity=frozen\ntime_group=core\nfield=000:event_time:timestamp_ns:required:unit=ns_utc:codeset=\nfield=001:receive_time:timestamp_ns:required:unit=ns_utc:codeset=\nfield=002:process_time:timestamp_ns:required:unit=ns_utc:codeset=\nfield=003:knowledge_time:timestamp_ns:required:unit=ns_utc:codeset=\nfield=004:revision_time:timestamp_ns:nullable:unit=ns_utc:codeset=\nfield=005:source_rank:count:required:unit=:codeset=\nfield=006:vendor_sequence:sequence:required:unit=:codeset=\nfield=007:venue_sequence:sequence:required:unit=:codeset=\nfield=008:ingest_index:sequence:required:unit=:codeset=\nfield=009:raw_partition_id:text:required:unit=:codeset=\nfield=010:event_time_source:code:required:unit=:codeset=event_time_source_v1\nfield=011:instrument_id:instrument_id:required:unit=:codeset=\nfield=012:bid_price_nano:nano_dollars:required:unit=nanodollar:codeset=\nfield=013:bid_size_shares:shares:required:unit=share:codeset=\nfield=014:bid_exchange:code:required:unit=:codeset=exchange_v1\nfield=015:ask_price_nano:nano_dollars:required:unit=nanodollar:codeset=\nfield=016:ask_size_shares:shares:required:unit=share:codeset=\nfield=017:ask_exchange:code:required:unit=:codeset=exchange_v1\nfield=018:conditions:conditions:required:unit=:codeset=quote_condition_v1\nfield=019:tape:tape:required:unit=:codeset=tape_v1\nfield=020:venue_coverage:code:required:unit=:codeset=venue_coverage_v1\n"
unfolding canonical_form quote_contract int_text maturity_value group_value field_line padded
    kind_value
quote_contract_text = refl

bar_contract_text :
    canonical_form bar_contract
    ≡ "contract=normalized.bar\nversion=1\nmaturity=frozen\ntime_group=core\nfield=000:event_time:timestamp_ns:required:unit=ns_utc:codeset=\nfield=001:receive_time:timestamp_ns:required:unit=ns_utc:codeset=\nfield=002:process_time:timestamp_ns:required:unit=ns_utc:codeset=\nfield=003:knowledge_time:timestamp_ns:required:unit=ns_utc:codeset=\nfield=004:revision_time:timestamp_ns:nullable:unit=ns_utc:codeset=\nfield=005:source_rank:count:required:unit=:codeset=\nfield=006:vendor_sequence:sequence:required:unit=:codeset=\nfield=007:venue_sequence:sequence:required:unit=:codeset=\nfield=008:ingest_index:sequence:required:unit=:codeset=\nfield=009:raw_partition_id:text:required:unit=:codeset=\nfield=010:event_time_source:code:required:unit=:codeset=event_time_source_v1\nfield=011:instrument_id:instrument_id:required:unit=:codeset=\nfield=012:window_ns:sequence:required:unit=:codeset=\nfield=013:open_nano:nano_dollars:required:unit=nanodollar:codeset=\nfield=014:high_nano:nano_dollars:required:unit=nanodollar:codeset=\nfield=015:low_nano:nano_dollars:required:unit=nanodollar:codeset=\nfield=016:close_nano:nano_dollars:required:unit=nanodollar:codeset=\nfield=017:volume_shares:shares:required:unit=share:codeset=\nfield=018:vwap_nano:nano_dollars:required:unit=nanodollar:codeset=\nfield=019:trade_count:count:required:unit=:codeset=\nfield=020:is_complete:bool:required:unit=:codeset=\n"
unfolding canonical_form bar_contract int_text maturity_value group_value field_line padded
    kind_value
bar_contract_text = refl

trading_status_text :
    canonical_form trading_status
    ≡ "contract=normalized.trading_status\nversion=1\nmaturity=frozen\ntime_group=core\nfield=000:event_time:timestamp_ns:required:unit=ns_utc:codeset=\nfield=001:receive_time:timestamp_ns:required:unit=ns_utc:codeset=\nfield=002:process_time:timestamp_ns:required:unit=ns_utc:codeset=\nfield=003:knowledge_time:timestamp_ns:required:unit=ns_utc:codeset=\nfield=004:revision_time:timestamp_ns:nullable:unit=ns_utc:codeset=\nfield=005:source_rank:count:required:unit=:codeset=\nfield=006:vendor_sequence:sequence:required:unit=:codeset=\nfield=007:venue_sequence:sequence:required:unit=:codeset=\nfield=008:ingest_index:sequence:required:unit=:codeset=\nfield=009:raw_partition_id:text:required:unit=:codeset=\nfield=010:event_time_source:code:required:unit=:codeset=event_time_source_v1\nfield=011:instrument_id:instrument_id:required:unit=:codeset=\nfield=012:status:code:required:unit=:codeset=trading_status_v1\nfield=013:reason:code:required:unit=:codeset=halt_reason_v1\nfield=014:resume_time:timestamp_ns:nullable:unit=ns_utc:codeset=\nfield=015:luld_upper_nano:nano_dollars:nullable:unit=nanodollar:codeset=\nfield=016:luld_lower_nano:nano_dollars:nullable:unit=nanodollar:codeset=\n"
unfolding canonical_form trading_status int_text maturity_value group_value field_line padded
    kind_value
trading_status_text = refl

corporate_action_text :
    canonical_form corporate_action
    ≡ "contract=reference.corporate_action\nversion=1\nmaturity=frozen\ntime_group=effective\nfield=000:event_time:timestamp_ns:required:unit=ns_utc:codeset=\nfield=001:receive_time:timestamp_ns:required:unit=ns_utc:codeset=\nfield=002:process_time:timestamp_ns:required:unit=ns_utc:codeset=\nfield=003:knowledge_time:timestamp_ns:required:unit=ns_utc:codeset=\nfield=004:effective_time:timestamp_ns:required:unit=ns_utc:codeset=\nfield=005:revision_time:timestamp_ns:nullable:unit=ns_utc:codeset=\nfield=006:instrument_id:instrument_id:required:unit=:codeset=\nfield=007:action_type:code:required:unit=:codeset=corporate_action_v1\nfield=008:announcement_time:timestamp_ns:required:unit=ns_utc:codeset=\nfield=009:split_numerator:count:nullable:unit=:codeset=\nfield=010:split_denominator:count:nullable:unit=:codeset=\nfield=011:cash_amount_nano:nano_dollars:nullable:unit=nanodollar:codeset=\nfield=012:new_ticker:text:nullable:unit=:codeset=\n"
unfolding canonical_form corporate_action int_text maturity_value group_value field_line padded
    kind_value
corporate_action_text = refl

calendar_session_text :
    canonical_form calendar_session
    ≡ "contract=reference.calendar_session\nversion=1\nmaturity=frozen\ntime_group=effective\nfield=000:event_time:timestamp_ns:required:unit=ns_utc:codeset=\nfield=001:receive_time:timestamp_ns:required:unit=ns_utc:codeset=\nfield=002:process_time:timestamp_ns:required:unit=ns_utc:codeset=\nfield=003:knowledge_time:timestamp_ns:required:unit=ns_utc:codeset=\nfield=004:effective_time:timestamp_ns:required:unit=ns_utc:codeset=\nfield=005:revision_time:timestamp_ns:nullable:unit=ns_utc:codeset=\nfield=006:session_date:date:required:unit=:codeset=\nfield=007:is_trading_day:bool:required:unit=:codeset=\nfield=008:regular_open_ns:timestamp_ns:nullable:unit=ns_utc:codeset=\nfield=009:regular_close_ns:timestamp_ns:nullable:unit=ns_utc:codeset=\nfield=010:is_early_close:bool:required:unit=:codeset=\nfield=011:opening_auction_ns:timestamp_ns:nullable:unit=ns_utc:codeset=\nfield=012:closing_auction_ns:timestamp_ns:nullable:unit=ns_utc:codeset=\n"
unfolding canonical_form calendar_session int_text maturity_value group_value field_line padded
    kind_value
calendar_session_text = refl

borrow_contract_text :
    canonical_form borrow_contract
    ≡ "contract=reference.borrow\nversion=1\nmaturity=frozen\ntime_group=effective\nfield=000:event_time:timestamp_ns:required:unit=ns_utc:codeset=\nfield=001:receive_time:timestamp_ns:required:unit=ns_utc:codeset=\nfield=002:process_time:timestamp_ns:required:unit=ns_utc:codeset=\nfield=003:knowledge_time:timestamp_ns:required:unit=ns_utc:codeset=\nfield=004:effective_time:timestamp_ns:required:unit=ns_utc:codeset=\nfield=005:revision_time:timestamp_ns:nullable:unit=ns_utc:codeset=\nfield=006:instrument_id:instrument_id:required:unit=:codeset=\nfield=007:is_shortable:bool:required:unit=:codeset=\nfield=008:available_shares:shares:nullable:unit=share:codeset=\nfield=009:borrow_fee_annual_bps:ratio:required:unit=:codeset=\nfield=010:locate_state:code:required:unit=:codeset=locate_state_v1\nfield=011:rule_201_restricted:bool:required:unit=:codeset=\n"
unfolding canonical_form borrow_contract int_text maturity_value group_value field_line padded
    kind_value
borrow_contract_text = refl

instrument_contract_text :
    canonical_form instrument_contract
    ≡ "contract=reference.instrument\nversion=1\nmaturity=frozen\ntime_group=effective\nfield=000:event_time:timestamp_ns:required:unit=ns_utc:codeset=\nfield=001:receive_time:timestamp_ns:required:unit=ns_utc:codeset=\nfield=002:process_time:timestamp_ns:required:unit=ns_utc:codeset=\nfield=003:knowledge_time:timestamp_ns:required:unit=ns_utc:codeset=\nfield=004:effective_time:timestamp_ns:required:unit=ns_utc:codeset=\nfield=005:revision_time:timestamp_ns:nullable:unit=ns_utc:codeset=\nfield=006:instrument_id:instrument_id:required:unit=:codeset=\nfield=007:primary_exchange:code:required:unit=:codeset=exchange_v1\nfield=008:security_type:code:required:unit=:codeset=security_type_v1\nfield=009:lot_size:count:required:unit=:codeset=\nfield=010:is_tradable:bool:required:unit=:codeset=\n"
unfolding canonical_form instrument_contract int_text maturity_value group_value field_line padded
    kind_value
instrument_contract_text = refl

ticker_history_text :
    canonical_form ticker_history
    ≡ "contract=reference.ticker_history\nversion=1\nmaturity=frozen\ntime_group=effective\nfield=000:event_time:timestamp_ns:required:unit=ns_utc:codeset=\nfield=001:receive_time:timestamp_ns:required:unit=ns_utc:codeset=\nfield=002:process_time:timestamp_ns:required:unit=ns_utc:codeset=\nfield=003:knowledge_time:timestamp_ns:required:unit=ns_utc:codeset=\nfield=004:effective_time:timestamp_ns:required:unit=ns_utc:codeset=\nfield=005:revision_time:timestamp_ns:nullable:unit=ns_utc:codeset=\nfield=006:instrument_id:instrument_id:required:unit=:codeset=\nfield=007:ticker:text:required:unit=:codeset=\nfield=008:end_time:timestamp_ns:nullable:unit=ns_utc:codeset=\n"
unfolding canonical_form ticker_history int_text maturity_value group_value field_line padded
    kind_value
ticker_history_text = refl

order_intent_text :
    canonical_form order_intent
    ≡ "contract=execution.order_intent\nversion=1\nmaturity=frozen\ntime_group=core\nfield=000:event_time:timestamp_ns:required:unit=ns_utc:codeset=\nfield=001:receive_time:timestamp_ns:required:unit=ns_utc:codeset=\nfield=002:process_time:timestamp_ns:required:unit=ns_utc:codeset=\nfield=003:knowledge_time:timestamp_ns:required:unit=ns_utc:codeset=\nfield=004:revision_time:timestamp_ns:nullable:unit=ns_utc:codeset=\nfield=005:client_order_id:text:required:unit=:codeset=\nfield=006:instrument_id:instrument_id:required:unit=:codeset=\nfield=007:side:code:required:unit=:codeset=side_v1\nfield=008:quantity_shares:shares:required:unit=share:codeset=\nfield=009:limit_price_nano:nano_dollars:nullable:unit=nanodollar:codeset=\nfield=010:order_type:code:required:unit=:codeset=order_type_v1\nfield=011:time_in_force:code:required:unit=:codeset=tif_v1\nfield=012:decision_time:timestamp_ns:required:unit=ns_utc:codeset=\nfield=013:strategy_version:text:required:unit=:codeset=\nfield=014:risk_policy_version:text:required:unit=:codeset=\n"
unfolding canonical_form order_intent int_text maturity_value group_value field_line padded
    kind_value
order_intent_text = refl

order_event_text :
    canonical_form order_event
    ≡ "contract=execution.order_event\nversion=1\nmaturity=frozen\ntime_group=core\nfield=000:event_time:timestamp_ns:required:unit=ns_utc:codeset=\nfield=001:receive_time:timestamp_ns:required:unit=ns_utc:codeset=\nfield=002:process_time:timestamp_ns:required:unit=ns_utc:codeset=\nfield=003:knowledge_time:timestamp_ns:required:unit=ns_utc:codeset=\nfield=004:revision_time:timestamp_ns:nullable:unit=ns_utc:codeset=\nfield=005:client_order_id:text:required:unit=:codeset=\nfield=006:broker_order_id:text:nullable:unit=:codeset=\nfield=007:broker_exec_id:text:nullable:unit=:codeset=\nfield=008:event_type:code:required:unit=:codeset=order_event_v1\nfield=009:state:code:required:unit=:codeset=order_state_v1\nfield=010:risk_reason:code:required:unit=:codeset=risk_reason_v1\nfield=011:strategy_version:text:required:unit=:codeset=\nfield=012:risk_policy_version:text:required:unit=:codeset=\n"
unfolding canonical_form order_event int_text maturity_value group_value field_line padded
    kind_value
order_event_text = refl

fill_contract_text :
    canonical_form fill_contract
    ≡ "contract=execution.fill\nversion=1\nmaturity=frozen\ntime_group=core\nfield=000:event_time:timestamp_ns:required:unit=ns_utc:codeset=\nfield=001:receive_time:timestamp_ns:required:unit=ns_utc:codeset=\nfield=002:process_time:timestamp_ns:required:unit=ns_utc:codeset=\nfield=003:knowledge_time:timestamp_ns:required:unit=ns_utc:codeset=\nfield=004:revision_time:timestamp_ns:nullable:unit=ns_utc:codeset=\nfield=005:client_order_id:text:required:unit=:codeset=\nfield=006:broker_exec_id:text:required:unit=:codeset=\nfield=007:instrument_id:instrument_id:required:unit=:codeset=\nfield=008:side:code:required:unit=:codeset=side_v1\nfield=009:quantity_shares:shares:required:unit=share:codeset=\nfield=010:price_nano:nano_dollars:required:unit=nanodollar:codeset=\nfield=011:commission_nano:nano_dollars:required:unit=nanodollar:codeset=\nfield=012:regulatory_fees_nano:nano_dollars:required:unit=nanodollar:codeset=\nfield=013:arrival_price_nano:nano_dollars:required:unit=nanodollar:codeset=\n"
unfolding canonical_form fill_contract int_text maturity_value group_value field_line padded
    kind_value
fill_contract_text = refl

position_contract_text :
    canonical_form position_contract
    ≡ "contract=execution.position\nversion=1\nmaturity=frozen\ntime_group=core\nfield=000:event_time:timestamp_ns:required:unit=ns_utc:codeset=\nfield=001:receive_time:timestamp_ns:required:unit=ns_utc:codeset=\nfield=002:process_time:timestamp_ns:required:unit=ns_utc:codeset=\nfield=003:knowledge_time:timestamp_ns:required:unit=ns_utc:codeset=\nfield=004:revision_time:timestamp_ns:nullable:unit=ns_utc:codeset=\nfield=005:instrument_id:instrument_id:required:unit=:codeset=\nfield=006:quantity_shares:shares:required:unit=share:codeset=\nfield=007:average_cost_nano:nano_dollars:required:unit=nanodollar:codeset=\nfield=008:mark_price_nano:nano_dollars:required:unit=nanodollar:codeset=\nfield=009:realized_pnl_nano:nano_dollars:required:unit=nanodollar:codeset=\nfield=010:unrealized_pnl_nano:nano_dollars:required:unit=nanodollar:codeset=\n"
unfolding canonical_form position_contract int_text maturity_value group_value field_line padded
    kind_value
position_contract_text = refl

account_state_text :
    canonical_form account_state
    ≡ "contract=execution.account_state\nversion=1\nmaturity=frozen\ntime_group=core\nfield=000:event_time:timestamp_ns:required:unit=ns_utc:codeset=\nfield=001:receive_time:timestamp_ns:required:unit=ns_utc:codeset=\nfield=002:process_time:timestamp_ns:required:unit=ns_utc:codeset=\nfield=003:knowledge_time:timestamp_ns:required:unit=ns_utc:codeset=\nfield=004:revision_time:timestamp_ns:nullable:unit=ns_utc:codeset=\nfield=005:account_id:text:required:unit=:codeset=\nfield=006:cash_nano:nano_dollars:required:unit=nanodollar:codeset=\nfield=007:equity_nano:nano_dollars:required:unit=nanodollar:codeset=\nfield=008:buying_power_nano:nano_dollars:required:unit=nanodollar:codeset=\nfield=009:gross_exposure_nano:nano_dollars:required:unit=nanodollar:codeset=\nfield=010:net_exposure_nano:nano_dollars:required:unit=nanodollar:codeset=\nfield=011:operating_state:code:required:unit=:codeset=operating_state_v1\n"
unfolding canonical_form account_state int_text maturity_value group_value field_line padded
    kind_value
account_state_text = refl

feature_value_text :
    canonical_form feature_value
    ≡ "contract=features.value\nversion=1\nmaturity=provisional\ntime_group=core\nfield=000:event_time:timestamp_ns:required:unit=ns_utc:codeset=\nfield=001:receive_time:timestamp_ns:required:unit=ns_utc:codeset=\nfield=002:process_time:timestamp_ns:required:unit=ns_utc:codeset=\nfield=003:knowledge_time:timestamp_ns:required:unit=ns_utc:codeset=\nfield=004:revision_time:timestamp_ns:nullable:unit=ns_utc:codeset=\nfield=005:feature_id:text:required:unit=:codeset=\nfield=006:feature_version:count:required:unit=:codeset=\nfield=007:instrument_id:instrument_id:required:unit=:codeset=\nfield=008:decision_time:timestamp_ns:required:unit=ns_utc:codeset=\nfield=009:value:ratio:nullable:unit=:codeset=\n"
unfolding canonical_form feature_value int_text maturity_value group_value field_line padded
    kind_value
feature_value_text = refl
