-- ===== src/Examples.antt =====
-- The theorems at concrete inputs, and runs of the modelled code on small data.
pub mod Market
pub mod Tables
pub mod Locked
pub mod Stored
pub mod Sealed
pub mod Migrated
pub mod Instants
pub mod Sessions
pub mod Records
pub mod Sources
pub mod Runtime
pub mod Commands
pub mod Documents
use self_improving_trading_s.Prelude.{
  ℕ, ◌≡◌, refl, ◌≢◌, ◌⊎◌, inl, inr, Bool, true, false, Option, none, some, List, [], ◌∷◌, String, ℤ,
  pos, negsuc, arith, All, Any, ◌↔◌, lookup, if◌then◌else◌, in_names, ◌≤ℤ◌, ◌<ℤ◌, ◌+ℤ◌, floor_div,
  floor_mod, ◌*ℤ◌, ◌-ℤ◌,
}
use self_improving_trading_s.Errors.{
  Result, ok, err, ok-injective, live_trading_not_enabled, invalid_transition, key_error,
  decimal_overflow,
}
use self_improving_trading_s.OperatingState.{
  OperatingState, off, research, shadow, paper, canary, live, safe, require_transition_allowed,
  is_capital_at_risk,
}
use self_improving_trading_s.OperatingState.Reach.{
  ◌⟶◌, ◌⟶*◌, here, next, guard-iff_⟶, capital_unreachable, safe_always,
}
use self_improving_trading_s.Decimal.{Decimal}
use self_improving_trading_s.Money.Dollars.{IsAmount, dollars_iff}
use self_improving_trading_s.Fraction.{Fraction, of_int, mul_frac, abs_lt_one, sub_int}
use self_improving_trading_s.Money.{
  dollars, RoundedMoney, round_cost, round_credit, round_against_us, rounded_value, apply_rate,
  storable_min, storable_max, narrow, rounded_money,
}
use self_improving_trading_s.Money.Sides.{AwayFromZero, TowardZero}
use self_improving_trading_s.Money.Rounding.{
  IsRounding, AgainstUs, round_cost_lem, round_credit_lem, apply_rate_lem, RoundingOutcome,
  rounding_total,
}
use self_improving_trading_s.Ordering.{OrderingKey, is_strictly_after, before_all, after_all}
use self_improving_trading_s.Ordering.Total.{
  Trichotomy, is_strictly_after_total, IsReal, real_between,
}
use self_improving_trading_s.Spec.{FieldSpec, check_contract, field, field_names}
use self_improving_trading_s.Spec.Lookup.{field_lem}
use self_improving_trading_s.Determinism.{pinned_env, require_deterministic_environment}
use self_improving_trading_s.Determinism.Pinned.{IsPinned, require_deterministic_environment_iff}
use self_improving_trading_s.Contracts.Market.{trade_contract}

-- 2.5 nano-dollars
abbrev two_and_half : Fraction
two_and_half = record { numerator = pos 5; den_pred = 1 }

abbrev minus_two_and_half : Fraction
minus_two_and_half = record { numerator = negsuc 4; den_pred = 1 }

round_cost_run :
    round_cost two_and_half
    ≡ ok (record { value = pos 3; remainder = record { numerator = negsuc 0; den_pred = 1 } })
unfolding round_cost round_against_us narrow rounded_value floor_mod ◌+ℤ◌ floor_div rounded_money
    abs_lt_one sub_int ◌-ℤ◌ ◌*ℤ◌
round_cost_run = refl

round_credit_run :
    round_credit minus_two_and_half
    ≡ ok (record { value = negsuc 1; remainder = record { numerator = negsuc 0; den_pred = 1 } })
unfolding round_credit round_against_us narrow rounded_value floor_mod ◌+ℤ◌ floor_div rounded_money
    abs_lt_one sub_int ◌-ℤ◌ ◌*ℤ◌
round_credit_run = refl

round_cost_lem_example :
    IsRounding two_and_half
      (record { value = pos 3; remainder = record { numerator = negsuc 0; den_pred = 1 } })
    × AwayFromZero two_and_half (pos 3)
round_cost_lem_example = round_cost_lem two_and_half round_cost_run

abbrev price : Decimal
price = record { negative = false; coefficient = 10125; exponent = negsuc 1 }

dollars_iff_example : (dollars price ≡ ok (pos 101_250_000_000)) ↔ (
    IsAmount price (pos 101_250_000_000)
    × (storable_min ≤ℤ pos 101_250_000_000)
    × (pos 101_250_000_000 ≤ℤ storable_max))
dollars_iff_example =
    dollars_iff price (pos 101_250_000_000) (omega arith) (omega arith) (omega arith)

-- 1.0000000000000000000000000001 dollars: the product is rounded to 28 digits and passes as whole.
long_amount_run :
    dollars (record {
      negative = false;
      coefficient = 10_000_000_000_000_000_000_000_000_001;
      exponent = negsuc 27;
    })
    ≡ ok (pos 1_000_000_000)
unfolding dollars ◌+ℤ◌ ◌-ℤ◌ narrow
long_amount_run = refl

-- An amount above the exponents of the decimal context raises.
huge_amount_run :
    dollars (record { negative = false; coefficient = 1; exponent = pos 999_999 })
    ≡ err decimal_overflow
unfolding dollars ◌+ℤ◌ ◌-ℤ◌ narrow
huge_amount_run = refl

-- A fee of 2.5 per cent of 1.01 nano-dollars times 100.
abbrev fee_rate : Fraction
fee_rate = record { numerator = pos 25; den_pred = 999 }

abbrev fee : RoundedMoney
fee = record { value = pos 3; remainder = record { numerator = negsuc 474; den_pred = 999 } }

apply_rate_run : apply_rate (pos 101) fee_rate false ≡ ok fee
unfolding apply_rate round_cost round_against_us narrow rounded_value floor_mod mul_frac ◌*ℤ◌ of_int
    ◌+ℤ◌ floor_div rounded_money abs_lt_one sub_int ◌-ℤ◌
apply_rate_run = refl

rounding_total_example :
    RoundingOutcome (rounded_value two_and_half true) (round_against_us two_and_half true)
rounding_total_example = rounding_total two_and_half true

guard-iff_⟶_example :
    (require_transition_allowed paper canary ≡ ok tt)
    ↔ ((paper ⟶ canary) × ((paper ≡ canary) ⊎ (is_capital_at_risk canary ≡ false)))
guard-iff_⟶_example = guard-iff_⟶ paper canary

no_jump : ¬ (off ⟶ paper)
unfolding is_capital_at_risk
no_jump h = cc ((guard-iff_⟶ off paper).1 (h, inr refl), refused)
  where
    refused : require_transition_allowed off paper ≡ err invalid_transition
    refused = unfold require_transition_allowed in refl

risk_free : (s : OperatingState) → s ≡ paper → is_capital_at_risk s ≡ false
unfolding is_capital_at_risk
risk_free s e = rw e refl

to_paper : shadow ⟶* paper
unfolding require_transition_allowed
to_paper = next here refl

shadow_free : is_capital_at_risk shadow ≡ false
unfolding is_capital_at_risk
shadow_free = refl

paper_free : is_capital_at_risk paper ≡ false
unfolding is_capital_at_risk
paper_free = refl

capital_unreachable_example : is_capital_at_risk paper ≡ false
capital_unreachable_example = capital_unreachable to_paper shadow_free

safe_always_example : (require_transition_allowed live safe ≡ ok tt) × (live ⟶* paper)
safe_always_example = safe_always live paper paper_free

-- Three keys of one instant.
abbrev first_key : OrderingKey
first_key = record {
  event_time = pos 1000;
  source_rank = pos 4;
  vendor_sequence = pos 7;
  venue_sequence = negsuc 0;
  ingest_index = pos 0;
}

abbrev second_key : OrderingKey
second_key = record first_key { vendor_sequence = pos 8; ingest_index = pos 1 }

abbrev local_env : List (String × String)
local_env = ("TZ", "UTC") ∷ ("PYTHONHASHSEED", "0") ∷ []

require_deterministic_environment_iff_example :
    (require_deterministic_environment local_env ≡ ok tt) ↔ All (IsPinned local_env) pinned_env
require_deterministic_environment_iff_example = require_deterministic_environment_iff local_env

first_key-IsReal : IsReal first_key
first_key-IsReal = record {
  time_above = omega arith;
  time_below = omega arith;
  rank_above = omega arith;
  rank_below = omega arith;
  vendor_above = omega arith;
  vendor_below = omega arith;
  venue_above = omega arith;
  venue_below = omega arith;
  index_above = omega arith;
  index_below = omega arith;
}

trade_checked : check_contract trade_contract ≡ ok tt
unfolding check_contract trade_contract
trade_checked = refl
