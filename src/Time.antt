-- ===== src/Time.antt =====
-- packages/schemas/src/trading/schemas/time.py: the plausibility band of timestamps.
pub mod Rfc3339
pub mod Printed
pub mod Digits
pub mod Matched
pub mod RoundTrip
use self_improving_trading_s.Prelude.{◌*◌, Bool, ◌&&◌, ℤ, pos, leb_ℤ, not, if◌then◌else◌, ℕ}
use self_improving_trading_s.Errors.{Result, ok, err, timestamp_error}

abbrev pub ns_per_second : ℕ
ns_per_second = 1_000_000_000

abbrev pub ns_per_minute : ℕ
ns_per_minute = 60 * ns_per_second

abbrev pub ns_per_hour : ℕ
ns_per_hour = 60 * ns_per_minute

abbrev pub min_plausible_ns : ℤ
min_plausible_ns = pos (946_684_800 * ns_per_second)

abbrev pub max_plausible_ns : ℤ
max_plausible_ns = pos (4_102_444_800 * ns_per_second)

unfoldable pub is_plausible : ℤ → Bool
is_plausible value = leb_ℤ min_plausible_ns value && leb_ℤ value max_plausible_ns

unfoldable pub require_plausible : ℤ → Result ℤ
unfolding is_plausible
require_plausible value = if not (is_plausible value) then err timestamp_error else ok value
