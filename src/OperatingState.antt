-- ===== src/OperatingState.antt =====
-- packages/schemas/src/trading/schemas/operating_state.py: the operating states and the guard that
-- every transition goes through. The proofs are in the module below.
pub mod Reach
use self_improving_trading_s.Prelude.{Bool, true, false, List, [], ◌∷◌, ◌||◌, if◌then◌else◌, not}
use native.Mathlib.Decide.{ℕ_discrete}
use mathlib.Core.Bool.{decide}
use self_improving_trading_s.Errors.{Result, ok, err, live_trading_not_enabled, invalid_transition}

-- `OperatingState`
pub data OperatingState : Type 0 where
  off research shadow paper canary live safe : OperatingState

-- `is` of two states: members of an enumeration are single objects.
unfoldable pub is_state : OperatingState → OperatingState → Bool
is_state off off = true
is_state research research = true
is_state shadow shadow = true
is_state paper paper = true
is_state canary canary = true
is_state live live = true
is_state safe safe = true
is_state _ _ = false

unfoldable pub is_in : OperatingState → List OperatingState → Bool
unfolding is_state
is_in s [] = false
is_in s (t ∷ ts) = is_state s t || is_in s ts

-- `CAPITAL_STATES`
abbrev pub capital_states : List OperatingState
capital_states = canary ∷ live ∷ []

-- `_ALLOWED`
unfoldable pub allowed : OperatingState → List OperatingState
allowed off = research ∷ []
allowed research = shadow ∷ off ∷ []
allowed shadow = paper ∷ research ∷ []
allowed paper = canary ∷ shadow ∷ []
allowed canary = live ∷ paper ∷ []
allowed live = canary ∷ []
allowed safe = off ∷ research ∷ []

unfoldable pub require_transition_allowed : OperatingState → OperatingState → Result (Unit {0})
unfolding is_state is_in allowed
require_transition_allowed current target =
    if is_state target current
    then ok tt
    else if is_in target capital_states
    then err live_trading_not_enabled
    else if is_state target safe
    then ok tt
    else if not (is_in target (allowed current))
    then err invalid_transition
    else ok tt

unfoldable pub is_capital_at_risk : OperatingState → Bool
unfolding is_in
is_capital_at_risk state = is_in state capital_states
