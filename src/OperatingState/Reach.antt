-- ===== src/OperatingState/Reach.antt =====
-- What the guard lets through: the moves of the state machine, and what they can reach.
use mathlib.Core.Path.{subst}
use self_improving_trading_s.Prelude.{false, ◌≡◌, refl, ◌↔◌, arith, ◌⊎◌, inl, inr}
use self_improving_trading_s.Errors.{ok}
use self_improving_trading_s.OperatingState.{
  OperatingState, off, research, shadow, paper, canary, live, safe, require_transition_allowed,
  is_capital_at_risk,
}

-- The transitions of the specification (§5), staying and failing among them.
infix 40 ◌⟶◌ ◌⟶*◌
pub data ◌⟶◌ : OperatingState → OperatingState → Type 0 where
  start : off ⟶ research
  observe : research ⟶ shadow
  power_down : research ⟶ off
  simulate : shadow ⟶ paper
  withdraw : shadow ⟶ research
  probe : paper ⟶ canary
  demote : paper ⟶ shadow
  deploy : canary ⟶ live
  retreat : canary ⟶ paper
  reduce : live ⟶ canary
  stop : safe ⟶ off
  resume : safe ⟶ research
  stay : (s : OperatingState) → s ⟶ s
  fail : (s : OperatingState) → s ⟶ safe

-- Any number of changes that the guard lets through, one after the other.
pub data ◌⟶*◌ : OperatingState → OperatingState → Type 0 where
  here : {s : OperatingState} → s ⟶* s
  next : {s t u : OperatingState} → s ⟶* t → require_transition_allowed t u ≡ ok tt → s ⟶* u

ruleset edges = (
  start, observe, power_down, simulate, withdraw, probe, demote, deploy, retreat, reduce, stop,
  resume, stay, fail,
)

guard-⟶ : (s t : OperatingState) → require_transition_allowed s t ≡ ok tt → s ⟶ t
unfolding require_transition_allowed
guard-⟶ s t h = grind (arith, edges)

guard_safe :
    (s t : OperatingState)
    → require_transition_allowed s t ≡ ok tt
    → (s ≡ t) ⊎ (is_capital_at_risk t ≡ false)
unfolding require_transition_allowed is_capital_at_risk
guard_safe s t h = grind arith

guard_stay : (s : OperatingState) → require_transition_allowed s s ≡ ok tt
unfolding require_transition_allowed
guard_stay s = ground arith

⟶-guard :
    {s t : OperatingState}
    → s ⟶ t
    → is_capital_at_risk t ≡ false
    → require_transition_allowed s t ≡ ok tt
unfolding require_transition_allowed is_capital_at_risk
⟶-guard start h = refl
⟶-guard observe h = refl
⟶-guard power_down h = refl
⟶-guard simulate h = refl
⟶-guard withdraw h = refl
⟶-guard probe h = cc
⟶-guard demote h = refl
⟶-guard deploy h = cc
⟶-guard retreat h = refl
⟶-guard reduce h = cc
⟶-guard stop h = refl
⟶-guard resume h = refl
⟶-guard (stay s) h = ground arith
⟶-guard (fail s) h = ground arith

-- The guard lets a change through exactly if it is a transition of the specification that leads to a
-- state that risks no capital, or stays where it is: the specification's own transitions into the
-- canary and the live state are refused.
pub guard-iff_⟶ :
    (s t : OperatingState)
    → (require_transition_allowed s t ≡ ok tt)
      ↔ ((s ⟶ t) × ((s ≡ t) ⊎ (is_capital_at_risk t ≡ false)))
guard-iff_⟶ s t = (
  λ h. (guard-⟶ s t h, guard_safe s t h),
  λ (edge, k). elim k [
    | inl same ↦ subst (λ u. require_transition_allowed s u ≡ ok tt) same (guard_stay s)
    | inr free ↦ ⟶-guard edge free
  ],
)

keeps_safe :
    (s t : OperatingState)
    → require_transition_allowed s t ≡ ok tt
    → is_capital_at_risk s ≡ false
    → is_capital_at_risk t ≡ false
unfolding require_transition_allowed is_capital_at_risk
keeps_safe s t h k = ground arith

-- From a state that risks no capital, no sequence of accepted changes reaches one that does.
pub capital_unreachable :
    {s t : OperatingState} → s ⟶* t → is_capital_at_risk s ≡ false → is_capital_at_risk t ≡ false
capital_unreachable here h = h
capital_unreachable (next {t = t} {u = u} r g) h = keeps_safe t u g (capital_unreachable r h)

to_safe : (s : OperatingState) → s ⟶* safe
unfolding is_capital_at_risk
to_safe s = next here (⟶-guard (fail s) refl)

to_research : (s : OperatingState) → s ⟶* research
unfolding is_capital_at_risk
to_research s = next (to_safe s) (⟶-guard resume refl)

to_shadow : (s : OperatingState) → s ⟶* shadow
unfolding is_capital_at_risk
to_shadow s = next (to_research s) (⟶-guard observe refl)

-- Every state, a capital state too, can go to SAFE in one accepted change, and from every state some
-- sequence of accepted changes leads to each state that risks no capital.
pub safe_always :
    (s t : OperatingState)
    → is_capital_at_risk t ≡ false
    → (require_transition_allowed s safe ≡ ok tt) × (s ⟶* t)
unfolding is_capital_at_risk
safe_always s t h = (⟶-guard (fail s) refl, reach t h)
  where
    reach : (t : OperatingState) → is_capital_at_risk t ≡ false → s ⟶* t
    reach off h = next (to_safe s) (⟶-guard stop refl)
    reach research h = to_research s
    reach shadow h = to_shadow s
    reach paper h = next (to_shadow s) (⟶-guard simulate refl)
    reach canary h = cc
    reach live h = cc
    reach safe h = to_safe s
