-- ===== src/Determinism/Pinned.antt =====
-- The environments that the guard accepts.
use self_improving_trading_s.Prelude.{
  ◌≡◌, refl, ap, ◌↔◌, false, Option, none, some, List, [], ◌∷◌, String, arith, All, str_eq_iff,
  lookup, Bool-cases, inl, inr,
}
use self_improving_trading_s.Errors.{ok, err-ok}
use self_improving_trading_s.Determinism.{
  pinned_env, EnvViolation, differs, violations, verify_environment, raise_violations,
  require_deterministic_environment,
}

-- The environment has the pinned value of a variable.
abbrev pub IsPinned : List (String × String) → String × String → Type 0
IsPinned env pin = lookup pin.0 env ≡ some pin.1

same_value :
    (actual : Option String) (expected : String)
    → differs actual expected ≡ false
    → actual ≡ some expected
unfolding differs
same_value none expected h = cc
same_value (some actual) expected h = ap some ((str_eq_iff actual expected).0 (ground arith))

violations→ :
    (env pinned : List (String × String)) → violations env pinned ≡ [] → All (IsPinned env) pinned
unfolding violations
violations→ env [] h = tt
violations→ env ((name, expected) ∷ pinned) h =
    elim (Bool-cases (differs (lookup name env) expected)) [
      | inl d ↦ cc (d, h)
      | inr d ↦ (
        same_value (lookup name env) expected d,
        violations→ env pinned (rw (violations, d) at h),
      )
    ]

→violations :
    (env pinned : List (String × String)) → All (IsPinned env) pinned → violations env pinned ≡ []
unfolding violations differs
→violations env [] h = refl
→violations env ((name, expected) ∷ pinned) (e, h) =
    rw e (rw ((str_eq_iff expected expected).1 refl) (→violations env pinned h))

-- The guard accepts an environment exactly if each pinned variable is set to its pinned value, whatever
-- else is set.
pub require_deterministic_environment_iff :
    (env : List (String × String))
    → (require_deterministic_environment env ≡ ok tt) ↔ All (IsPinned env) pinned_env
unfolding require_deterministic_environment verify_environment raise_violations
require_deterministic_environment_iff env = (there, back)
  where
    empty : (vs : List EnvViolation) → raise_violations vs ≡ ok tt → vs ≡ []
    empty [] h = refl
    empty (v ∷ vs) h = absurd (err-ok h)

    there : require_deterministic_environment env ≡ ok tt → All (IsPinned env) pinned_env
    there h = violations→ env pinned_env (empty (violations env pinned_env) h)

    back : All (IsPinned env) pinned_env → require_deterministic_environment env ≡ ok tt
    back p = ap raise_violations (→violations env pinned_env p)
