-- ===== src/Determinism.antt =====
-- packages/runtime/src/trading/runtime/determinism.py: the pinned environment of a reproducible run.
-- Whether numeric libraries are loaded only changes a message, and the clock of the process is not read.
pub mod Pinned
use self_improving_trading_s.Prelude.{
  Bool, true, false, Option, none, some, List, [], ◌∷◌, String, if◌then◌else◌, str_eq, lookup,
}
use self_improving_trading_s.Errors.{Result, ok, err, determinism_error}

-- `PINNED_ENV`
abbrev pub pinned_env : List (String × String)
pinned_env =
    ("PYTHONHASHSEED", "0")
    ∷ ("TZ", "UTC")
    ∷ ("OMP_NUM_THREADS", "1")
    ∷ ("OPENBLAS_NUM_THREADS", "1")
    ∷ ("MKL_NUM_THREADS", "1")
    ∷ ("NUMEXPR_NUM_THREADS", "1")
    ∷ ("VECLIB_MAXIMUM_THREADS", "1")
    ∷ ("POLARS_MAX_THREADS", "1")
    ∷ []

pub record EnvViolation : Type 0 where
  pub name : String
  pub expected : String
  pub actual : Option String

-- `source.get(name) != expected`
unfoldable pub differs : Option String → String → Bool
differs none expected = true
differs (some actual) expected = if str_eq actual expected then false else true

-- The comprehension of `verify_environment`, over some pinned variables.
unfoldable pub violations : List (String × String) → List (String × String) → List EnvViolation
unfolding differs
violations env [] = []
violations env ((name, expected) ∷ pinned) =
    let rest = violations env pinned in
    if differs (lookup name env) expected
    then record { name = name; expected = expected; actual = lookup name env } ∷ rest
    else rest

unfoldable pub verify_environment : List (String × String) → List EnvViolation
unfolding violations
verify_environment env = violations env pinned_env

unfoldable pub raise_violations : List EnvViolation → Result (Unit {0})
raise_violations [] = ok tt
raise_violations (v ∷ vs) = err determinism_error

unfoldable pub require_deterministic_environment : List (String × String) → Result (Unit {0})
unfolding raise_violations
require_deterministic_environment env = raise_violations (verify_environment env)
