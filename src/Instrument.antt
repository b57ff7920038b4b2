-- ===== src/Instrument.antt =====
-- packages/schemas/src/trading/schemas/instrument.py: the ticker history and its resolution. The two
-- contracts that the file declares are in Contracts/Reference.
pub mod Resolve
use self_improving_trading_s.Prelude.{
  Bool, true, false, ◌&&◌, ◌||◌, not, Option, none, some, List, [], ◌∷◌, String, ℤ, ltb_ℤ, eqb_ℤ,
  if◌then◌else◌, str_eq,
}
use self_improving_trading_s.Errors.{Result, ok, err, ticker_unheld, ticker_ambiguous}

pub record TickerAssignment : Type 0 where
  pub instrument_id : ℤ
  pub ticker : String
  pub effective_time : ℤ
  pub end_time : Option ℤ

-- `TickerAssignment.covers`
unfoldable pub covers : TickerAssignment → ℤ → Bool
covers a at =
    if ltb_ℤ at a.effective_time
    then false
    else elim a.end_time [ none ↦ true | some end ↦ ltb_ℤ at end ]

unfoldable pub in_ids : ℤ → List ℤ → Bool
in_ids i [] = false
in_ids i (j ∷ js) = eqb_ℤ i j || in_ids i js

-- The condition of the set comprehension.
unfoldable pub is_match : String → ℤ → TickerAssignment → Bool
unfolding covers
is_match ticker at a = str_eq a.ticker ticker && covers a at

-- `{a.instrument_id for a in assignments if ...}`, a list without duplicates
unfoldable pub matches : List TickerAssignment → String → ℤ → List ℤ
unfolding in_ids is_match
matches [] ticker at = []
matches (a ∷ as') ticker at =
    let rest = matches as' ticker at in
    if not (is_match ticker at a)
    then rest
    else if in_ids a.instrument_id rest
    then rest
    else a.instrument_id ∷ rest

-- The two length tests and `matches.pop()`.
unfoldable pub only_one : List ℤ → Result ℤ
only_one [] = err ticker_unheld
only_one (i ∷ []) = ok i
only_one (i ∷ j ∷ js) = err ticker_ambiguous

unfoldable pub resolve_ticker : List TickerAssignment → String → ℤ → Result ℤ
unfolding only_one matches
resolve_ticker assignments ticker at = only_one (matches assignments ticker at)
