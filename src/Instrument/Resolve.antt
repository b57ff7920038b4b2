-- ===== src/Instrument/Resolve.antt =====
-- When a ticker resolves, and to what.
use self_improving_trading_s.Prelude.{
  ◌≡◌, refl, ◌≢◌, true, false, List, [], ◌∷◌, String, ℤ, arith, All, Any, inl, inr, Bool-cases,
  eq_of_parts, All-imp, ◌≤ℤ◌, ltb_ℤ, some, none, if◌then◌else◌, str_eq_iff,
}
use self_improving_trading_s.Errors.{Result, ok, err, ticker_unheld, ticker_ambiguous}
use self_improving_trading_s.Instrument.{
  TickerAssignment, covers, is_match, matches, only_one, resolve_ticker, in_ids,
}

module _ (ticker : String) (at : ℤ) where
  -- Some assignment of the ticker covers the instant for instrument `i`.
  abbrev HeldBy : ℤ → List TickerAssignment → Type 0
  HeldBy i = Any (λ (a : TickerAssignment). (is_match ticker at a ≡ true) × (a.instrument_id ≡ i))

  -- No assignment of the ticker covers the instant for an instrument other than `i`.
  abbrev NoOther : ℤ → List TickerAssignment → Type 0
  NoOther i = All (λ (a : TickerAssignment). is_match ticker at a ≡ true → a.instrument_id ≡ i)

  abbrev Unheld : List TickerAssignment → Type 0
  Unheld = All (λ (a : TickerAssignment). is_match ticker at a ≡ false)

  -- What the set of matches says of the assignments.
  data Found (as' : List TickerAssignment) : List ℤ → Type 0 where
    nobody : Unheld as' → Found as' []
    single : (i : ℤ) → HeldBy i as' → NoOther i as' → Found as' (i ∷ [])
    several : (i j : ℤ) (js : List ℤ) → HeldBy i as' → HeldBy j as' → i ≢ j → Found as' (i ∷ j ∷ js)

  skip :
      (a : TickerAssignment) (as' : List TickerAssignment) {ms : List ℤ}
      → is_match ticker at a ≡ false
      → Found as' ms
      → Found (a ∷ as') ms
  skip a as' h (nobody u) = nobody (h, u)
  skip a as' h (single i e n) = single i (inr e) (λ k. cc, n)
  skip a as' h (several i j js e f d) = several i j js (inr e) (inr f) d

  again :
      (a : TickerAssignment) (as' : List TickerAssignment) {ms : List ℤ}
      → in_ids a.instrument_id ms ≡ true
      → Found as' ms
      → Found (a ∷ as') ms
  unfolding in_ids
  again a as' k (nobody u) = cc
  again a as' k (single i e n) =
      single i (inr e) (λ _. ground (arith, eq_of_parts a.instrument_id i), n)
  again a as' k (several i j js e f d) = several i j js (inr e) (inr f) d

  fresh :
      (a : TickerAssignment) (as' : List TickerAssignment) {ms : List ℤ}
      → is_match ticker at a ≡ true
      → in_ids a.instrument_id ms ≡ false
      → Found as' ms
      → Found (a ∷ as') (a.instrument_id ∷ ms)
  unfolding in_ids
  fresh a as' h k (nobody u) =
      single a.instrument_id (inl (h, refl)) (λ _. refl, All-imp (λ b m p. cc) as' u)
  fresh a as' h k (single i e n) =
      several a.instrument_id i [] (inl (h, refl)) (inr e)
        (λ p. ground (arith, eq_of_parts a.instrument_id i))
  fresh a as' h k (several i j js e f d) =
      several a.instrument_id i (j ∷ js) (inl (h, refl)) (inr e) (λ p. ground arith)

  found : (as' : List TickerAssignment) → Found as' (matches as' ticker at)
  unfolding matches
  found [] = nobody tt
  found (a ∷ as') = elim (Bool-cases (is_match ticker at a)) [
    | inr h ↦ rw h (skip a as' h (found as'))
    | inl h ↦ elim (Bool-cases (in_ids a.instrument_id (matches as' ticker at))) [
      | inl k ↦ rw (h, k) (again a as' k (found as'))
      | inr k ↦ rw (h, k) (fresh a as' h k (found as'))
    ]
  ]

  -- The three outcomes of a resolution, each with what the assignments are like.
  pub data Outcome (as' : List TickerAssignment) : Result ℤ → Type 0 where
    resolved : (i : ℤ) → HeldBy i as' → NoOther i as' → Outcome as' (ok i)
    unheld : Unheld as' → Outcome as' (err ticker_unheld)
    ambiguous : (i j : ℤ) → HeldBy i as' → HeldBy j as' → i ≢ j → Outcome as' (err ticker_ambiguous)

  outcome : (as' : List TickerAssignment) {ms : List ℤ} → Found as' ms → Outcome as' (only_one ms)
  unfolding only_one
  outcome as' (nobody u) = unheld u
  outcome as' (single i e n) = resolved i e n
  outcome as' (several i j js e f d) = ambiguous i j e f d

  -- A ticker resolves to an instrument only if some assignment of it covers the instant and all that
  -- do name that instrument; it is reported unheld only if none covers the instant, and ambiguous
  -- only if two that do name different instruments. No other result is possible.
  pub resolve_ticker_lem :
      (as' : List TickerAssignment) → Outcome as' (resolve_ticker as' ticker at)
  unfolding resolve_ticker
  resolve_ticker_lem as' = outcome as' (found as')

-- Where a ticker passes from one instrument to another, the one assignment ending at the instant at
-- which the other begins, it resolves, at any instant not before the first begins, to the old
-- instrument before the change and to the new one from the change on.
pub reassigned :
    (ticker : String) (old new start change at : ℤ)
    → start ≤ℤ at
    → resolve_ticker
        (record {
          instrument_id = old;
          ticker = ticker;
          effective_time = start;
          end_time = some change;
        }
          ∷ record {
            instrument_id = new;
            ticker = ticker;
            effective_time = change;
            end_time = none;
          }
          ∷ [])
        ticker
        at
      ≡ ok (if ltb_ℤ at change then old else new)
unfolding resolve_ticker matches only_one is_match covers in_ids
reassigned ticker old new start change at h = ground (arith, str_eq_iff ticker ticker)
