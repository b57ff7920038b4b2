-- ===== src/Writer/Amounts.antt =====
-- The tables whose amounts the writer accepts.
use self_improving_trading_s.Prelude.{
  ◌≡◌, refl, ◌↔◌, true, Option, none, some, List, [], ◌∷◌, arith, All, ℤ, ◌≤ℤ◌, Bool-cases, inl,
  inr,
}
use self_improving_trading_s.Errors.{ok, >>=-eq-ok}
use self_improving_trading_s.Money.{storable_min, storable_max, is_storable}
use self_improving_trading_s.Spec.{FieldSpec, ContractSpec}
use self_improving_trading_s.Arrow.{Arrow}
use self_improving_trading_s.Writer.{
  is_money, check_amounts, check_money_fields, check_money, int_column,
}

-- A null, or an amount that can be stored.
abbrev pub Storable : Option ℤ → Type 0
Storable none = Unit
Storable (some v) = (storable_min ≤ℤ v) × (v ≤ℤ storable_max)

amounts→ : (vs : List (Option ℤ)) → check_amounts vs ≡ ok tt → All Storable vs
unfolding check_amounts is_storable
amounts→ [] h = tt
amounts→ (none ∷ vs) h = (tt, amounts→ vs h)
amounts→ (some v ∷ vs) h = ((ground arith, ground arith), amounts→ vs (ground arith))

pub →amounts : (vs : List (Option ℤ)) → All Storable vs → check_amounts vs ≡ ok tt
unfolding check_amounts is_storable
→amounts [] h = refl
→amounts (none ∷ vs) (_, h) = →amounts vs h
→amounts (some v ∷ vs) (s, h) = ground (arith, →amounts vs h)

module _ (arrow : Arrow) (t : arrow.Table) where
  -- Each cell of each money column of a field list is null or can be stored.
  abbrev pub AmountsHold : List FieldSpec → Type 0
  AmountsHold =
      All (λ (f : FieldSpec). is_money f.kind ≡ true → All Storable (int_column arrow t f.name))

  fields→ : (fs : List FieldSpec) → check_money_fields arrow t fs ≡ ok tt → AmountsHold fs
  unfolding check_money_fields
  fields→ [] h = tt
  fields→ (f ∷ fs) h = elim (Bool-cases (is_money f.kind)) [
    | inr e ↦ (λ m. cc, fields→ fs (rw e at h))
    | inl e ↦
        let (_, a, r) = >>=-eq-ok (check_amounts (int_column arrow t f.name)) _ (rw e at h) in
        (λ _. amounts→ _ a, fields→ fs r)
  ]

  pub →fields : (fs : List FieldSpec) → AmountsHold fs → check_money_fields arrow t fs ≡ ok tt
  unfolding check_money_fields
  →fields [] h = refl
  →fields (f ∷ fs) (h, hs) = elim (Bool-cases (is_money f.kind)) [
    | inr e ↦ rw e (→fields fs hs)
    | inl e ↦ rw e (rw (→amounts _ (h e)) (→fields fs hs))
  ]

  -- The writer accepts the amounts of a table exactly if, in every column of the contract that holds
  -- nano-dollars, each cell is null or within the storable range.
  pub check_money_iff :
      (spec : ContractSpec) → (check_money arrow t spec ≡ ok tt) ↔ AmountsHold spec.fields
  unfolding check_money
  check_money_iff spec = (fields→ spec.fields, →fields spec.fields)
