-- ===== src/Spec/Lookup.antt =====
-- A contract that its own check accepts finds each of its fields by name.
use self_improving_trading_s.Prelude.{
  ◌≡◌, refl, true, false, List, [], ◌∷◌, String, arith, All, str_eq_iff, in_names, Bool-cases, ◌⊎◌,
  inl, inr, map,
}
use self_improving_trading_s.Errors.{ok, err, key_error}
use self_improving_trading_s.Spec.{
  FieldSpec, ContractSpec, check_contract, field, find_field, field_names, no_duplicates,
}

names : List FieldSpec → List String
names = map (λ (f : FieldSpec). f.name)

-- A field in front is not the one that is looked for.
skip :
    (f : FieldSpec) (fs gs : List FieldSpec)
    → in_names f.name (names gs) ≡ false
    → All (λ (g : FieldSpec). find_field g.name fs ≡ ok g) gs
    → All (λ (g : FieldSpec). find_field g.name (f ∷ fs) ≡ ok g) gs
unfolding find_field names
skip f fs [] h k = tt
skip f fs (g ∷ gs) h (e, k) = (
  ground (arith, str_eq_iff f.name g.name, str_eq_iff g.name f.name),
  skip f fs gs (ground arith) k,
)

find_each :
    (fs : List FieldSpec)
    → no_duplicates (names fs) ≡ true
    → All (λ (g : FieldSpec). find_field g.name fs ≡ ok g) fs
unfolding find_field names no_duplicates
find_each [] h = tt
find_each (f ∷ fs) h = (
  ground (arith, str_eq_iff f.name f.name),
  skip f fs fs (ground arith) (find_each fs (ground arith)),
)

find_missing :
    (n : String) (fs : List FieldSpec)
    → in_names n (names fs) ≡ false
    → find_field n fs ≡ err key_error
unfolding find_field names
find_missing n [] h = refl
find_missing n (f ∷ fs) h = ground (arith, find_missing n fs)

-- In a contract that its own check accepts, looking up the name of each declared field gives that
-- field, and looking up a name that no field has raises the key error.
pub field_lem :
    (spec : ContractSpec) (n : String)
    → check_contract spec ≡ ok tt
    → All (λ (f : FieldSpec). field spec f.name ≡ ok f) spec.fields
      × ((in_names n (field_names spec) ≡ true) ⊎ (field spec n ≡ err key_error))
unfolding check_contract field field_names names
field_lem spec n h = (
  find_each spec.fields (ground arith),
  elim (Bool-cases (in_names n (field_names spec))) [
    | inl e ↦ inl e
    | inr e ↦ inr (find_missing n spec.fields e)
  ],
)
