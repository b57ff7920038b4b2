-- ===== src/Writer/Schemas.antt =====
-- The tables whose schema the writer accepts.
use self_improving_trading_s.Prelude.{
  ◌≡◌, refl, ◌↔◌, true, List, [], ◌∷◌, arith, str_eq_iff, Bool-cases, inl, inr,
}
use self_improving_trading_s.Errors.{ok}
use self_improving_trading_s.Spec.{Column, ContractSpec, arrow_schema, ArrowType}
use self_improving_trading_s.Arrow.{Arrow}
use self_improving_trading_s.Writer.{type_eq, bool_eq, column_eq, schema_eq, check_schema}

type_eq→ : (a b : ArrowType) → type_eq a b ≡ true → a ≡ b
unfolding type_eq
type_eq→ a b h = grind (arith, str_eq_iff)

type_eq_refl : (a : ArrowType) → type_eq a a ≡ true
unfolding type_eq
type_eq_refl a = grind (arith, str_eq_iff)

column_eq→ : (a b : Column) → column_eq a b ≡ true → a ≡ b
unfolding column_eq bool_eq
column_eq→ a b h = ground (arith, str_eq_iff a.name b.name, type_eq→ a.type b.type)

column_eq_refl : (a : Column) → column_eq a a ≡ true
unfolding column_eq bool_eq
column_eq_refl a = ground (arith, str_eq_iff a.name a.name, type_eq_refl a.type)

schema_eq→ : (as' bs : List Column) → schema_eq as' bs ≡ true → as' ≡ bs
unfolding schema_eq
schema_eq→ [] [] h = refl
schema_eq→ [] (b ∷ bs) h = cc
schema_eq→ (a ∷ as') [] h = cc
schema_eq→ (a ∷ as') (b ∷ bs) h =
    cc (column_eq→ a b (ground arith), schema_eq→ as' bs (ground arith))

schema_eq_refl : (as' : List Column) → schema_eq as' as' ≡ true
unfolding schema_eq
schema_eq_refl [] = refl
schema_eq_refl (a ∷ as') = rw (column_eq_refl a) (schema_eq_refl as')

-- The writer accepts the schema of a table exactly if it is the one of the contract: the same columns
-- in the same order, each with the type and the nullability that the contract declares.
pub check_schema_iff :
    (arrow : Arrow) (t : arrow.Table) (spec : ContractSpec)
    → (check_schema arrow t spec ≡ ok tt) ↔ (arrow.schema t ≡ arrow_schema spec)
unfolding check_schema
check_schema_iff arrow t spec = (there, back)
  where
    there : check_schema arrow t spec ≡ ok tt → arrow.schema t ≡ arrow_schema spec
    there h = elim (Bool-cases (schema_eq (arrow.schema t) (arrow_schema spec))) [
      | inl e ↦ schema_eq→ _ _ e
      | inr e ↦ ground arith
    ]

    back : arrow.schema t ≡ arrow_schema spec → check_schema arrow t spec ≡ ok tt
    back e = rw (e, schema_eq_refl (arrow_schema spec)) refl
