-- ===== src/Writer.antt =====
-- packages/schemas/src/trading/schemas/io.py: the checks of the contract writer. A table is read
-- through the interface of `Arrow`; writing it to a file is in Store.
pub mod Times
pub mod Keys
pub mod Amounts
pub mod Schemas
pub mod Store
pub mod Kept
use self_improving_trading_s.Prelude.{
  ℕ, ◌*◌, ◌≡◌, Bool, true, false, not, ◌&&◌, Option, none, some, List, [], ◌∷◌, map, String, ℤ, pos,
  leb_ℤ, ltb_ℤ, eqb_ℤ, if◌then◌else◌, in_names, str_eq, ◌==◌,
}
use self_improving_trading_s.Errors.{
  Result, ok, err, value_error, type_error, contract_write, columns_mismatch, schema_mismatch,
  null_value, implausible_knowledge, knowledge_before_event, receive_before_event,
  process_before_receive, policy_mismatch, keys_not_increasing, money_out_of_range, ◌>>=◌, ◌>>◌,
  require,
}
use self_improving_trading_s.Time.{is_plausible}
use self_improving_trading_s.Money.{is_storable}
use self_improving_trading_s.Spec.{
  FieldSpec, ContractSpec, Column, TimeGroup, FieldKind, nano_dollars, field_names, arrow_schema,
  ArrowType, int32, int64, float64, boolean, utf8, date32, dictionary_int8_utf8,
  list_dictionary_int8_utf8, other_type,
}
use self_improving_trading_s.Arrow.{Arrow, Cell, as_int}

-- `KnowledgeTimePolicy`
pub data KnowledgeTimePolicy : Type 0 where
  live_capture backfill announcement : KnowledgeTimePolicy

unfoldable pub is_live : KnowledgeTimePolicy → Bool
is_live live_capture = true
is_live _ = false

unfoldable pub is_money : FieldKind → Bool
is_money nano_dollars = true
is_money _ = false

-- `[value for value in values if value is not None]`, with the check that nothing is dropped
unfoldable pub required_ints : List (Option ℤ) → Result (List ℤ)
required_ints [] = ok []
required_ints (none ∷ vs) = err (contract_write null_value)
required_ints (some v ∷ vs) = do rest ← required_ints vs; ok (v ∷ rest)

-- The loop over `knowledge`.
unfoldable pub check_plausible : List ℤ → Result (Unit {0})
check_plausible [] = ok tt
check_plausible (k ∷ ks) = do
  require (is_plausible k) (contract_write implausible_knowledge)
  check_plausible ks

-- The loop over the four columns, zipped strictly.
unfoldable pub check_order_of_times : List ℤ → List ℤ → List ℤ → List ℤ → Result (Unit {0})
check_order_of_times [] [] [] [] = ok tt
check_order_of_times (e ∷ es) (r ∷ rs) (p ∷ ps) (k ∷ ks) = do
  require (leb_ℤ e k) (contract_write knowledge_before_event)
  require (leb_ℤ e r) (contract_write receive_before_event)
  require (leb_ℤ r p) (contract_write process_before_receive)
  check_order_of_times es rs ps ks
check_order_of_times _ _ _ _ = err value_error

-- The loop for `LIVE_CAPTURE`.
unfoldable pub check_live : List ℤ → List ℤ → Result (Unit {0})
check_live [] [] = ok tt
check_live (r ∷ rs) (k ∷ ks) = do
  require (eqb_ℤ k r) (contract_write policy_mismatch)
  check_live rs ks
check_live _ _ = err value_error

-- `a > b` for tuples of ints and None: Python goes to the first place where they differ, and
-- refuses to order None and an int.
unfoldable pub tuple_gt : List (Option ℤ) → List (Option ℤ) → Result Bool
tuple_gt (none ∷ as') (none ∷ bs) = tuple_gt as' bs
tuple_gt (some a ∷ as') (some b ∷ bs) =
    let rest = tuple_gt as' bs in if eqb_ℤ a b then rest else ok (ltb_ℤ b a)
tuple_gt (none ∷ as') (some b ∷ bs) = err type_error
tuple_gt (some a ∷ as') (none ∷ bs) = err type_error
tuple_gt [] bs = ok false
tuple_gt (a ∷ as') [] = ok true

-- The loop over neighbours.
unfoldable pub check_increasing : List (List (Option ℤ)) → Result (Unit {0})
check_increasing (a ∷ b ∷ keys) = do
  above ← tuple_gt b a
  require above (contract_write keys_not_increasing)
  check_increasing (b ∷ keys)
check_increasing _ = ok tt

-- `list(zip(*columns, strict=True))` of five columns
unfoldable pub zip_keys :
    List (Option ℤ)
    → List (Option ℤ)
    → List (Option ℤ)
    → List (Option ℤ)
    → List (Option ℤ)
    → Result (List (List (Option ℤ)))
zip_keys [] [] [] [] [] = ok []
zip_keys (a ∷ as') (b ∷ bs) (c ∷ cs) (d ∷ ds) (e ∷ es) = do
  rest ← zip_keys as' bs cs ds es
  ok ((a ∷ b ∷ c ∷ d ∷ e ∷ []) ∷ rest)
zip_keys _ _ _ _ _ = err value_error

-- The inner loop of `_check_money`.
unfoldable pub check_amounts : List (Option ℤ) → Result (Unit {0})
check_amounts [] = ok tt
check_amounts (none ∷ vs) = check_amounts vs
check_amounts (some v ∷ vs) = do
  require (is_storable v) (contract_write money_out_of_range)
  check_amounts vs

-- Whether two Arrow types are equal.
type_tag : ArrowType → ℕ × String
type_tag int32 = (0, "")
type_tag int64 = (1, "")
type_tag float64 = (2, "")
type_tag boolean = (3, "")
type_tag utf8 = (4, "")
type_tag date32 = (5, "")
type_tag dictionary_int8_utf8 = (6, "")
type_tag list_dictionary_int8_utf8 = (7, "")
type_tag (other_type name) = (8, name)

pub type_eq : ArrowType → ArrowType → Bool
unfolding type_tag
type_eq a b = (type_tag a).0 == (type_tag b).0 && str_eq (type_tag a).1 (type_tag b).1

pub bool_eq : Bool → Bool → Bool
bool_eq true b = b
bool_eq false b = not b

-- `field.equals(...)` of two fields
unfoldable pub column_eq : Column → Column → Bool
unfolding type_eq bool_eq
column_eq a b = str_eq a.name b.name && type_eq a.type b.type && bool_eq a.nullable b.nullable

-- `schema.equals(...)`
unfoldable pub schema_eq : List Column → List Column → Bool
unfolding column_eq
schema_eq [] [] = true
schema_eq (a ∷ as') (b ∷ bs) = column_eq a b && schema_eq as' bs
schema_eq _ _ = false

unfoldable pub names_eq : List Column → List Column → Bool
names_eq [] [] = true
names_eq (a ∷ as') (b ∷ bs) = str_eq a.name b.name && names_eq as' bs
names_eq _ _ = false

module _ (arrow : Arrow) where
  open arrow use {Table, schema, column}

  unfoldable pub check_schema : Table → ContractSpec → Result (Unit {0})
  unfolding schema_eq names_eq
  check_schema t spec =
      let expected = arrow_schema spec in
      if schema_eq (schema t) expected then ok tt else do
        require (names_eq (schema t) expected) (contract_write columns_mismatch)
        err (contract_write schema_mismatch)

  -- `_column`
  abbrev pub int_column : Table → String → List (Option ℤ)
  int_column t name = map as_int (column t name)

  -- `_required_int_column`
  unfoldable pub required_int_column : Table → String → Result (List ℤ)
  required_int_column t name = required_ints (int_column t name)

  unfoldable pub check_time_fields : Table → ContractSpec → KnowledgeTimePolicy → Result (Unit {0})
  unfolding required_int_column
  check_time_fields t spec policy = elim spec.time_group [
    | none ↦ ok tt
    | some group ↦ do
      event ← required_int_column t "event_time"
      receive ← required_int_column t "receive_time"
      process ← required_int_column t "process_time"
      knowledge ← required_int_column t "knowledge_time"
      check_plausible knowledge
      check_order_of_times event receive process knowledge
      if is_live policy then check_live receive knowledge else ok tt
  ]

  unfoldable pub check_ordering : Table → ContractSpec → Result (Unit {0})
  check_ordering t spec = if not (in_names "ingest_index" (field_names spec)) then ok tt else do
    keys ←
        zip_keys (int_column t "event_time") (int_column t "source_rank")
          (int_column t "vendor_sequence") (int_column t "venue_sequence")
          (int_column t "ingest_index")
    check_increasing keys

  -- The outer loop of `_check_money`, over the fields.
  unfoldable pub check_money_fields : Table → List FieldSpec → Result (Unit {0})
  unfolding is_money
  check_money_fields t [] = ok tt
  check_money_fields t (f ∷ fs) =
      let rest = check_money_fields t fs in
      if not (is_money f.kind) then rest else (do check_amounts (int_column t f.name); rest)

  unfoldable pub check_money : Table → ContractSpec → Result (Unit {0})
  unfolding check_money_fields
  check_money t spec = check_money_fields t spec.fields
