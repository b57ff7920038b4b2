-- ===== src/Spec.antt =====
-- packages/schemas/src/trading/schemas/spec.py: fields and contracts as data, and their Arrow schema.
-- A field's `doc` is not modelled: it enters neither the schema nor the canonical form.
pub mod Lookup
pub mod Canonical
use self_improving_trading_s.Prelude.{
  ℕ, ℤ, pos, ltb_ℤ, ◌≡◌, Bool, true, false, not, ◌&&◌, ◌||◌, Option, none, some, List, [], ◌∷◌,
  ◌++◌, map, String, if◌then◌else◌, leb, ltb, ◌==◌, codes, str_eq, in_names, all, ◌≤◌, zero, suc,
}
use self_improving_trading_s.Errors.{Result, ok, err, value_error, key_error, ◌>>=◌, ◌>>◌, require}

-- `Maturity`
pub data Maturity : Type 0 where
  frozen provisional : Maturity

-- `TimeGroup`
pub data TimeGroup : Type 0 where
  core effective : TimeGroup

-- `FieldKind`
pub data FieldKind : Type 0 where
  timestamp_ns nano_dollars shares instrument_id code conditions tape : FieldKind
  sequence text uuid count bool ratio date : FieldKind

-- The Arrow types that `_ARROW_TYPES` names, and any other that a table may have.
pub data ArrowType : Type 0 where
  int32 int64 float64 boolean utf8 date32 : ArrowType
  dictionary_int8_utf8 list_dictionary_int8_utf8 : ArrowType
  other_type : String → ArrowType

-- `_ARROW_TYPES`
unfoldable pub arrow_type : FieldKind → ArrowType
arrow_type timestamp_ns = int64
arrow_type nano_dollars = int64
arrow_type shares = int64
arrow_type instrument_id = int64
arrow_type code = dictionary_int8_utf8
arrow_type conditions = list_dictionary_int8_utf8
arrow_type tape = dictionary_int8_utf8
arrow_type sequence = int64
arrow_type text = utf8
arrow_type uuid = utf8
arrow_type count = int32
arrow_type bool = boolean
arrow_type ratio = float64
arrow_type date = date32

-- `_REQUIRED_UNITS`
unfoldable pub required_unit : FieldKind → Option String
required_unit timestamp_ns = some "ns_utc"
required_unit nano_dollars = some "nanodollar"
required_unit shares = some "share"
required_unit _ = none

pub record FieldSpec : Type 0 where
  pub name : String
  pub kind : FieldKind
  pub nullable : Bool
  pub unit : Option String
  pub codeset : Option String

-- `str.isidentifier` on ASCII text: a letter or `_`, then letters, digits and `_`.
is_letter : ℕ → Bool
is_letter c = leb b'a' c && leb c b'z' || leb b'A' c && leb c b'Z' || c == b'_'

is_word : ℕ → Bool
unfolding is_letter
is_word c = is_letter c || leb b'0' c && leb c b'9'

is_identifier_codes : List ℕ → Bool
unfolding is_letter is_word
is_identifier_codes [] = false
is_identifier_codes (c ∷ cs) = is_letter c && all is_word cs

unfoldable pub is_identifier : String → Bool
unfolding is_identifier_codes
is_identifier s = is_identifier_codes (codes s)

-- `expected is not None and self.unit != expected`
unit_fits : Option String → Option String → Bool
unit_fits none unit = true
unit_fits (some expected) none = false
unit_fits (some expected) (some unit) = str_eq unit expected

-- `FieldSpec.__post_init__`
unfoldable pub check_field : FieldSpec → Result (Unit {0})
unfolding unit_fits required_unit
check_field f = do
  require (is_identifier f.name) value_error
  require (unit_fits (required_unit f.kind) f.unit) value_error

pub record ContractSpec : Type 0 where
  pub name : String
  pub version : ℤ
  pub maturity : Maturity
  pub fields : List FieldSpec
  pub time_group : Option TimeGroup

-- `ContractSpec.field_names`
unfoldable pub field_names : ContractSpec → List String
field_names spec = map (λ (f : FieldSpec). f.name) spec.fields

-- No name of the list occurs twice.
unfoldable pub no_duplicates : List String → Bool
no_duplicates [] = true
no_duplicates (n ∷ ns) = not (in_names n ns) && no_duplicates ns

is_empty : List FieldSpec → Bool
is_empty [] = true
is_empty (f ∷ fs) = false

-- `ContractSpec.__post_init__`
unfoldable pub check_contract : ContractSpec → Result (Unit {0})
unfolding is_empty field_names no_duplicates
check_contract spec = do
  require (not (ltb_ℤ spec.version (pos 1))) value_error
  require (not (is_empty spec.fields)) value_error
  require (no_duplicates (field_names spec)) value_error

find_field : String → List FieldSpec → Result FieldSpec
find_field n [] = err key_error
find_field n (f ∷ fs) = if str_eq f.name n then ok f else find_field n fs

-- `ContractSpec.field`
unfoldable pub field : ContractSpec → String → Result FieldSpec
unfolding find_field
field spec n = find_field n spec.fields

-- One `pa.field`.
pub record Column : Type 0 where
  pub name : String
  pub type : ArrowType
  pub nullable : Bool

-- `FieldSpec.arrow_field`
unfoldable pub arrow_field : FieldSpec → Column
unfolding arrow_type
arrow_field f = record { name = f.name; type = arrow_type f.kind; nullable = f.nullable }

-- `ContractSpec.arrow_schema`
unfoldable pub arrow_schema : ContractSpec → List Column
unfolding arrow_field
arrow_schema spec = map arrow_field spec.fields

-- A required field with no unit and no codeset.
abbrev pub plain : String → FieldKind → FieldSpec
plain n k = record { name = n; kind = k; nullable = false; unit = none; codeset = none }

abbrev pub in_unit : String → FieldKind → String → FieldSpec
in_unit n k u = record { name = n; kind = k; nullable = false; unit = some u; codeset = none }

abbrev pub coded : String → FieldKind → String → FieldSpec
coded n k c = record { name = n; kind = k; nullable = false; unit = none; codeset = some c }

abbrev pub or_null : FieldSpec → FieldSpec
or_null f = record f { nullable = true }

-- `_TIME_FIELDS`
abbrev pub base_time_fields : List FieldSpec
base_time_fields =
    in_unit "event_time" timestamp_ns "ns_utc"
    ∷ in_unit "receive_time" timestamp_ns "ns_utc"
    ∷ in_unit "process_time" timestamp_ns "ns_utc"
    ∷ in_unit "knowledge_time" timestamp_ns "ns_utc"
    ∷ []

-- `_EFFECTIVE_FIELD`
abbrev pub effective_field : FieldSpec
effective_field = in_unit "effective_time" timestamp_ns "ns_utc"

-- `_REVISION_FIELD`
abbrev pub revision_field : FieldSpec
revision_field = or_null (in_unit "revision_time" timestamp_ns "ns_utc")

unfoldable pub time_fields : TimeGroup → List FieldSpec
time_fields effective = base_time_fields ++ (effective_field ∷ revision_field ∷ [])
time_fields core = base_time_fields ++ (revision_field ∷ [])

-- `_ORDERING_FIELDS`, `ordering_fields()`
unfoldable pub ordering_fields : List FieldSpec
ordering_fields =
    plain "source_rank" count
    ∷ plain "vendor_sequence" sequence
    ∷ plain "venue_sequence" sequence
    ∷ plain "ingest_index" sequence
    ∷ plain "raw_partition_id" text
    ∷ coded "event_time_source" code "event_time_source_v1"
    ∷ []
