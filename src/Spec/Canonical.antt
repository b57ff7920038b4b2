-- ===== src/Spec/Canonical.antt =====
-- packages/schemas/src/trading/schemas/spec.py: the text that a contract's hash is taken of.
use Prim.Native.String.{◌++◌}
use self_improving_trading_s.Prelude.{
  ℕ, zero, suc, ◌/◌, ◌%◌, ℤ, pos, negsuc, Option, none, some, List, [], ◌∷◌, String, if◌then◌else◌,
  ltb,
}
use self_improving_trading_s.Spec.{
  Maturity, frozen, provisional, TimeGroup, core, effective, FieldKind, FieldSpec, ContractSpec,
  timestamp_ns, nano_dollars, shares, instrument_id, code, conditions, tape, sequence, text, uuid,
  count, bool, ratio, date,
}

nth : ℕ → List String → String
nth n [] = "9"
nth zero (d ∷ ds) = d
nth (suc n) (d ∷ ds) = nth n ds

digit : ℕ → String
unfolding nth
digit n = nth n ("0" ∷ "1" ∷ "2" ∷ "3" ∷ "4" ∷ "5" ∷ "6" ∷ "7" ∷ "8" ∷ [])

-- The decimal digits, on fuel: one more than the number is enough.
digits : ℕ → ℕ → String
unfolding digit
digits zero n = ""
digits (suc fuel) n =
    let front = digits fuel (n / 10) in if ltb n 10 then digit n else front ++ digit (n % 10)

-- `str(n)` of an int
unfoldable pub int_text : ℤ → String
unfolding digits
int_text (pos n) = digits (suc n) n
int_text (negsuc n) = "-" ++ digits (suc (suc n)) (suc n)

-- `f"{n:03d}"`
unfoldable pub padded : ℕ → String
unfolding int_text
padded n =
    let shown = int_text (pos n) in
    if ltb n 10 then "00" ++ shown else if ltb n 100 then "0" ++ shown else shown

-- `kind.value`
unfoldable pub kind_value : FieldKind → String
kind_value timestamp_ns = "timestamp_ns"
kind_value nano_dollars = "nano_dollars"
kind_value shares = "shares"
kind_value instrument_id = "instrument_id"
kind_value code = "code"
kind_value conditions = "conditions"
kind_value tape = "tape"
kind_value sequence = "sequence"
kind_value text = "text"
kind_value uuid = "uuid"
kind_value count = "count"
kind_value bool = "bool"
kind_value ratio = "ratio"
kind_value date = "date"

unfoldable pub maturity_value : Maturity → String
maturity_value frozen = "frozen"
maturity_value provisional = "provisional"

unfoldable pub group_value : Option TimeGroup → String
group_value none = ""
group_value (some core) = "core"
group_value (some effective) = "effective"

-- `x or ''`
or_blank : Option String → String
or_blank none = ""
or_blank (some s) = s

-- One line of a field.
unfoldable pub field_line : ℕ → FieldSpec → String
unfolding or_blank
field_line index f =
    "field="
    ++ padded index
    ++ ":"
    ++ f.name
    ++ ":"
    ++ kind_value f.kind
    ++ ":"
    ++ (if f.nullable then "nullable" else "required")
    ++ ":unit="
    ++ or_blank f.unit
    ++ ":codeset="
    ++ or_blank f.codeset

field_lines : ℕ → List FieldSpec → String
field_lines index [] = ""
field_lines index (f ∷ fs) = field_line index f ++ "\n" ++ field_lines (suc index) fs

-- `ContractSpec.canonical_form`
unfoldable pub canonical_form : ContractSpec → String
unfolding field_lines
canonical_form spec =
    "contract="
    ++ spec.name
    ++ "\n"
    ++ "version="
    ++ int_text spec.version
    ++ "\n"
    ++ "maturity="
    ++ maturity_value spec.maturity
    ++ "\n"
    ++ "time_group="
    ++ group_value spec.time_group
    ++ "\n"
    ++ field_lines 0 spec.fields
