-- ===== src/Arrow.antt =====
-- What the code relies on of pyarrow, which is not part of the repository: a table has a schema and
-- columns of cells, and `pa.table` builds one from columns or raises.
use self_improving_trading_s.Prelude.{ℕ, ◌≡◌, Bool, Option, none, some, List, String, ℤ, lookup}
use self_improving_trading_s.Errors.{Result, ok}
use self_improving_trading_s.Spec.{Column}

-- A value of a row or of a column as Python has it. Ratios are floats and have no constructor: no
-- modelled code writes one.
pub data Cell : Type 0 where
  null : Cell
  int : ℤ → Cell
  text : String → Cell
  texts : List String → Cell
  bool : Bool → Cell

-- A cell of an int column: a number, or None.
abbrev pub as_int : Cell → Option ℤ
as_int (int n) = some n
as_int _ = none

pub record Arrow : Type 1 where
  pub Table : Type 0
  pub schema : Table → List Column
  -- `table.column(name).to_pylist()`
  pub column : Table → String → List Cell
  pub num_rows : Table → ℕ
  -- `pa.table(columns, schema=schema)`
  pub table : List (String × List Cell) → List Column → Result Table
  pub concat_tables : List Table → Result Table
  pub table_schema :
      (cs : List (String × List Cell)) (s : List Column) (t : Table)
      → table cs s ≡ ok t
      → schema t ≡ s
  pub table_column :
      (cs : List (String × List Cell)) (s : List Column) (t : Table) (n : String) (c : List Cell)
      → table cs s ≡ ok t
      → lookup n cs ≡ some c
      → column t n ≡ c
