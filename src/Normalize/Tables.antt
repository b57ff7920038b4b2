-- ===== src/Normalize/Tables.antt =====
-- The columns of the table that is built from rows.
use self_improving_trading_s.Prelude.{
  ◌≡◌, sym, ap, ◌∙◌, true, none, some, List, [], ◌∷◌, map, String, lookup, in_names, str_eq,
  str_eq_iff, Option-cases, Bool-cases, inl, inr,
}
use self_improving_trading_s.Errors.{ok, >>=-eq-ok}
use self_improving_trading_s.Spec.{ContractSpec, field_names, arrow_schema}
use self_improving_trading_s.Arrow.{Arrow, Cell, null, as_int}
use self_improving_trading_s.Writer.{int_column}
use self_improving_trading_s.Normalize.{Row, cells, column_of, columns_of, to_table}

-- The cell of a row in a column.
unfoldable pub cell_of : String → Row → Cell
cell_of name r = elim (lookup name (cells r)) [ none ↦ null | some c ↦ c ]

column_of-eq :
    (name : String) (rows : List Row) {column : List Cell}
    → column_of name rows ≡ ok column
    → column ≡ map (cell_of name) rows
unfolding column_of cell_of
column_of-eq name [] h = cc
column_of-eq name (r ∷ rs) {column = column} h = elim (Option-cases (lookup name (cells r))) [
  | inl e ↦ cc (rw (e, column_of) at h)
  | inr (c, e) ↦
      let (rest, b, k) = >>=-eq-ok (column_of name rs) _ (rw (e, column_of) at h) in
      let ih = column_of-eq name rs b in
      let same : c ∷ rest ≡ column = cc in rw (e, cell_of) (sym same ∙ ap (◌∷◌ c) ih)
]

lookup-columns :
    (name : String) (names : List String) (rows : List Row) {columns : List (String × List Cell)}
    → in_names name names ≡ true
    → columns_of names rows ≡ ok columns
    → lookup name columns ≡ some (map (cell_of name) rows)
unfolding columns_of
lookup-columns name [] rows e h = cc
lookup-columns name (n ∷ names) rows {columns = columns} e h =
    let (column, a, h1) = >>=-eq-ok (column_of n rows) _ h in
    let (rest, b, h2) = >>=-eq-ok (columns_of names rows) _ h1 in
    let same : (n, column) ∷ rest ≡ columns = cc in
    rw (← same) (elim (Bool-cases (str_eq n name)) [
      | inl k ↦ rw k (
          ap some
            (column_of-eq n rows a ∙ ap (λ m. map (cell_of m) rows) ((str_eq_iff n name).0 k)))
      | inr k ↦ rw k (lookup-columns name names rows (rw k at e) b)
    ])

-- Each column of the contract holds the cells of the rows, in their order.
pub cells-to_table :
    (arrow : Arrow) (rows : List Row) (contract : ContractSpec) {t : arrow.Table} (name : String)
    → to_table arrow rows contract ≡ ok t
    → in_names name (field_names contract) ≡ true
    → arrow.column t name ≡ map (cell_of name) rows
unfolding to_table
cells-to_table arrow rows contract {t} name h e =
    let (columns, a, b) = >>=-eq-ok (columns_of (field_names contract) rows) _ h in
    arrow.table_column columns (arrow_schema contract) t name (map (cell_of name) rows) b
      (lookup-columns name (field_names contract) rows e a)

-- Each column of ints holds the numbers of the rows, in their order.
pub column-to_table :
    (arrow : Arrow) (rows : List Row) (contract : ContractSpec) {t : arrow.Table} (name : String)
    → to_table arrow rows contract ≡ ok t
    → in_names name (field_names contract) ≡ true
    → int_column arrow t name ≡ map as_int (map (cell_of name) rows)
column-to_table arrow rows contract name h e =
    ap (map as_int) (cells-to_table arrow rows contract name h e)
