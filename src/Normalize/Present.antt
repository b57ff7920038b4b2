-- ===== src/Normalize/Present.antt =====
-- Which columns of normalized rows have no null.
use self_improving_trading_s.Prelude.{
  ◌≡◌, refl, sym, ap, ◌∙◌, Bool, true, false, ◌||◌, ◌&&◌, List, [], ◌∷◌, map, all, All, ℤ, in_names,
  arith, ◌⊎◌, inl, inr, Bool-cases,
}
use self_improving_trading_s.Errors.{ok, ok-injective, >>=-eq-ok}
use self_improving_trading_s.Money.{dollars}
use self_improving_trading_s.Ordering.{trade, quote}
use self_improving_trading_s.Instrument.{TickerAssignment, resolve_ticker}
use self_improving_trading_s.Spec.{FieldSpec, Column, ContractSpec, field_names, arrow_field}
use self_improving_trading_s.Contracts.Market.{trade_contract, quote_contract}
use self_improving_trading_s.Arrow.{Arrow, Cell, null, int, text, texts, bool}
use self_improving_trading_s.Storage.{IsPresent}
use self_improving_trading_s.Normalize.{
  RawTrade, RawQuote, NormalizationContext, Row, cells, ordering_columns, trade_row, quote_row,
  to_table,
}
use self_improving_trading_s.Normalize.Tables.{cell_of, cells-to_table}

abbrev holds_value : Cell → Bool
holds_value null = false
holds_value (int n) = true
holds_value (text s) = true
holds_value (texts ss) = true
holds_value (bool b) = true

holds_value-IsPresent : (c : Cell) → holds_value c ≡ true → IsPresent c
holds_value-IsPresent c h e = cc (ap holds_value e, h)

-- A row has a value in each of the fields that want one.
abbrev pub is_complete : List FieldSpec → Row → Bool
is_complete fields r = all (λ (f : FieldSpec). f.nullable || holds_value (cell_of f.name r)) fields

pub trade_row_complete :
    (history : List TickerAssignment) (context : NormalizationContext) (position : ℤ)
    (raw : RawTrade) (r : Row)
    → trade_row history context position raw ≡ ok r
    → is_complete trade_contract.fields r ≡ true
unfolding trade_row cell_of cells trade_contract
trade_row_complete history context position raw r h =
    let (o, a, h1) = >>=-eq-ok (ordering_columns trade raw.vendor_sequence position context) _ h in
    let (i, b, h2) = >>=-eq-ok (resolve_ticker history raw.symbol raw.event_time) _ h1 in
    let (p, c, h3) = >>=-eq-ok (dollars raw.price) _ h2 in
    ap (is_complete trade_contract.fields) (sym (ok-injective h3)) ∙ refl

pub quote_row_complete :
    (history : List TickerAssignment) (context : NormalizationContext) (position : ℤ)
    (raw : RawQuote) (r : Row)
    → quote_row history context position raw ≡ ok r
    → is_complete quote_contract.fields r ≡ true
unfolding quote_row cell_of cells quote_contract
quote_row_complete history context position raw r h =
    let (o, a, h1) = >>=-eq-ok (ordering_columns quote raw.vendor_sequence position context) _ h in
    let (i, b, h2) = >>=-eq-ok (resolve_ticker history raw.symbol raw.event_time) _ h1 in
    let (p, c, h3) = >>=-eq-ok (dollars raw.bid_price) _ h2 in
    let (q, d, h4) = >>=-eq-ok (dollars raw.ask_price) _ h3 in
    ap (is_complete quote_contract.fields) (sym (ok-injective h4)) ∙ refl

-- What each row has in a column, all rows have.
column-IsPresent :
    (f : FieldSpec) (rows : List Row)
    → All (λ (r : Row). (f.nullable || holds_value (cell_of f.name r)) ≡ true) rows
    → (f.nullable ≡ true) ⊎ All IsPresent (map (cell_of f.name) rows)
column-IsPresent f [] h = inr tt
column-IsPresent f (r ∷ rs) (h, hs) = elim (column-IsPresent f rs hs) [
  | inl e ↦ inl e
  | inr each ↦ elim (Bool-cases f.nullable) [
    | inl e ↦ inl e
    | inr e ↦ inr (holds_value-IsPresent (cell_of f.name r) (rw e at h), each)
  ]
]

both : (x y : Bool) → (x && y) ≡ true → (x ≡ true) × (y ≡ true)
both x y h = ground arith

first_field :
    (f : FieldSpec) (fields : List FieldSpec) (rows : List Row)
    → All (λ (r : Row). is_complete (f ∷ fields) r ≡ true) rows
    → All (λ (r : Row). (f.nullable || holds_value (cell_of f.name r)) ≡ true) rows
      × All (λ (r : Row). is_complete fields r ≡ true) rows
first_field f fields [] h = (tt, tt)
first_field f fields (r ∷ rs) (h, hs) =
    let (a, b) = first_field f fields rs hs in
    let (x, y) = both (f.nullable || holds_value (cell_of f.name r)) (is_complete fields r) h in
    ((x, a), (y, b))

-- The table of complete rows has no null in a column that wants values.
pub to_table-NoMissing :
    (arrow : Arrow) (rows : List Row) (contract : ContractSpec) {t : arrow.Table}
    → to_table arrow rows contract ≡ ok t
    → (fields : List FieldSpec)
    → all (λ (f : FieldSpec). in_names f.name (field_names contract)) fields ≡ true
    → All (λ (r : Row). is_complete fields r ≡ true) rows
    → All
        (λ (c : Column). (c.nullable ≡ true) ⊎ All IsPresent (arrow.column t c.name))
        (map arrow_field fields)
unfolding arrow_field
to_table-NoMissing arrow rows contract built [] named complete = tt
to_table-NoMissing arrow rows contract {t} built (f ∷ fields) named complete =
    let (first, rest) = first_field f fields rows complete in
    let (listed, more) = both (in_names f.name (field_names contract)) _ named in
    (
      rw (cells-to_table arrow rows contract f.name built listed) (column-IsPresent f rows first),
      to_table-NoMissing arrow rows contract built fields more rest,
    )

pub trade_names :
    all (λ (f : FieldSpec). in_names f.name (field_names trade_contract)) trade_contract.fields
    ≡ true
unfolding trade_contract field_names
trade_names = refl

pub quote_names :
    all (λ (f : FieldSpec). in_names f.name (field_names quote_contract)) quote_contract.fields
    ≡ true
unfolding quote_contract field_names
quote_names = refl
