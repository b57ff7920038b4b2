-- ===== src/Normalize/Stored.antt =====
-- What is normalized can be written, and is read back as it was.
use self_improving_trading_s.Prelude.{◌≡◌, refl, ap, ◌∙◌, List, String, All, all, true, in_names}
use self_improving_trading_s.Errors.{ok, >>=-eq-ok}
use self_improving_trading_s.Instrument.{TickerAssignment}
use self_improving_trading_s.Spec.{FieldSpec, ContractSpec, field_names, arrow_schema}
use self_improving_trading_s.Contracts.Market.{trade_contract, quote_contract}
use self_improving_trading_s.Arrow.{Arrow}
use self_improving_trading_s.Storage.{Formats, Files, NoMissing}
use self_improving_trading_s.Writer.{KnowledgeTimePolicy}
use self_improving_trading_s.Writer.Schemas.{check_schema_iff}
use self_improving_trading_s.Writer.Store.{
  WriteReceipt, checks_of_write, write_contract_table, read_contract_table,
}
use self_improving_trading_s.Writer.Kept.{read_back, write_passed}
use self_improving_trading_s.Normalize.{
  RawTrade, RawQuote, NormalizationContext, Row, normalize_trades, normalize_quotes, columns_of,
  to_table, trade_row, quote_row, sorted_by_key,
}
use self_improving_trading_s.Normalize.Rows.{normalized}
use self_improving_trading_s.Normalize.Good.{trade_row_lem, quote_row_lem}
use self_improving_trading_s.Normalize.Present.{
  is_complete, trade_row_complete, quote_row_complete, trade_names, quote_names, to_table-NoMissing,
}
use self_improving_trading_s.Normalize.Passes.{IsTimely, IsOrdered}
use self_improving_trading_s.Normalize.Written.{Passes, trades_pass, quotes_pass}

to_table-schema :
    (arrow : Arrow) (rows : List Row) (contract : ContractSpec) {t : arrow.Table}
    → to_table arrow rows contract ≡ ok t
    → arrow.schema t ≡ arrow_schema contract
unfolding to_table
to_table-schema arrow rows contract {t} h =
    let (columns, a, b) = >>=-eq-ok (columns_of (field_names contract) rows) _ h in
    arrow.table_schema columns (arrow_schema contract) t b

module _ (arrow : Arrow) (formats : Formats arrow) where
  -- Writing the table gives a receipt, and reading the file it was written to gives the table.
  pub record IsKept (t : arrow.Table) (contract : ContractSpec) (path : String)
      (policy : KnowledgeTimePolicy) (files : Files formats.Bytes) : Type 0 where
    pub receipt : WriteReceipt
    pub accepted : (write_contract_table arrow formats t contract path policy files).0 ≡ ok receipt
    pub read :
        read_contract_table arrow formats path contract
          (write_contract_table arrow formats t contract path policy files).1
        ≡ ok t

  kept :
      (rows : List Row) (t : arrow.Table) (contract : ContractSpec) (path : String)
      (policy : KnowledgeTimePolicy) (files : Files formats.Bytes)
      → to_table arrow rows contract ≡ ok t
      → all (λ (f : FieldSpec). in_names f.name (field_names contract)) contract.fields ≡ true
      → All (λ (r : Row). is_complete contract.fields r ≡ true) rows
      → Passes arrow t contract policy
      → IsKept t contract path policy files
  unfolding checks_of_write
  kept rows t contract path policy files built named complete (a, b, c) =
      let same = to_table-schema arrow rows contract built in
      let schema = (check_schema_iff arrow t contract).1 same in
      let (content, encoded) = formats.parquet_writes t (no_missing same) in
      let (r, e) =
        write_passed arrow formats t contract path policy files content (rw (schema, a, b, c) refl)
          encoded in
      record {
        receipt = r;
        accepted = ap (λ w. w.0) e;
        read =
            ap (λ w. read_contract_table arrow formats path contract w.1) e
            ∙ read_back arrow formats t contract path files content encoded schema;
      }
    where
      no_missing : arrow.schema t ≡ arrow_schema contract → NoMissing arrow t
      no_missing same =
          unfold arrow_schema in
          rw same (to_table-NoMissing arrow rows contract built contract.fields named complete)

  -- If processing does not precede reception, the declared lag is not negative, and each trade was
  -- received after it happened and has a plausible knowledge time under the context's policy, then the
  -- table of the normalized trades can be written under the policy and is read back as it was.
  pub trades-IsKept :
      (raws : List RawTrade) (history : List TickerAssignment) (context : NormalizationContext)
      (path : String) (files : Files formats.Bytes) {rows : List Row} {t : arrow.Table}
      → IsOrdered context
      → All (λ (raw : RawTrade). IsTimely context raw.event_time) raws
      → normalize_trades raws history context ≡ ok rows
      → to_table arrow rows trade_contract ≡ ok t
      → IsKept t trade_contract path context.knowledge_policy files
  unfolding normalize_trades sorted_by_key
  trades-IsKept raws history context path files {rows} {t} c timely n built =
      kept rows t trade_contract path context.knowledge_policy files built trade_names
        (normalized (trade_row history context)
          (λ p raw r h. (trade_row_lem history context p raw r h).index)
          (λ raw. IsTimely context raw.event_time) (λ r. is_complete trade_contract.fields r ≡ true)
          (λ p raw r q h. trade_row_complete history context p raw r h) raws timely n).0
        (trades_pass arrow raws history context c timely n built)

  -- If processing does not precede reception, the declared lag is not negative, and each quote was
  -- received after it happened and has a plausible knowledge time under the context's policy, then the
  -- table of the normalized quotes can be written under the policy and is read back as it was.
  pub quotes-IsKept :
      (raws : List RawQuote) (history : List TickerAssignment) (context : NormalizationContext)
      (path : String) (files : Files formats.Bytes) {rows : List Row} {t : arrow.Table}
      → IsOrdered context
      → All (λ (raw : RawQuote). IsTimely context raw.event_time) raws
      → normalize_quotes raws history context ≡ ok rows
      → to_table arrow rows quote_contract ≡ ok t
      → IsKept t quote_contract path context.knowledge_policy files
  unfolding normalize_quotes sorted_by_key
  quotes-IsKept raws history context path files {rows} {t} c timely n built =
      kept rows t quote_contract path context.knowledge_policy files built quote_names
        (normalized (quote_row history context)
          (λ p raw r h. (quote_row_lem history context p raw r h).index)
          (λ raw. IsTimely context raw.event_time) (λ r. is_complete quote_contract.fields r ≡ true)
          (λ p raw r q h. quote_row_complete history context p raw r h) raws timely n).0
        (quotes_pass arrow raws history context c timely n built)
