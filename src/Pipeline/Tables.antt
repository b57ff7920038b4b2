-- ===== src/Pipeline/Tables.antt =====
-- What the normalization of a partition leaves in the files.
use self_improving_trading_s.Prelude.{◌≡◌, sym, ap, ◌∙◌, List, [], ◌∷◌, String}
use self_improving_trading_s.Errors.{ok}
use self_improving_trading_s.Spec.{ContractSpec}
use self_improving_trading_s.Arrow.{Arrow}
use self_improving_trading_s.Storage.{Formats, Files}
use self_improving_trading_s.Effects.{>>=-eq-ok, lift-eq-ok, gets-eq-ok, pure-eq-ok}
use self_improving_trading_s.Registry.{Contracts, get}
use self_improving_trading_s.Registry.Registered.{WellKept}
use self_improving_trading_s.Reference.{ReferenceData}
use self_improving_trading_s.Vendor.{RawTrade, RawQuote, Builtins, parse_trade, parse_quote}
use self_improving_trading_s.Vendor.Files.{Documents, read_partition}
use self_improving_trading_s.Writer.{KnowledgeTimePolicy}
use self_improving_trading_s.Writer.Store.{WriteReceipt, read_contract_table}
use self_improving_trading_s.Normalize.{
  NormalizationContext, Row, normalize_trades, normalize_quotes, to_table,
}
use self_improving_trading_s.Normalize.Partition.{
  dataset_path, RawListing, write_dataset, write_tables, normalize_partition,
}
use self_improving_trading_s.Pipeline.Written.{
  Stands, Stands-keep, IsWritten, write_dataset-IsWritten,
}

module _ (arrow : Arrow) (formats : Formats arrow) (contracts : Contracts) where
  open arrow use {Table}
  open formats use {Bytes}

  -- The file at a path holds a table, which is that of some rows under a contract.
  pub record IsStored (files : Files Bytes) (name path : String) (rows : List Row) (table : Table)
      : Type 0 where
    pub spec : ContractSpec
    pub spec_is : get name contracts ≡ ok spec
    pub built : to_table arrow rows spec ≡ ok table
    pub read : read_contract_table arrow formats path spec files ≡ ok table

  pub later-Stands :
      {rows : List Row} {name path : String} {files done : Files Bytes} {r : WriteReceipt}
      (later : Files Bytes) (w : IsWritten arrow formats contracts rows name path files r done)
      → later path ≡ done path
      → Stands arrow formats contracts later r w.spec w.table
  later-Stands {done = done} {r = r} later w same =
      Stands-keep arrow formats contracts done later r w.spec w.table
        (ap later w.path_is ∙ (same ∙ sym (ap done w.path_is))) w.stands

  pub later-IsStored :
      {rows : List Row} {name path : String} {files done : Files Bytes} {r : WriteReceipt}
      (later : Files Bytes) (w : IsWritten arrow formats contracts rows name path files r done)
      → later path ≡ done path
      → IsStored later name path rows w.table
  later-IsStored later w same = record {
    spec = w.spec;
    spec_is = w.spec_is;
    built = w.built;
    read =
        sym (ap (λ p. read_contract_table arrow formats p w.spec later) w.path_is)
        ∙ (later-Stands later w same).read;
  }

  -- What the two datasets of a partition leave.
  pub record AreWritten (trade_rows quote_rows : List Row) (root date : String)
      (files : Files Bytes) (receipts : List WriteReceipt) (done : Files Bytes) : Type 0 where
    pub first : WriteReceipt
    pub second : WriteReceipt
    pub mid : Files Bytes
    pub receipts_are : first ∷ second ∷ [] ≡ receipts
    pub first_written :
        IsWritten arrow formats contracts trade_rows "normalized.trade"
          (dataset_path root "trade" date)
          files
          first
          mid
    pub second_written :
        IsWritten arrow formats contracts quote_rows "normalized.quote"
          (dataset_path root "quote" date)
          mid
          second
          done

  write_tables-AreWritten :
      (trade_rows quote_rows : List Row) (root date : String) (policy : KnowledgeTimePolicy)
      (files : Files Bytes) {receipts : List WriteReceipt} {done : Files Bytes}
      → WellKept contracts
      → write_tables arrow formats contracts trade_rows quote_rows root date policy files
        ≡ (ok receipts, done)
      → AreWritten trade_rows quote_rows root date files receipts done
  unfolding write_tables
  write_tables-AreWritten trade_rows quote_rows root date policy files {receipts} {done} w h =
      let trade_path = dataset_path root "trade" date in
      let quote_path = dataset_path root "quote" date in
      let (first, mid, a, h1) =
        >>=-eq-ok
          (write_dataset arrow formats contracts trade_rows "normalized.trade" trade_path policy) _
          files h in
      let (second, last, b, h2) =
        >>=-eq-ok
          (write_dataset arrow formats contracts quote_rows "normalized.quote" quote_path policy) _
          mid h1 in
      let (same, done_is) = pure-eq-ok (first ∷ second ∷ []) last h2 in
      record {
        first = first;
        second = second;
        mid = mid;
        receipts_are = same;
        first_written =
            write_dataset-IsWritten arrow formats contracts trade_rows "normalized.trade" trade_path
              policy files w a;
        second_written =
            write_dataset-IsWritten arrow formats contracts quote_rows "normalized.quote" quote_path
              policy mid w (b ∙ ap (λ fs. (ok second, fs)) done_is);
      }

  -- What `normalize_partition` leaves.
  pub record IsNormalized (documents : Documents Bytes) (builtins : Builtins) (listing : RawListing)
      (reference : ReferenceData) (context : NormalizationContext) (root : String)
      (files : Files Bytes) (receipts : List WriteReceipt) (done : Files Bytes) : Type 0 where
    pub trades : List RawTrade
    pub quotes : List RawQuote
    pub trade_rows : List Row
    pub quote_rows : List Row
    pub trades_read :
        read_partition documents (parse_trade builtins) listing.trades files ≡ ok trades
    pub quotes_read :
        read_partition documents (parse_quote builtins) listing.quotes files ≡ ok quotes
    pub trades_normalized : normalize_trades trades reference.ticker_history context ≡ ok trade_rows
    pub quotes_normalized : normalize_quotes quotes reference.ticker_history context ≡ ok quote_rows
    pub tables :
        AreWritten trade_rows quote_rows root reference.session.session_date files receipts done

  pub partition-IsNormalized :
      (documents : Documents Bytes) (builtins : Builtins) (listing : RawListing)
      (reference : ReferenceData) (context : NormalizationContext) (root : String)
      (files : Files Bytes) {receipts : List WriteReceipt} {done : Files Bytes}
      → WellKept contracts
      → normalize_partition arrow formats contracts documents builtins listing reference context
          root files
        ≡ (ok receipts, done)
      → IsNormalized documents builtins listing reference context root files receipts done
  unfolding normalize_partition
  partition-IsNormalized documents builtins listing reference context root files w h =
      let (trades, a, h1) =
        gets-eq-ok (read_partition documents (parse_trade builtins) listing.trades) _ files h in
      let (quotes, b, h2) =
        gets-eq-ok (read_partition documents (parse_quote builtins) listing.quotes) _ files h1 in
      let history = reference.ticker_history in
      let (trade_rows, c, h3) = lift-eq-ok (normalize_trades trades history context) _ files h2 in
      let (quote_rows, d, h4) = lift-eq-ok (normalize_quotes quotes history context) _ files h3 in
      record {
        trades = trades;
        quotes = quotes;
        trade_rows = trade_rows;
        quote_rows = quote_rows;
        trades_read = a;
        quotes_read = b;
        trades_normalized = c;
        quotes_normalized = d;
        tables =
            write_tables-AreWritten trade_rows quote_rows root reference.session.session_date
              context.knowledge_policy files w h4;
      }
