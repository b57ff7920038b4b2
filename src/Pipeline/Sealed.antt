-- ===== src/Pipeline/Sealed.antt =====
-- A run leaves a sealed snapshot of what it normalized.
use mathlib.Core.Path.{subst}
use self_improving_trading_s.Prelude.{
  ◌≡◌, refl, sym, ap, ◌∙◌, List, [], ◌∷◌, ◌++◌, map, String, All,
}
use self_improving_trading_s.Errors.{ok}
use self_improving_trading_s.Spec.{ContractSpec}
use self_improving_trading_s.Arrow.{Arrow}
use self_improving_trading_s.Storage.{Formats, Files, read_bytes, store-read}
use self_improving_trading_s.Snapshot.Paths.{child_path}
use self_improving_trading_s.Effects.{>>=-eq-ok, lift-eq-ok, gets-eq-ok}
use self_improving_trading_s.Registry.{Contracts}
use self_improving_trading_s.Registry.Registered.{WellKept}
use self_improving_trading_s.Reference.{ReferenceData}
use self_improving_trading_s.Vendor.{RawTrade, RawQuote, Builtins, parse_trade, parse_quote}
use self_improving_trading_s.Vendor.Files.{Documents, read_partition}
use self_improving_trading_s.Writer.Store.{WriteReceipt}
use self_improving_trading_s.Snapshot.{SnapshotManifest, build_manifest, verify_snapshot}
use self_improving_trading_s.Snapshot.Verified.{IsCurrent, build_manifest-verified}
use self_improving_trading_s.Snapshot.Sealed.{IsReadable, IsServed, sealed-IsServed}
use self_improving_trading_s.Bars.{TradeInput, Bar, build_bars}
use self_improving_trading_s.Bars.Rows.{bar_row}
use self_improving_trading_s.Normalize.{
  NormalizationContext, Row, normalize_trades, normalize_quotes,
}
use self_improving_trading_s.Normalize.Partition.{dataset_path, RawListing, normalize_partition}
use self_improving_trading_s.Pipeline.{
  SnapshotResult, RunOptions, bar_settings, versions_of, reference_at, run,
}
use self_improving_trading_s.Pipeline.Inputs.{inputs_of, stored_trades}
use self_improving_trading_s.Pipeline.Tables.{
  IsStored, later-Stands, later-IsStored, IsNormalized, partition-IsNormalized,
}
use self_improving_trading_s.Pipeline.Paths.{trade-IsName, quote-IsName, dataset_path-apart}
use self_improving_trading_s.Pipeline.Written.{Stands, Stands-IsReadable, Stands-IsCurrent}
use self_improving_trading_s.Pipeline.Finished.{inputs-of_first, IsFinished, seal-IsFinished, kept}

module _ (arrow : Arrow) (formats : Formats arrow) (contracts : Contracts) where
  open arrow use {Table}
  open formats use {Bytes}

  -- The snapshot of a run verifies, serves every file that was written, and holds the manifest, the
  -- normalized trades and quotes of the partition and the bars that are built from the stored trades.
  pub record IsSealed (documents : Documents Bytes) (builtins : Builtins)
      (json : SnapshotManifest → Bytes) (listing : RawListing) (reference_path root : String)
      (context : NormalizationContext) (options : RunOptions) (files : Files Bytes)
      (result : SnapshotResult) (done : Files Bytes) : Type 0 where
    pub reference : ReferenceData
    pub trades : List RawTrade
    pub quotes : List RawQuote
    pub trade_rows : List Row
    pub quote_rows : List Row
    pub inputs : List TradeInput
    pub bars : List Bar
    pub trade_table : Table
    pub quote_table : Table
    pub bar_table : Table
    pub reference_read :
        reference_at arrow formats contracts documents builtins reference_path files ≡ ok reference
    pub trades_read :
        read_partition documents (parse_trade builtins) listing.trades files ≡ ok trades
    pub quotes_read :
        read_partition documents (parse_quote builtins) listing.quotes files ≡ ok quotes
    pub trades_normalized : normalize_trades trades reference.ticker_history context ≡ ok trade_rows
    pub quotes_normalized : normalize_quotes quotes reference.ticker_history context ≡ ok quote_rows
    pub trades_stored :
        IsStored arrow formats contracts done "normalized.trade"
          (dataset_path root "trade" reference.session.session_date)
          trade_rows
          trade_table
    pub quotes_stored :
        IsStored arrow formats contracts done "normalized.quote"
          (dataset_path root "quote" reference.session.session_date)
          quote_rows
          quote_table
    pub inputs_are : inputs_of arrow trade_table ≡ ok inputs
    pub bars_built : build_bars inputs (bar_settings reference context options) ≡ ok bars
    pub bars_stored :
        IsStored arrow formats contracts done "normalized.bar"
          (dataset_path root "bar" reference.session.session_date)
          (map bar_row bars)
          bar_table
    pub receipts_are :
        map (λ (r : WriteReceipt). r.contract) result.receipts
        ≡ "normalized.trade" ∷ "normalized.quote" ∷ "normalized.bar" ∷ []
    pub manifest_stored :
        read_bytes (child_path root "manifest.json") done ≡ ok (json result.manifest)
    pub verified : verify_snapshot arrow formats result.manifest root done ≡ []
    pub served :
        All
          (IsServed arrow formats contracts
            (record { root = root; manifest = result.manifest })
            done)
          result.receipts

  assembled :
      (documents : Documents Bytes) (builtins : Builtins) (json : SnapshotManifest → Bytes)
      (listing : RawListing) (reference_path root : String) (context : NormalizationContext)
      (options : RunOptions) (files : Files Bytes) (reference : ReferenceData)
      (receipts : List WriteReceipt) (mid : Files Bytes) (inputs : List TradeInput)
      (bars : List Bar) {result : SnapshotResult} {done : Files Bytes}
      → reference_at arrow formats contracts documents builtins reference_path files ≡ ok reference
      → IsNormalized arrow formats contracts documents builtins listing reference context root files
          receipts mid
      → stored_trades arrow formats contracts receipts mid ≡ ok inputs
      → build_bars inputs (bar_settings reference context options) ≡ ok bars
      → IsFinished arrow formats contracts json receipts bars reference.session.session_date root
          options mid result done
      → IsSealed documents builtins json listing reference_path root context options files result
          done
  assembled documents builtins json listing reference_path root context options files reference
        receipts mid inputs bars {result} {done} loaded n stored built f =
      let t = n.tables in
      let k = kept arrow formats contracts t f in
      let apart =
        dataset_path-apart root "trade" "quote" reference.session.session_date trade-IsName
          quote-IsName refl in
      let trade_mid =
        later-Stands arrow formats contracts mid t.first_written
          (t.second_written.others _ apart) in
      let every = t.first ∷ t.second ∷ f.bar_receipt ∷ [] in
      let listed : every ≡ receipts ++ (f.bar_receipt ∷ []) =
        ap (λ (rs : List WriteReceipt). rs ++ (f.bar_receipt ∷ [])) t.receipts_are in
      let manifest : build_manifest every root (versions_of options) ≡ ok result.manifest =
        ap (λ rs. build_manifest rs root (versions_of options)) listed ∙ f.manifest_is in
      let trade_later = later-Stands arrow formats contracts done t.first_written k.trade_same in
      let quote_later = later-Stands arrow formats contracts done t.second_written k.quote_same in
      let bar_later = later-Stands arrow formats contracts done f.bar_written k.bar_same in
      record {
        reference = reference;
        trades = n.trades;
        quotes = n.quotes;
        trade_rows = n.trade_rows;
        quote_rows = n.quote_rows;
        inputs = inputs;
        bars = bars;
        trade_table = t.first_written.table;
        quote_table = t.second_written.table;
        bar_table = f.bar_written.table;
        reference_read = loaded;
        trades_read = n.trades_read;
        quotes_read = n.quotes_read;
        trades_normalized = n.trades_normalized;
        quotes_normalized = n.quotes_normalized;
        trades_stored = later-IsStored arrow formats contracts done t.first_written k.trade_same;
        quotes_stored = later-IsStored arrow formats contracts done t.second_written k.quote_same;
        inputs_are =
            sym (
              inputs-of_first arrow formats contracts t.first (t.second ∷ []) mid
                t.first_written.spec t.first_written.table t.first_written.contract_is trade_mid)
            ∙ (ap (λ rs. stored_trades arrow formats contracts rs mid) t.receipts_are ∙ stored);
        bars_built = built;
        bars_stored = later-IsStored arrow formats contracts done f.bar_written k.bar_same;
        receipts_are =
            ap (map (λ (r : WriteReceipt). r.contract)) (sym f.receipts_are ∙ sym listed)
            ∙ (rw (
              t.first_written.contract_is, t.second_written.contract_is, f.bar_written.contract_is,
            ));
        manifest_stored =
            ap (read_bytes (child_path root "manifest.json")) (sym f.done_is)
            ∙ store-read (child_path root "manifest.json") (json result.manifest) f.last;
        verified =
            build_manifest-verified arrow formats every root (versions_of options) done manifest
              (current trade_later, (current quote_later, (current bar_later, tt)));
        served =
            subst
              (λ (rs : List WriteReceipt).
                All
                  (IsServed arrow formats contracts
                    (record { root = root; manifest = result.manifest }) done)
                  rs)
              (listed ∙ f.receipts_are)
              (sealed-IsServed arrow formats contracts every root (versions_of options) done
                manifest (readable trade_later, (readable quote_later, (readable bar_later, tt))));
      }
    where
      current :
          {r : WriteReceipt} {spec : ContractSpec} {table : Table}
          → Stands arrow formats contracts done r spec table
          → IsCurrent arrow formats done r
      current {r} {spec} {table} = Stands-IsCurrent arrow formats contracts done r spec table

      readable :
          {r : WriteReceipt} {spec : ContractSpec} {table : Table}
          → Stands arrow formats contracts done r spec table
          → IsReadable arrow formats contracts done r
      readable {r} {spec} {table} = Stands-IsReadable arrow formats contracts done r spec table

  -- After a run that returns, from contracts that stand under their own names, the snapshot verifies,
  -- its reader serves the table of each of the three receipts, for trades, quotes and bars, and the
  -- files hold the manifest and the tables of the normalized trades and quotes of the raw partition, read before the
  -- run, and of the bars that are built from the stored trades.
  pub run-IsSealed :
      (documents : Documents Bytes) (builtins : Builtins) (json : SnapshotManifest → Bytes)
      (listing : RawListing) (reference_path root : String) (context : NormalizationContext)
      (options : RunOptions) (files : Files Bytes) {result : SnapshotResult} {done : Files Bytes}
      → WellKept contracts
      → run arrow formats contracts documents builtins json listing reference_path root context
          options files
        ≡ (ok result, done)
      → IsSealed documents builtins json listing reference_path root context options files result
          done
  unfolding run
  run-IsSealed documents builtins json listing reference_path root context options files {result}
        {done} w h =
      let (reference, loaded, h1) =
        gets-eq-ok (reference_at arrow formats contracts documents builtins reference_path) _ files
          h in
      let (receipts, mid, a, h2) =
        >>=-eq-ok
          (normalize_partition arrow formats contracts documents builtins listing reference context
            root)
          _ files h1 in
      let (inputs, b, h3) = gets-eq-ok (stored_trades arrow formats contracts receipts) _ mid h2 in
      let (bars, c, h4) =
        lift-eq-ok (build_bars inputs (bar_settings reference context options)) _ mid h3 in
      let n =
        partition-IsNormalized arrow formats contracts documents builtins listing reference context
          root files w a in
      let date = reference.session.session_date in
      let f =
        seal-IsFinished arrow formats contracts json receipts bars date root context options mid w
          h4 in
      assembled documents builtins json listing reference_path root context options files reference
        receipts mid inputs bars loaded n b c f
