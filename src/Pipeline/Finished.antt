-- ===== src/Pipeline/Finished.antt =====
-- The files and the result once the bars and the manifest are written.
use self_improving_trading_s.Prelude.{
  ◌≡◌, refl, sym, ap, ◌∙◌, List, [], ◌∷◌, ◌++◌, map, String, str_eq_iff,
}
use self_improving_trading_s.Errors.{ok}
use self_improving_trading_s.Spec.{ContractSpec}
use self_improving_trading_s.Arrow.{Arrow}
use self_improving_trading_s.Storage.{Formats, Files, store, store_elsewhere}
use self_improving_trading_s.Effects.{◌>>=◌, lift, >>=-eq-ok, lift-eq-ok, pure-eq-ok}
use self_improving_trading_s.Registry.{Contracts, get}
use self_improving_trading_s.Registry.Registered.{WellKept}
use self_improving_trading_s.Writer.Store.{WriteReceipt}
use self_improving_trading_s.Snapshot.{SnapshotManifest, build_manifest}
use self_improving_trading_s.Snapshot.Paths.{child_path}
use self_improving_trading_s.Bars.{Bar}
use self_improving_trading_s.Bars.Rows.{bar_row}
use self_improving_trading_s.Normalize.{NormalizationContext, Row}
use self_improving_trading_s.Normalize.Partition.{dataset_path, write_dataset}
use self_improving_trading_s.Pipeline.{
  SnapshotResult, RunOptions, versions_of, write_manifest, seal,
}
use self_improving_trading_s.Pipeline.Inputs.{receipt_for, inputs_of, stored_trades}
use self_improving_trading_s.Pipeline.Tables.{AreWritten}
use self_improving_trading_s.Pipeline.Paths.{
  trade-IsName, quote-IsName, bar-IsName, IsName, dataset_path-apart, manifest_apart,
}
use self_improving_trading_s.Pipeline.Written.{Stands, IsWritten, write_dataset-IsWritten}

module _ (arrow : Arrow) (formats : Formats arrow) (contracts : Contracts) where
  open arrow use {Table}
  open formats use {Bytes}

  trade_receipt :
      (first : WriteReceipt) (rest : List WriteReceipt)
      → first.contract ≡ "normalized.trade"
      → receipt_for "normalized.trade" (first ∷ rest) ≡ ok first
  unfolding receipt_for
  trade_receipt first rest e = rw ((str_eq_iff first.contract "normalized.trade").1 e)

  -- The trades that the bars are built from are those of the table of the first receipt.
  pub inputs-of_first :
      (first : WriteReceipt) (rest : List WriteReceipt) (files : Files Bytes) (spec : ContractSpec)
      (table : Table)
      → first.contract ≡ "normalized.trade"
      → Stands arrow formats contracts files first spec table
      → stored_trades arrow formats contracts (first ∷ rest) files ≡ inputs_of arrow table
  unfolding stored_trades
  inputs-of_first first rest files spec table e s =
      rw (trade_receipt first rest e, ap (λ n. get n contracts) (sym e) ∙ s.spec_is, s.read)

  -- What the bars and the manifest add to the files.
  pub record IsFinished (json : SnapshotManifest → Bytes) (receipts : List WriteReceipt)
      (bars : List Bar) (date root : String) (options : RunOptions) (files : Files Bytes)
      (result : SnapshotResult) (done : Files Bytes) : Type 0 where
    pub bar_receipt : WriteReceipt
    pub last : Files Bytes
    pub bar_written :
        IsWritten arrow formats contracts
          (map bar_row bars)
          "normalized.bar"
          (dataset_path root "bar" date)
          files
          bar_receipt
          last
    pub manifest_is :
        build_manifest (receipts ++ (bar_receipt ∷ [])) root (versions_of options)
        ≡ ok result.manifest
    pub receipts_are : receipts ++ (bar_receipt ∷ []) ≡ result.receipts
    pub done_is : store (child_path root "manifest.json") (json result.manifest) last ≡ done

  manifest_written :
      (json : SnapshotManifest → Bytes) (manifest : SnapshotManifest)
      (all_receipts : List WriteReceipt) (root : String) (files : Files Bytes)
      {result : SnapshotResult} {done : Files Bytes}
      → (write_manifest arrow formats contracts json manifest root >>= λ destination.
            lift (ok (record { manifest = manifest; receipts = all_receipts; root = root })))
          files
        ≡ (ok result, done)
      → (◌≡◌ {A = SnapshotResult}
          (record { manifest = manifest; receipts = all_receipts; root = root })
          result)
        × (store (child_path root "manifest.json") (json manifest) files ≡ done)
  unfolding write_manifest
  manifest_written json manifest all_receipts root files h = pure-eq-ok _ _ (unfold ◌>>=◌ in h)

  pub seal-IsFinished :
      (json : SnapshotManifest → Bytes) (receipts : List WriteReceipt) (bars : List Bar)
      (date root : String) (context : NormalizationContext) (options : RunOptions)
      (files : Files Bytes) {result : SnapshotResult} {done : Files Bytes}
      → WellKept contracts
      → seal arrow formats contracts json receipts bars date root context options files
        ≡ (ok result, done)
      → IsFinished json receipts bars date root options files result done
  unfolding seal
  seal-IsFinished json receipts bars date root context options files w h =
      let path = dataset_path root "bar" date in
      let policy = context.knowledge_policy in
      let (r, last, a, h1) =
        >>=-eq-ok
          (write_dataset arrow formats contracts (map bar_row bars) "normalized.bar" path policy) _
          files h in
      let every = receipts ++ (r ∷ []) in
      let (manifest, b, h2) =
        lift-eq-ok (build_manifest every root (versions_of options)) _ last h1 in
      let (same, done_is) = manifest_written json manifest every root last h2 in
      record {
        bar_receipt = r;
        last = last;
        bar_written =
            write_dataset-IsWritten arrow formats contracts (map bar_row bars) "normalized.bar" path
              policy files w a;
        manifest_is = b ∙ ap (λ (s : SnapshotResult). ok s.manifest) same;
        receipts_are = ap (λ (s : SnapshotResult). s.receipts) same;
        done_is =
            ap
              (λ (s : SnapshotResult).
                store (child_path root "manifest.json") (json s.manifest) last)
              (sym same)
            ∙ done_is;
      }

  -- The last files hold the three datasets as they were written.
  pub record AreKept (json : SnapshotManifest → Bytes) (trade_rows quote_rows : List Row)
      (root date : String) (files : Files Bytes) (receipts : List WriteReceipt) (mid : Files Bytes)
      (bars : List Bar) (options : RunOptions) (result : SnapshotResult) (done : Files Bytes)
      (t : AreWritten arrow formats contracts trade_rows quote_rows root date files receipts mid)
      (f : IsFinished json receipts bars date root options mid result done) : Type 0 where
    pub trade_same : done (dataset_path root "trade" date) ≡ t.mid (dataset_path root "trade" date)
    pub quote_same : done (dataset_path root "quote" date) ≡ mid (dataset_path root "quote" date)
    pub bar_same : done (dataset_path root "bar" date) ≡ f.last (dataset_path root "bar" date)

  pub kept :
      {json : SnapshotManifest → Bytes} {trade_rows quote_rows : List Row} {root date : String}
      {files : Files Bytes} {receipts : List WriteReceipt} {mid : Files Bytes} {bars : List Bar}
      {options : RunOptions} {result : SnapshotResult} {done : Files Bytes}
      (t : AreWritten arrow formats contracts trade_rows quote_rows root date files receipts mid)
      (f : IsFinished json receipts bars date root options mid result done)
      → AreKept json trade_rows quote_rows root date files receipts mid bars options result done t f
  kept {json = json} {root = root} {date = date} {result = result} {done = done} t f = record {
    trade_same =
        past_manifest "trade" trade-IsName
        ∙ (f.bar_written.others _
              (dataset_path-apart root "trade" "bar" date trade-IsName bar-IsName refl)
            ∙ t.second_written.others _
                (dataset_path-apart root "trade" "quote" date trade-IsName quote-IsName refl));
    quote_same =
        past_manifest "quote" quote-IsName
        ∙ f.bar_written.others _
            (dataset_path-apart root "quote" "bar" date quote-IsName bar-IsName refl);
    bar_same = past_manifest "bar" bar-IsName;
  }
    where
      past_manifest :
          (dataset : String)
          → IsName dataset
          → done (dataset_path root dataset date) ≡ f.last (dataset_path root dataset date)
      past_manifest dataset name =
          ap (λ (fs : Files Bytes). fs (dataset_path root dataset date)) (sym f.done_is)
          ∙ store_elsewhere (child_path root "manifest.json") (dataset_path root dataset date)
              (json result.manifest) f.last (λ e. manifest_apart root dataset date name (sym e))
