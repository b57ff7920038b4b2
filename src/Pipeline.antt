-- ===== src/Pipeline.antt =====
-- packages/market_data/src/trading/market_data/pipeline.py: from a raw partition to a sealed snapshot. The
-- JSON of the manifest is a parameter, as the bytes that are written.
pub mod Inputs
pub mod Paths
pub mod Written
pub mod Tables
pub mod Finished
pub mod Sealed
use self_improving_trading_s.Prelude.{List, [], ◌∷◌, ◌++◌, map, String, ℤ}
use self_improving_trading_s.Errors.{Result, ok, err}
use self_improving_trading_s.Errors
use self_improving_trading_s.Arrow.{Arrow}
use self_improving_trading_s.Storage.{Formats, Files, store, read_bytes}
use self_improving_trading_s.Effects.{Effect, ◌>>=◌, lift, gets}
use self_improving_trading_s.Registry.{Contracts}
use self_improving_trading_s.Reference.{ReferenceData, load_reference}
use self_improving_trading_s.Vendor.{Builtins}
use self_improving_trading_s.Vendor.Files.{Documents}
use self_improving_trading_s.Writer.Store.{WriteReceipt}
use self_improving_trading_s.Snapshot.{SnapshotManifest, Versions, build_manifest}
use self_improving_trading_s.Snapshot.Paths.{child_path}
use self_improving_trading_s.Bars.{Bar, BarSettings, build_bars}
use self_improving_trading_s.Bars.Rows.{bar_row}
use self_improving_trading_s.Normalize.{NormalizationContext}
use self_improving_trading_s.Normalize.Partition.{
  dataset_path, RawListing, write_dataset, normalize_partition,
}
use self_improving_trading_s.Pipeline.Inputs.{stored_trades}

pub record SnapshotResult : Type 0 where
  pub manifest : SnapshotManifest
  pub receipts : List WriteReceipt
  pub root : String

-- The keyword arguments of `run`.
pub record RunOptions : Type 0 where
  pub as_of : ℤ
  pub window_ns : ℤ
  pub calendar_version : String

-- The keyword arguments of `build_bars` in `run`.
unfoldable pub bar_settings : ReferenceData → NormalizationContext → RunOptions → BarSettings
bar_settings reference context options = record {
  window_ns = options.window_ns;
  origin_ns = reference.session.regular_open_ns;
  as_of = options.as_of;
  raw_partition_id = context.raw_partition_id;
  event_time_source = context.event_time_source;
  receive_time = context.receive_time;
  process_time = context.process_time;
  knowledge_lag_ns = context.publication_lag_ns;
}

-- The keyword arguments of `build_manifest` in `run`.
unfoldable pub versions_of : RunOptions → Versions
versions_of options = record {
  calendar_version = options.calendar_version;
  corporate_action_version = "";
  cost_model_id = "";
  data_quality_report_sha256 = "";
  license_id = "";
}

module _ (arrow : Arrow) (formats : Formats arrow) (contracts : Contracts) where
  open formats use {Bytes}

  -- `load(reference_path)`
  unfoldable pub reference_at :
      Documents Bytes → Builtins → String → Files Bytes → Result ReferenceData
  reference_at documents builtins path files =
      Errors.◌>>=◌ (read_bytes path files)
        (λ content. Errors.◌>>=◌ (documents.document content) (load_reference builtins))

  -- `write_manifest`
  unfoldable pub write_manifest :
      (SnapshotManifest → Bytes) → SnapshotManifest → String → Effect Bytes String
  write_manifest json manifest root files =
      let destination = child_path root "manifest.json" in
      (ok destination, store destination (json manifest) files)

  -- The part of `run` that writes the bars and the manifest.
  unfoldable pub seal :
      (SnapshotManifest → Bytes)
      → List WriteReceipt
      → List Bar
      → String
      → String
      → NormalizationContext
      → RunOptions
      → Effect Bytes SnapshotResult
  seal json receipts bars session_date output_root context options = do
    let bar_path = dataset_path output_root "bar" session_date
    let policy = context.knowledge_policy
    bar_receipt ←
        write_dataset arrow formats contracts (map bar_row bars) "normalized.bar" bar_path policy
    let all_receipts = receipts ++ (bar_receipt ∷ [])
    manifest ← lift (build_manifest all_receipts output_root (versions_of options))
    destination ← write_manifest json manifest output_root
    lift (ok (record { manifest = manifest; receipts = all_receipts; root = output_root }))

  unfoldable pub run :
      Documents Bytes
      → Builtins
      → (SnapshotManifest → Bytes)
      → RawListing
      → String
      → String
      → NormalizationContext
      → RunOptions
      → Effect Bytes SnapshotResult
  run documents builtins json listing reference_path output_root context options = do
    reference ← gets (reference_at documents builtins reference_path)
    receipts ←
        normalize_partition arrow formats contracts documents builtins listing reference context
          output_root
    trades ← gets (stored_trades arrow formats contracts receipts)
    bars ← lift (build_bars trades (bar_settings reference context options))
    seal json receipts bars reference.session.session_date output_root context options
