-- ===== src/Command.antt =====
-- apps/cli/src/trading/cli/main.py: the commands that build and verify a snapshot. What they print is not
-- kept. Parsing the command line, and the JSON of a manifest, are parameters.
pub mod Verified
use self_improving_trading_s.Prelude.{
  ℕ, ◌≡◌, List, [], ◌∷◌, String, ℤ, codes, str_eq, if◌then◌else◌, Option, none, some,
}
use self_improving_trading_s.Errors.{Result, ok, err, snapshot_error}
use self_improving_trading_s.Errors
use self_improving_trading_s.Arrow.{Arrow}
use self_improving_trading_s.Storage.{Formats, Files}
use self_improving_trading_s.Effects.{Effect, ◌>>=◌, lift}
use self_improving_trading_s.Registry.{Contracts}
use self_improving_trading_s.Time.Rfc3339.{parse_rfc3339_ns}
use self_improving_trading_s.Vendor.{Builtins}
use self_improving_trading_s.Vendor.Files.{Documents}
use self_improving_trading_s.Writer.{backfill}
use self_improving_trading_s.Snapshot.{SnapshotManifest, SnapshotFinding, verify_snapshot}
use self_improving_trading_s.Snapshot.Paths.{child_path}
use self_improving_trading_s.Bars.{one_minute_ns}
use self_improving_trading_s.Normalize.{NormalizationContext}
use self_improving_trading_s.Normalize.Partition.{RawListing}
use self_improving_trading_s.Pipeline.{SnapshotResult, RunOptions, run}

-- The options of `snapshot build`.
pub record BuildArguments : Type 0 where
  pub raw : String
  pub reference : String
  pub out : String
  pub receive_time : String
  pub process_time : String
  pub as_of : String
  pub publication_lag_ns : ℤ
  pub partition_id : String
  pub event_time_source : String
  pub venue_coverage : String
  pub calendar_version : String

-- `partition_id or raw.as_posix()`
unfoldable pub provenance_of : BuildArguments → String
provenance_of a = if str_eq a.partition_id "" then a.raw else a.partition_id

-- The context of `snapshot_build`.
unfoldable pub context_of : BuildArguments → Result NormalizationContext
unfolding provenance_of
context_of a = Errors.◌>>=◌ (parse_rfc3339_ns (codes a.receive_time)) λ receive_time.
    Errors.◌>>=◌ (parse_rfc3339_ns (codes a.process_time)) λ process_time. ok (record {
      receive_time = receive_time;
      process_time = process_time;
      publication_lag_ns = a.publication_lag_ns;
      raw_partition_id = provenance_of a;
      event_time_source = a.event_time_source;
      venue_coverage = a.venue_coverage;
      knowledge_policy = backfill;
    })

-- The keyword arguments of `run` in `snapshot_build`.
unfoldable pub options_of : BuildArguments → Result RunOptions
options_of a = Errors.◌>>=◌ (parse_rfc3339_ns (codes a.as_of)) λ as_of.
    ok (record { as_of = as_of; window_ns = one_minute_ns; calendar_version = a.calendar_version })

-- The code that the process exits with.
unfoldable pub exit_of : List SnapshotFinding → ℕ
exit_of [] = 0
exit_of (f ∷ fs) = 1

module _ (arrow : Arrow) (formats : Formats arrow) (contracts : Contracts) where
  open formats use {Bytes}

  unfoldable pub snapshot_build :
      Documents Bytes
      → Builtins
      → (SnapshotManifest → Bytes)
      → RawListing
      → BuildArguments
      → Effect Bytes SnapshotResult
  snapshot_build documents builtins json listing a = do
    context ← lift (context_of a)
    options ← lift (options_of a)
    run arrow formats contracts documents builtins json listing a.reference a.out context options

  -- `load_manifest`, with the parsing and the validation of a manifest
  unfoldable pub load_manifest :
      (Bytes → Result SnapshotManifest) → String → Files Bytes → Result SnapshotManifest
  load_manifest validate root files = elim (files (child_path root "manifest.json")) [
    | none ↦ err snapshot_error
    | some content ↦ validate content
  ]

  unfoldable pub snapshot_verify :
      (Bytes → Result SnapshotManifest) → String → Files Bytes → Result ℕ
  unfolding load_manifest exit_of
  snapshot_verify validate root files =
      Errors.◌>>=◌ (load_manifest validate root files)
        λ manifest. ok (exit_of (verify_snapshot arrow formats manifest root files))
