-- ===== src/Command/Verified.antt =====
-- A snapshot that is built is verified.
use self_improving_trading_s.Prelude.{◌≡◌, ap, refl, String, Option-cases, inl, inr}
use self_improving_trading_s.Errors.{Result, ok, ok-injective}
use self_improving_trading_s.Arrow.{Arrow}
use self_improving_trading_s.Storage.{Formats, Files, read_bytes}
use self_improving_trading_s.Effects.{lift-eq-ok}
use self_improving_trading_s.Registry.{Contracts}
use self_improving_trading_s.Registry.Registered.{WellKept}
use self_improving_trading_s.Vendor.{Builtins}
use self_improving_trading_s.Vendor.Files.{Documents}
use self_improving_trading_s.Snapshot.{SnapshotManifest}
use self_improving_trading_s.Snapshot.Paths.{child_path}
use self_improving_trading_s.Normalize.Partition.{RawListing}
use self_improving_trading_s.Pipeline.{SnapshotResult}
use self_improving_trading_s.Pipeline.Sealed.{run-IsSealed}
use self_improving_trading_s.Command.{
  BuildArguments, context_of, options_of, exit_of, snapshot_build, load_manifest, snapshot_verify,
}

module _ (arrow : Arrow) (formats : Formats arrow) (contracts : Contracts) where
  open formats use {Bytes}

  load_manifest-stored :
      (validate : Bytes → Result SnapshotManifest) (root : String) (files : Files Bytes)
      {content : Bytes}
      → read_bytes (child_path root "manifest.json") files ≡ ok content
      → load_manifest arrow formats contracts validate root files ≡ validate content
  unfolding load_manifest read_bytes
  load_manifest-stored validate root files h =
      elim (Option-cases (files (child_path root "manifest.json"))) [
        | inl e ↦ cc (rw (read_bytes, e) at h)
        | inr (c, e) ↦ rw (load_manifest, e) (ap validate (ok-injective (rw (read_bytes, e) at h)))
      ]

  -- After a build that returns, from contracts that stand under their own names, verifying the directory
  -- that it wrote exits with 0, if the JSON that is written for a manifest is read as the manifest.
  pub snapshot_build-verify :
      (documents : Documents Bytes) (builtins : Builtins) (json : SnapshotManifest → Bytes)
      (validate : Bytes → Result SnapshotManifest) (listing : RawListing) (a : BuildArguments)
      (files : Files Bytes) {result : SnapshotResult} {done : Files Bytes}
      → WellKept contracts
      → ((m : SnapshotManifest) → validate (json m) ≡ ok m)
      → snapshot_build arrow formats contracts documents builtins json listing a files
        ≡ (ok result, done)
      → snapshot_verify arrow formats contracts validate a.out done ≡ ok 0
  unfolding snapshot_build snapshot_verify exit_of
  snapshot_build-verify documents builtins json validate listing a files {result} {done} w round h =
      let (context, _, h1) = lift-eq-ok (context_of a) _ files h in
      let (options, _, h2) = lift-eq-ok (options_of a) _ files h1 in
      let sealed =
        run-IsSealed arrow formats contracts documents builtins json listing a.reference a.out
          context options files w h2 in
      rw
        (
          load_manifest-stored validate a.out done sealed.manifest_stored,
          round result.manifest,
          sealed.verified,
        )
        refl
