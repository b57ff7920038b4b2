-- ===== src/Snapshot.antt =====
-- packages/schemas/src/trading/schemas/documents.py (manifests) and
-- packages/market_data/src/trading/market_data/snapshot/builder.py: snapshots of written files. The
-- hash of a manifest's body is a parameter; the JSON of a manifest is not modelled.
pub mod Paths
pub mod Identity
pub mod Verified
pub mod Reader
pub mod Listed
pub mod Sealed
use self_improving_trading_s.Prelude.{
  ℕ, ◌≡◌, Bool, true, false, not, Option, none, some, List, [], ◌∷◌, ◌++◌, map, String, ℤ,
  if◌then◌else◌, str_eq, sorted_by, text_ord,
}
use self_improving_trading_s.Errors.{Result, ok, err, value_error, snapshot_error, ◌>>=◌}
use self_improving_trading_s.Spec.{no_duplicates}
use self_improving_trading_s.Arrow.{Arrow}
use self_improving_trading_s.Storage.{Formats, Files}
use self_improving_trading_s.Writer.Store.{WriteReceipt}
use self_improving_trading_s.Snapshot.Paths.{relative_to, child_path}

pub record FileEntry : Type 0 where
  pub path : String
  pub row_count : ℕ
  pub file_sha256 : String
  pub content_sha256 : String
  pub contract : String
  pub contract_version : ℤ

-- `FileEntry.identity`
pub record FileIdentity : Type 0 where
  pub path : String
  pub row_count : ℕ
  pub content_sha256 : String
  pub contract : String
  pub contract_version : ℤ

unfoldable pub identity : FileEntry → FileIdentity
identity entry = record {
  path = entry.path;
  row_count = entry.row_count;
  content_sha256 = entry.content_sha256;
  contract = entry.contract;
  contract_version = entry.contract_version;
}

-- The keyword arguments of `build_manifest`.
pub record Versions : Type 0 where
  pub calendar_version : String
  pub corporate_action_version : String
  pub cost_model_id : String
  pub data_quality_report_sha256 : String
  pub license_id : String

pub record SnapshotManifest : Type 0 where
  pub files : List FileEntry
  pub versions : Versions

-- `_paths_are_unique`
unfoldable pub snapshot_manifest : List FileEntry → Versions → Result SnapshotManifest
snapshot_manifest files versions =
    if not (no_duplicates (map (λ (e : FileEntry). e.path) files))
    then err value_error
    else ok (record { files = files; versions = versions })

pub record IdentityBody : Type 0 where
  pub files : List FileIdentity
  pub versions : Versions

unfoldable pub by_path : List FileEntry → List FileEntry
by_path = sorted_by text_ord (λ (e : FileEntry). e.path)

unfoldable pub identity_body : SnapshotManifest → IdentityBody
unfolding identity by_path
identity_body manifest = record {
  files = map identity (by_path manifest.files);
  versions = manifest.versions;
}

-- `snapshot_id`, by `document_hash`
unfoldable pub snapshot_id : (IdentityBody → String) → SnapshotManifest → String
snapshot_id document_hash manifest = document_hash (identity_body manifest)

-- The entry of a receipt with a relative path.
unfoldable pub entry_at : WriteReceipt → Option String → Result FileEntry
entry_at receipt none = err snapshot_error
entry_at receipt (some relative) = ok (record {
  path = relative;
  row_count = receipt.row_count;
  file_sha256 = receipt.file_sha256;
  content_sha256 = receipt.content_sha256;
  contract = receipt.contract;
  contract_version = receipt.contract_version;
})

unfoldable pub entry_of : String → WriteReceipt → Result FileEntry
entry_of root receipt = entry_at receipt (relative_to receipt.path root)

unfoldable pub entries_of : String → List WriteReceipt → Result (List FileEntry)
entries_of root [] = ok []
entries_of root (receipt ∷ receipts) = do
  entry ← entry_of root receipt
  rest ← entries_of root receipts
  ok (entry ∷ rest)

unfoldable pub build_manifest : List WriteReceipt → String → Versions → Result SnapshotManifest
build_manifest receipts root versions = do
  entries ← entries_of root receipts
  snapshot_manifest (by_path entries) versions

-- Why a file does not match.
pub data Mismatch : Type 0 where
  missing_on_disk bytes_changed : Mismatch

pub record SnapshotFinding : Type 0 where
  pub path : String
  pub detail : Mismatch

module _ (arrow : Arrow) (formats : Formats arrow) where
  open formats use {Bytes, sha256}

  -- The body of the loop of `verify_snapshot`, by what is at the path.
  unfoldable pub verify_found : FileEntry → Option Bytes → List SnapshotFinding
  verify_found entry none = record { path = entry.path; detail = missing_on_disk } ∷ []
  verify_found entry (some content) =
      if not (str_eq (sha256 content) entry.file_sha256)
      then record { path = entry.path; detail = bytes_changed } ∷ []
      else []

  unfoldable pub verify_entry : String → Files Bytes → FileEntry → List SnapshotFinding
  verify_entry root files entry = verify_found entry (files (child_path root entry.path))

  unfoldable pub verify_entries : String → Files Bytes → List FileEntry → List SnapshotFinding
  verify_entries root files [] = []
  verify_entries root files (entry ∷ entries) =
      verify_entry root files entry ++ verify_entries root files entries

  unfoldable pub verify_snapshot : SnapshotManifest → String → Files Bytes → List SnapshotFinding
  unfolding verify_entries
  verify_snapshot manifest root files = verify_entries root files manifest.files
