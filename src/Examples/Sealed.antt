-- ===== src/Examples/Sealed.antt =====
-- Snapshots at concrete inputs.
use self_improving_trading_s.Spec.{no_duplicates}
use self_improving_trading_s.Snapshot.Paths.{is_absolute, relative_to}
use self_improving_trading_s.Prelude.{
  ◌≡◌, refl, ◌≢◌, ◌↔◌, some, [], ◌∷◌, String, pos, All, swapped, str_eq_iff, sorted_by,
}
use self_improving_trading_s.Errors.{ok}
use self_improving_trading_s.Contracts.Market.{trade_contract}
use self_improving_trading_s.Storage.{Files, store}
use self_improving_trading_s.Registry.{get}
use self_improving_trading_s.Writer.{backfill}
use self_improving_trading_s.Writer.Schemas.{check_schema_iff}
use self_improving_trading_s.Writer.Store.{WriteReceipt, read_contract_table}
use self_improving_trading_s.Writer.Kept.{read_back, read_contract_table_lem}
use self_improving_trading_s.Snapshot.{
  FileEntry, Versions, SnapshotManifest, IdentityBody, build_manifest, snapshot_id, verify_snapshot,
  by_path, entries_of, entry_at, entry_of, snapshot_manifest,
}
use self_improving_trading_s.Snapshot.Identity.{snapshot_id-Reordered}
use self_improving_trading_s.Snapshot.Verified.{
  Intact, IsCurrent, verify_snapshot_iff, build_manifest-verified,
}
use self_improving_trading_s.Snapshot.Reader.{listed, SnapshotReader, read}
use self_improving_trading_s.Snapshot.Sealed.{
  read_listed, IsListed, read_lem, IsReadable, IsServed, sealed-IsServed,
}
use self_improving_trading_s.Examples.Tables.{memory, table}
use self_improving_trading_s.Examples.Stored.{
  Blob, of_table, memory_formats, no_files, after, both, read_back_run,
}

abbrev versions : Versions
versions = record {
  calendar_version = "xnys_1";
  corporate_action_version = "";
  cost_model_id = "";
  data_quality_report_sha256 = "";
  license_id = "";
}

abbrev entry : String → FileEntry
entry p = record {
  path = p;
  row_count = 0;
  file_sha256 = "table";
  content_sha256 = "table";
  contract = "normalized.trade";
  contract_version = pos 1;
}

abbrev document_hash : IdentityBody → String
document_hash body = body.versions.calendar_version

names_differ : ◌≢◌ {A = String} "a" "b"
names_differ h = cc ((str_eq_iff "a" "b").1 h)

snapshot_id-Reordered_example :
    snapshot_id document_hash (record { files = entry "a" ∷ entry "b" ∷ []; versions = versions })
    ≡ snapshot_id document_hash (record { files = entry "b" ∷ entry "a" ∷ []; versions = versions })
snapshot_id-Reordered_example =
    snapshot_id-Reordered document_hash (entry "a" ∷ entry "b" ∷ []) (entry "b" ∷ entry "a" ∷ [])
      versions (swapped (entry "a") (entry "b") []) ((names_differ, tt), (tt, tt))

abbrev manifest : SnapshotManifest
manifest = record { files = entry "t" ∷ []; versions = versions }

abbrev receipt : WriteReceipt
receipt = record {
  path = "/d/t";
  contract = "normalized.trade";
  contract_version = pos 1;
  schema_hash = "schema";
  row_count = 0;
  file_sha256 = "table";
  content_sha256 = "table";
  knowledge_policy = backfill;
}

build_manifest_run : build_manifest (receipt ∷ []) "/d" versions ≡ ok manifest
unfolding build_manifest entries_of entry_of entry_at relative_to is_absolute snapshot_manifest
    no_duplicates by_path sorted_by
build_manifest_run = refl

abbrev disk : Files Blob
disk = store "/d/t" (of_table table) no_files

current : All (IsCurrent memory memory_formats disk) (receipt ∷ [])
unfolding store
current = ((of_table table, refl, refl), tt)

build_manifest-verified_example : verify_snapshot memory memory_formats manifest "/d" disk ≡ []
build_manifest-verified_example =
    build_manifest-verified memory memory_formats (receipt ∷ []) "/d" versions disk
      build_manifest_run current

verify_snapshot_iff_example :
    (verify_snapshot memory memory_formats manifest "/d" no_files ≡ [])
    ↔ All (Intact memory memory_formats "/d" no_files) (entry "t" ∷ [])
verify_snapshot_iff_example = verify_snapshot_iff memory memory_formats manifest "/d" no_files

abbrev reader : SnapshotReader
reader = record { root = "/d"; manifest = manifest }

stored_run : read_contract_table memory memory_formats "/d/t" trade_contract disk ≡ ok table
stored_run =
    read_back memory memory_formats table trade_contract "/d/t" no_files (of_table table) refl (
      (check_schema_iff memory table trade_contract).1
        (read_contract_table_lem memory memory_formats "/d/t" trade_contract after read_back_run))

get_run : get "normalized.trade" both ≡ ok trade_contract
unfolding get
get_run = refl

abbrev readable_one : IsReadable memory memory_formats both disk receipt
readable_one = record {
  spec = trade_contract;
  table = table;
  spec_is = get_run;
  content = stored_run;
  rows = refl;
}

sealed-IsServed_example : All (IsServed memory memory_formats both reader disk) (receipt ∷ [])
sealed-IsServed_example =
    sealed-IsServed memory memory_formats both (receipt ∷ []) "/d" versions disk build_manifest_run
      (readable_one, tt)

relative_run : relative_to "/d/t" "/d" ≡ some "t"
unfolding relative_to is_absolute
relative_run = refl

listed_run : listed "t" manifest.files ≡ some (entry "t")
unfolding listed
listed_run = refl

read_run : read memory memory_formats both reader "t" disk ≡ ok table
read_run =
    read_listed memory memory_formats both reader disk receipt "t" relative_run listed_run
      readable_one

read_lem_example : IsListed memory memory_formats both reader "t" disk table
read_lem_example = read_lem memory memory_formats both reader "t" disk read_run
