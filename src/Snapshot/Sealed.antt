-- ===== src/Snapshot/Sealed.antt =====
-- What a snapshot's reader lets through, and that it serves the files that were sealed.
use mathlib.Core.Path.{subst}
use self_improving_trading_s.Prelude.{
  ◌≡◌, refl, sym, ap, ◌∙◌, ◌==◌, false, Option, none, some, List, [], ◌∷◌, map, String, arith, All,
  All-of-sorted_by, text_ord, in_names,
}
use self_improving_trading_s.Errors.{
  ok, err, unlisted_path, snapshot_error, require, >>=-eq-ok, ok-injective,
}
use self_improving_trading_s.Spec.{ContractSpec, arrow_schema}
use self_improving_trading_s.Arrow.{Arrow}
use self_improving_trading_s.Storage.{Formats, Files}
use self_improving_trading_s.Registry.{Contracts, get}
use self_improving_trading_s.Writer.Store.{WriteReceipt, read_contract_table}
use self_improving_trading_s.Writer.Kept.{read_contract_table_lem}
use self_improving_trading_s.Snapshot.Paths.{relative_to, relative_to_lem, child_path}
use self_improving_trading_s.Snapshot.{
  FileEntry, Versions, SnapshotManifest, by_path, entry_at, entry_of, entries_of, build_manifest,
}
use self_improving_trading_s.Snapshot.Listed.{
  listed-path, not-listed, found_listed, eq_self, sealed_listed,
}
use self_improving_trading_s.Snapshot.Reader.{
  SnapshotReader, listed, or_unlisted, entry_for, resolve, read,
}

entry_at-eq :
    (r : WriteReceipt) (p : String) {entry : FileEntry}
    → entry_at r (some p) ≡ ok entry
    → record {
      path = p;
      row_count = r.row_count;
      file_sha256 = r.file_sha256;
      content_sha256 = r.content_sha256;
      contract = r.contract;
      contract_version = r.contract_version;
    }
      ≡ entry
unfolding entry_at
entry_at-eq r p h = ok-injective h

module _ (arrow : Arrow) (formats : Formats arrow) (contracts : Contracts) where
  open arrow use {Table, num_rows, schema}
  open formats use {Bytes}

  -- Reading or resolving a path that the manifest does not list raises the error for an unlisted
  -- path, whatever the files are.
  pub unlisted_refused :
      (reader : SnapshotReader) (path : String) (files : Files Bytes)
      → in_names path (map (λ (e : FileEntry). e.path) reader.manifest.files) ≡ false
      → (read arrow formats contracts reader path files ≡ err unlisted_path)
        × (resolve reader path ≡ err unlisted_path)
  unfolding read resolve entry_for or_unlisted
  unlisted_refused reader path files h = rw (not-listed path reader.manifest.files h) (refl, refl)

  -- What a successful read says of the table.
  pub record IsListed (reader : SnapshotReader) (path : String) (files : Files Bytes) (t : Table)
      : Type 0 where
    pub entry : FileEntry
    pub spec : ContractSpec
    pub entry_is : listed path reader.manifest.files ≡ some entry
    pub own_path : entry.path ≡ path
    pub spec_is : get entry.contract contracts ≡ ok spec
    pub content : read_contract_table arrow formats (child_path reader.root path) spec files ≡ ok t
    pub schema_is : schema t ≡ arrow_schema spec
    pub rows : num_rows t ≡ entry.row_count

  -- A table that a reader returns is the content of a file that the manifest lists under this path,
  -- read under the contract of the entry, with its schema and with the recorded number of rows.
  pub read_lem :
      (reader : SnapshotReader) (path : String) (files : Files Bytes) {t : Table}
      → read arrow formats contracts reader path files ≡ ok t
      → IsListed reader path files t
  unfolding read entry_for
  read_lem reader path files h =
      let (entry, a, h1) = >>=-eq-ok (entry_for reader path) _ h in
      let (spec, b, h2) = >>=-eq-ok (get entry.contract contracts) _ h1 in
      let (t, c, h3) =
        >>=-eq-ok (read_contract_table arrow formats (child_path reader.root entry.path) spec files)
          _ h2 in
      let (_, d, h4) = >>=-eq-ok (require (num_rows t == entry.row_count) snapshot_error) _ h3 in
      let there = found_listed (listed path reader.manifest.files) a in
      let own = listed-path path reader.manifest.files there in
      rw (← ok-injective h4) (record {
        entry = entry;
        spec = spec;
        entry_is = there;
        own_path = own;
        spec_is = b;
        content =
            ap (λ p. read_contract_table arrow formats (child_path reader.root p) spec files)
              (sym own)
            ∙ c;
        schema_is =
            read_contract_table_lem arrow formats (child_path reader.root entry.path) spec files c;
        rows = ground arith;
      })

  -- The file of a receipt can be read under the receipt's contract and has the receipt's number of rows.
  pub record IsReadable (files : Files Bytes) (r : WriteReceipt) : Type 0 where
    pub spec : ContractSpec
    pub table : Table
    pub spec_is : get r.contract contracts ≡ ok spec
    pub content : read_contract_table arrow formats r.path spec files ≡ ok table
    pub rows : num_rows table ≡ r.row_count

  -- The reader gives, under the path relative to its root, the table that the receipt's own path holds.
  pub record IsServed (reader : SnapshotReader) (files : Files Bytes) (r : WriteReceipt)
      : Type 0 where
    pub path : String
    pub spec : ContractSpec
    pub table : Table
    pub path_is : relative_to r.path reader.root ≡ some path
    pub stored : read_contract_table arrow formats r.path spec files ≡ ok table
    pub served : read arrow formats contracts reader path files ≡ ok table

  pub read_listed :
      (reader : SnapshotReader) (files : Files Bytes) (r : WriteReceipt) (p : String)
      → relative_to r.path reader.root ≡ some p
      → listed p reader.manifest.files
        ≡ some (record {
          path = p;
          row_count = r.row_count;
          file_sha256 = r.file_sha256;
          content_sha256 = r.content_sha256;
          contract = r.contract;
          contract_version = r.contract_version;
        })
      → (v : IsReadable files r) → read arrow formats contracts reader p files ≡ ok v.table
  unfolding read entry_for or_unlisted
  read_listed reader files r p q l v =
      let content =
        ap (λ z. read_contract_table arrow formats z v.spec files)
          (relative_to_lem r.path reader.root q)
        ∙ v.content in
      rw l (rw v.spec_is (rw content (rw v.rows (rw (eq_self r.row_count) refl))))

  serve :
      (reader : SnapshotReader) (files : Files Bytes) (r : WriteReceipt) (entry : FileEntry)
      → entry_of reader.root r ≡ ok entry
      → listed entry.path reader.manifest.files ≡ some entry
      → IsReadable files r
      → IsServed reader files r
  unfolding entry_of
  serve reader files r entry e l v = go (relative_to r.path reader.root) refl e
    where
      go :
          (relative : Option String)
          → relative_to r.path reader.root ≡ relative
          → entry_at r relative ≡ ok entry
          → IsServed reader files r
      go none q e = unfold entry_at in cc
      go (some p) q e =
          let found =
            subst (λ (g : FileEntry). listed g.path reader.manifest.files ≡ some g)
              (sym (entry_at-eq r p e)) l in
          record {
            path = p;
            spec = v.spec;
            table = v.table;
            path_is = q;
            stored = v.content;
            served = read_listed reader files r p q found v;
          }

  each-IsServed :
      (reader : SnapshotReader) (files : Files Bytes) (receipts : List WriteReceipt)
      {entries : List FileEntry}
      → entries_of reader.root receipts ≡ ok entries
      → All (λ (g : FileEntry). listed g.path reader.manifest.files ≡ some g) entries
      → All (IsReadable files) receipts
      → All (IsServed reader files) receipts
  unfolding entries_of
  each-IsServed reader files [] h l v = tt
  each-IsServed reader files (r ∷ receipts) h l (v, vs) =
      let (entry, a, h1) = >>=-eq-ok (entry_of reader.root r) _ h in
      let (rest, b, h2) = >>=-eq-ok (entries_of reader.root receipts) _ h1 in
      let (m, ms) = rw (← ok-injective h2) at l in
      (serve reader files r entry a m v, each-IsServed reader files receipts b ms vs)

  -- A reader of the manifest that is built from receipts serves each of their files: if the file of
  -- every receipt can be read under its contract and has the receipt's number of rows, then reading its
  -- path relative to the root through the snapshot gives the same table.
  pub sealed-IsServed :
      (receipts : List WriteReceipt) (root : String) (versions : Versions) (files : Files Bytes)
      {manifest : SnapshotManifest}
      → build_manifest receipts root versions ≡ ok manifest
      → All (IsReadable files) receipts
      → All (IsServed (record { root = root; manifest = manifest }) files) receipts
  unfolding build_manifest by_path
  sealed-IsServed receipts root versions files {manifest} h v =
      let (entries, a, b) = >>=-eq-ok (entries_of root receipts) _ h in
      each-IsServed (record { root = root; manifest = manifest }) files receipts a
        (All-of-sorted_by text_ord (λ (e : FileEntry). e.path) _ entries
          (sealed_listed (by_path entries) versions b))
        v
