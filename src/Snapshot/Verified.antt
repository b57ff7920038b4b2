-- ===== src/Snapshot/Verified.antt =====
-- What verifying a snapshot says of the files, and that a snapshot of written files verifies.
use self_improving_trading_s.Prelude.{
  ◌≡◌, refl, ap, ◌∙◌, ◌↔◌, Option, none, some, List, [], ◌∷◌, String, arith, All, All-sorted_by,
  str_eq_iff, text_ord, append-nil,
}
use self_improving_trading_s.Errors.{ok, >>=-eq-ok, ok-injective}
use self_improving_trading_s.Arrow.{Arrow}
use self_improving_trading_s.Storage.{Formats, Files}
use self_improving_trading_s.Writer.Store.{WriteReceipt}
use self_improving_trading_s.Snapshot.Paths.{relative_to, relative_to_lem, child_path}
use self_improving_trading_s.Snapshot.{
  FileEntry, Versions, SnapshotManifest, snapshot_manifest, by_path, entry_at, entry_of, entries_of,
  build_manifest, verify_found, verify_entry, verify_entries, verify_snapshot,
}

sealed :
    (entries : List FileEntry) {versions : Versions} {manifest : SnapshotManifest}
    → snapshot_manifest entries versions ≡ ok manifest
    → record { files = entries; versions = versions } ≡ manifest
unfolding snapshot_manifest
sealed entries h = ground arith

module _ (arrow : Arrow) (formats : Formats arrow) where
  open formats use {Bytes, sha256}

  -- A path holds bytes with the given hash.
  abbrev pub Holds : Files Bytes → String → String → Type 0
  Holds files path digest =
      (content : Bytes) × (files path ≡ some content) × (sha256 content ≡ digest)

  -- The file of an entry is there, with the bytes that the entry names.
  abbrev pub Intact : String → Files Bytes → FileEntry → Type 0
  Intact root files entry = Holds files (child_path root entry.path) entry.file_sha256

  entry-Intact :
      (root : String) (files : Files Bytes) (entry : FileEntry)
      → verify_entry arrow formats root files entry ≡ []
      → Intact root files entry
  unfolding verify_entry
  entry-Intact root files entry h = go (files (child_path root entry.path)) refl h
    where
      go :
          (found : Option Bytes)
          → files (child_path root entry.path) ≡ found
          → verify_found arrow formats entry found ≡ []
          → Intact root files entry
      go none e h = unfold verify_found in cc
      go (some content) e h = (
        content,
        e,
        unfold verify_found in ground (arith, str_eq_iff (sha256 content) entry.file_sha256),
      )

  Intact-entry :
      (root : String) (files : Files Bytes) (entry : FileEntry)
      → Intact root files entry
      → verify_entry arrow formats root files entry ≡ []
  unfolding verify_entry verify_found
  Intact-entry root files entry (content, e, h) =
      rw e (rw h (rw ((str_eq_iff entry.file_sha256 entry.file_sha256).1 refl) refl))

  all→ :
      (root : String) (files : Files Bytes) (es : List FileEntry)
      → verify_entries arrow formats root files es ≡ []
      → All (Intact root files) es
  unfolding verify_entries
  all→ root files [] h = tt
  all→ root files (e ∷ es) h =
      let (a, b) = append-nil (verify_entry arrow formats root files e) _ h in
      (entry-Intact root files e a, all→ root files es b)

  →all :
      (root : String) (files : Files Bytes) (es : List FileEntry)
      → All (Intact root files) es
      → verify_entries arrow formats root files es ≡ []
  unfolding verify_entries
  →all root files [] h = refl
  →all root files (e ∷ es) (h, hs) = rw (Intact-entry root files e h) (→all root files es hs)

  -- Verifying a snapshot finds nothing exactly if every file that the manifest lists is there with the
  -- bytes of its recorded hash.
  pub verify_snapshot_iff :
      (manifest : SnapshotManifest) (root : String) (files : Files Bytes)
      → (verify_snapshot arrow formats manifest root files ≡ [])
        ↔ All (Intact root files) manifest.files
  unfolding verify_snapshot
  verify_snapshot_iff manifest root files =
      (all→ root files manifest.files, →all root files manifest.files)

  -- The bytes at the path of a receipt have the hash of the receipt.
  abbrev pub IsCurrent : Files Bytes → WriteReceipt → Type 0
  IsCurrent files r = Holds files r.path r.file_sha256

  entry_of-Intact :
      (root : String) (files : Files Bytes) (r : WriteReceipt) (entry : FileEntry)
      → entry_of root r ≡ ok entry
      → IsCurrent files r
      → Intact root files entry
  unfolding entry_of
  entry_of-Intact root files r entry e (content, f, d) = go (relative_to r.path root) refl e
    where
      go :
          (relative : Option String)
          → relative_to r.path root ≡ relative
          → entry_at r relative ≡ ok entry
          → Intact root files entry
      go none q e = unfold entry_at in cc
      go (some p) q e =
          unfold entry_at in
          rw (← ok-injective e) (content, ap files (relative_to_lem r.path root q) ∙ f, d)

  entries-Intact :
      (root : String) (files : Files Bytes) (receipts : List WriteReceipt)
      {entries : List FileEntry}
      → entries_of root receipts ≡ ok entries
      → All (IsCurrent files) receipts
      → All (Intact root files) entries
  unfolding entries_of
  entries-Intact root files [] h c = rw (← ok-injective h) tt
  entries-Intact root files (r ∷ receipts) h (c, cs) =
      let (entry, a, h1) = >>=-eq-ok (entry_of root r) _ h in
      let (rest, b, h2) = >>=-eq-ok (entries_of root receipts) _ h1 in
      rw (← ok-injective h2)
        (entry_of-Intact root files r entry a c, entries-Intact root files receipts b cs)

  -- If a manifest is built from receipts, and the path of each receipt holds bytes with the
  -- receipt's file hash, then verifying the manifest finds nothing.
  pub build_manifest-verified :
      (receipts : List WriteReceipt) (root : String) (versions : Versions) (files : Files Bytes)
      {manifest : SnapshotManifest}
      → build_manifest receipts root versions ≡ ok manifest
      → All (IsCurrent files) receipts
      → verify_snapshot arrow formats manifest root files ≡ []
  unfolding build_manifest verify_snapshot
  build_manifest-verified receipts root versions files h c =
      let (entries, a, b) = >>=-eq-ok (entries_of root receipts) _ h in
      rw (← sealed (by_path entries) b) (
        →all root files (by_path entries) (
          unfold by_path in
          All-sorted_by text_ord (λ (e : FileEntry). e.path) (Intact root files) entries
            (entries-Intact root files receipts a c)))
