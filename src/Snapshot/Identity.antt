-- ===== src/Snapshot/Identity.antt =====
-- What a snapshot's identity depends on.
use self_improving_trading_s.Prelude.{
  ◌≡◌, refl, ap, ◌∙◌, List, [], ◌∷◌, map, String, Distinct, text_ord, Reordered,
  sorted_by-Reordered, sorted_by-map,
}
use self_improving_trading_s.Snapshot.{
  FileEntry, identity, Versions, SnapshotManifest, IdentityBody, by_path, identity_body,
  snapshot_id,
}

-- Two manifests with the same versions, which list the same files in any order, no two of them under
-- one path, have the same identity.
pub snapshot_id-Reordered :
    (document_hash : IdentityBody → String) (xs ys : List FileEntry) (versions : Versions)
    → Reordered xs ys
    → Distinct text_ord (λ (e : FileEntry). e.path) xs
    → snapshot_id document_hash (record { files = xs; versions = versions })
      ≡ snapshot_id document_hash (record { files = ys; versions = versions })
unfolding snapshot_id identity_body by_path
snapshot_id-Reordered document_hash xs ys versions p d =
    ap
      (λ (es : List FileEntry).
        document_hash (record { files = map identity es; versions = versions }))
      (sorted_by-Reordered text_ord (λ (e : FileEntry). e.path) p d)

-- An entry whose stored bytes are hashed anew.
abbrev pub rehashed : (FileEntry → String) → FileEntry → FileEntry
rehashed new e = record e { file_sha256 = new e }

map-rehashed :
    (new : FileEntry → String) (es : List FileEntry)
    → map identity (map (rehashed new) es) ≡ map identity es
unfolding identity
map-rehashed new [] = refl
map-rehashed new (e ∷ es) = ap (λ is. identity e ∷ is) (map-rehashed new es)

-- The identity of a snapshot does not depend on the hashes of the stored bytes: any other file hashes
-- in its entries leave it as it is.
pub snapshot_id-rehashed :
    (document_hash : IdentityBody → String) (new : FileEntry → String) (manifest : SnapshotManifest)
    → snapshot_id document_hash (record manifest { files = map (rehashed new) manifest.files })
      ≡ snapshot_id document_hash manifest
unfolding snapshot_id identity_body by_path
snapshot_id-rehashed document_hash new manifest =
    ap (λ is. document_hash (record { files = is; versions = manifest.versions }))
      (ap (map identity) (
          sorted_by-map text_ord (λ (e : FileEntry). e.path) (rehashed new) (λ e. refl)
            manifest.files)
        ∙ map-rehashed new (by_path manifest.files))
