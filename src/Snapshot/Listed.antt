-- ===== src/Snapshot/Listed.antt =====
-- Looking up the entry of a path in a manifest, which lists no path twice.
use self_improving_trading_s.Prelude.{
  ℕ, ◌≡◌, refl, sym, ap, ◌∙◌, ◌==◌, true, false, Option, none, some, List, [], ◌∷◌, map, String,
  arith, All, All-imp, str_eq, str_eq_iff, in_names, Bool-cases, inl, inr,
}
use self_improving_trading_s.Errors.{ok}
use self_improving_trading_s.Spec.{no_duplicates}
use self_improving_trading_s.Snapshot.{FileEntry, Versions, SnapshotManifest, snapshot_manifest}
use self_improving_trading_s.Snapshot.Reader.{listed, or_unlisted}

pub listed-path :
    (path : String) (es : List FileEntry) {e : FileEntry} → listed path es ≡ some e → e.path ≡ path
unfolding listed
listed-path path [] h = cc
listed-path path (f ∷ es) {e} h = elim (Bool-cases (str_eq f.path path)) [
  | inl y ↦ ap (λ g. g.path) (sym (found y)) ∙ (str_eq_iff f.path path).0 y
  | inr n ↦ listed-path path es (later n)
]
  where
    found : str_eq f.path path ≡ true → f ≡ e
    found y = ground arith

    later : str_eq f.path path ≡ false → listed path es ≡ some e
    later n = ground arith

pub not-listed :
    (path : String) (es : List FileEntry)
    → in_names path (map (λ (e : FileEntry). e.path) es) ≡ false
    → listed path es ≡ none
unfolding listed
not-listed path [] h = refl
not-listed path (e ∷ es) h = ground (arith, not-listed path es (ground arith))

pub found_listed : (m : Option FileEntry) {e : FileEntry} → or_unlisted m ≡ ok e → m ≡ some e
unfolding or_unlisted
found_listed none h = cc
found_listed (some f) h = ground arith

-- An entry in front is not the one that is looked for.
pub skip_entry :
    (f : FileEntry) (es gs : List FileEntry)
    → in_names f.path (map (λ (e : FileEntry). e.path) gs) ≡ false
    → All (λ (g : FileEntry). listed g.path es ≡ some g) gs
    → All (λ (g : FileEntry). listed g.path (f ∷ es) ≡ some g) gs
unfolding listed
skip_entry f es [] h k = tt
skip_entry f es (g ∷ gs) h (e, k) = (
  ground (arith, str_eq_iff f.path g.path, str_eq_iff g.path f.path),
  skip_entry f es gs (ground arith) k,
)

pub listed_each :
    (es : List FileEntry)
    → no_duplicates (map (λ (e : FileEntry). e.path) es) ≡ true
    → All (λ (g : FileEntry). listed g.path es ≡ some g) es
unfolding listed no_duplicates
listed_each [] h = tt
listed_each (f ∷ es) h = (
  ground (arith, str_eq_iff f.path f.path),
  skip_entry f es es (ground arith) (listed_each es (ground arith)),
)

pub eq_self : (n : ℕ) → (n == n) ≡ true
eq_self n = ground arith

pub sealed_files :
    (es : List FileEntry) (versions : Versions) {manifest : SnapshotManifest}
    → snapshot_manifest es versions ≡ ok manifest
    → (manifest.files ≡ es) × (no_duplicates (map (λ (e : FileEntry). e.path) es) ≡ true)
unfolding snapshot_manifest
sealed_files es versions h = ground arith

pub sealed_listed :
    (es : List FileEntry) (versions : Versions) {manifest : SnapshotManifest}
    → snapshot_manifest es versions ≡ ok manifest
    → All (λ (g : FileEntry). listed g.path manifest.files ≡ some g) es
sealed_listed es versions h =
    let (same, once) = sealed_files es versions h in
    All-imp (λ g k. ap (listed g.path) same ∙ k) es (listed_each es once)
