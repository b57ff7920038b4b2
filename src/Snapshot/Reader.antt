-- ===== src/Snapshot/Reader.antt =====
-- packages/market_data/src/trading/market_data/snapshot/reader.py: reading the listed files only.
use self_improving_trading_s.Prelude.{
  ◌==◌, Option, none, some, List, [], ◌∷◌, map, String, if◌then◌else◌, str_eq, sorted_by, text_ord,
}
use self_improving_trading_s.Errors.{
  Result, ok, err, snapshot_error, unlisted_path, ◌>>=◌, ◌>>◌, require,
}
use self_improving_trading_s.Arrow.{Arrow}
use self_improving_trading_s.Storage.{Formats, Files}
use self_improving_trading_s.Registry.{Contracts, get}
use self_improving_trading_s.Writer.Store.{read_contract_table}
use self_improving_trading_s.Snapshot.Paths.{child_path}
use self_improving_trading_s.Snapshot.{FileEntry, SnapshotManifest}

pub record SnapshotReader : Type 0 where
  pub root : String
  pub manifest : SnapshotManifest

-- `self._listed.get(path)`, of a manifest that lists no path twice
unfoldable pub listed : String → List FileEntry → Option FileEntry
listed path [] = none
listed path (entry ∷ entries) = if str_eq entry.path path then some entry else listed path entries

unfoldable pub or_unlisted : Option FileEntry → Result FileEntry
or_unlisted none = err unlisted_path
or_unlisted (some entry) = ok entry

-- `SnapshotReader._entry`
unfoldable pub entry_for : SnapshotReader → String → Result FileEntry
unfolding listed or_unlisted
entry_for reader path = or_unlisted (listed path reader.manifest.files)

-- `SnapshotReader.paths`
unfoldable pub paths : SnapshotReader → List String
paths reader = sorted_by text_ord (λ p. p) (map (λ (e : FileEntry). e.path) reader.manifest.files)

-- The paths of the entries of a contract.
unfoldable pub paths_under : String → List FileEntry → List String
paths_under contract [] = []
paths_under contract (entry ∷ entries) =
    let rest = paths_under contract entries in
    if str_eq entry.contract contract then entry.path ∷ rest else rest

-- `SnapshotReader.paths_for`
unfoldable pub paths_for : SnapshotReader → String → List String
unfolding paths_under
paths_for reader contract = sorted_by text_ord (λ p. p) (paths_under contract reader.manifest.files)

-- `SnapshotReader.resolve`
unfoldable pub resolve : SnapshotReader → String → Result String
resolve reader path = do entry ← entry_for reader path; ok (child_path reader.root entry.path)

module _ (arrow : Arrow) (formats : Formats arrow) (contracts : Contracts) where
  open arrow use {Table, num_rows, concat_tables}
  open formats use {Bytes}

  -- `SnapshotReader.read`
  unfoldable pub read : SnapshotReader → String → Files Bytes → Result Table
  read reader path files = do
    entry ← entry_for reader path
    spec ← get entry.contract contracts
    t ← read_contract_table arrow formats (child_path reader.root entry.path) spec files
    require (num_rows t == entry.row_count) snapshot_error
    ok t

  unfoldable pub read_all : SnapshotReader → List String → Files Bytes → Result (List Table)
  unfolding read
  read_all reader [] files = ok []
  read_all reader (path ∷ rest) files = do
    t ← read reader path files
    ts ← read_all reader rest files
    ok (t ∷ ts)

  unfoldable pub read_each : SnapshotReader → List String → Files Bytes → Result Table
  unfolding read_all
  read_each reader [] files = err snapshot_error
  read_each reader (path ∷ rest) files = do
    tables ← read_all reader (path ∷ rest) files
    concat_tables tables

  -- `SnapshotReader.read_contract`
  unfoldable pub read_contract : SnapshotReader → String → Files Bytes → Result Table
  unfolding read_each
  read_contract reader contract files = read_each reader (paths_for reader contract) files
