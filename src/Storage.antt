-- ===== src/Storage.antt =====
-- What the code relies on of parquet, Arrow's stream format and SHA-256, which are not part of the
-- repository, and the files of a machine as a map from paths to bytes.
use self_improving_trading_s.Prelude.{
  ◌≡◌, refl, Option, none, some, String, if◌then◌else◌, str_eq, str_eq_iff, ◌≢◌, Bool-cases, inl,
  inr, ◌⊎◌, true, All,
}
use self_improving_trading_s.Errors.{Result, ok, err, file_missing}
use self_improving_trading_s.Spec.{Column}
use self_improving_trading_s.Arrow.{Arrow, Cell, null}

-- A cell that holds a value.
abbrev pub IsPresent : Cell → Type 0
IsPresent c = c ≢ null

-- No column of the table that its schema says is not nullable has a null.
abbrev pub NoMissing : (arrow : Arrow) → arrow.Table → Type 0
NoMissing arrow t =
    All (λ (c : Column). (c.nullable ≡ true) ⊎ All IsPresent (arrow.column t c.name))
      (arrow.schema t)

pub record Formats (arrow : Arrow) : Type 1 where
  pub Bytes : Type 0
  -- `pq.write_table` and `pq.read_table`, with the options of io.py
  pub to_parquet : arrow.Table → Result Bytes
  -- what is left at its path by a `pq.write_table` that raises, given what was there
  pub left_by_failure : arrow.Table → Option Bytes → Option Bytes
  pub from_parquet : Bytes → Result arrow.Table
  -- the stream of `pa.ipc.new_stream`, of the combined chunks
  pub to_ipc : arrow.Table → Bytes
  -- `text.encode("utf-8")`
  pub utf8 : String → Bytes
  -- `hashlib.sha256(...).hexdigest()`
  pub sha256 : Bytes → String
  -- `pq.write_table` objects only about nulls.
  pub parquet_writes :
      (t : arrow.Table) → NoMissing arrow t → (content : Bytes) × (to_parquet t ≡ ok content)
  -- A table that is written and read back is the table.
  pub parquet_returns :
      (t : arrow.Table) (content : Bytes) → to_parquet t ≡ ok content → from_parquet content ≡ ok t

-- The files by path. Directories are not modelled: they are made when a file is written.
abbrev pub Files : Type 0 → Type 0
Files Bytes = String → Option Bytes

-- `path.write_bytes(content)`
unfoldable pub store : {B : Type 0} → String → B → Files B → Files B
store path content files p = if str_eq p path then some content else files p

-- The files after a write to a path that failed.
unfoldable pub spoil : {B : Type 0} → String → (Option B → Option B) → Files B → Files B
spoil path left files p = if str_eq p path then left (files p) else files p

-- `path.read_bytes()`
unfoldable pub read_bytes : {B : Type 0} → String → Files B → Result B
read_bytes path files = elim (files path) [ none ↦ err file_missing | some content ↦ ok content ]

-- What is stored is read, and other files stay as they were.
pub store-read :
    {B : Type 0} (path : String) (content : B) (files : Files B)
    → read_bytes path (store path content files) ≡ ok content
unfolding store read_bytes
store-read path content files = rw ((str_eq_iff path path).1 refl, read_bytes) refl

pub store_there :
    {B : Type 0} (path : String) (content : B) (files : Files B)
    → store path content files path ≡ some content
unfolding store
store_there path content files = rw ((str_eq_iff path path).1 refl)

pub store_elsewhere :
    {B : Type 0} (path p : String) (content : B) (files : Files B)
    → p ≢ path
    → store path content files p ≡ files p
unfolding store
store_elsewhere path p content files n = elim (Bool-cases (str_eq p path)) [
  | inl e ↦ absurd (n ((str_eq_iff p path).0 e))
  | inr e ↦ rw e
]

pub spoil_elsewhere :
    {B : Type 0} (path p : String) (left : Option B → Option B) (files : Files B)
    → p ≢ path
    → spoil path left files p ≡ files p
unfolding spoil
spoil_elsewhere path p left files n = elim (Bool-cases (str_eq p path)) [
  | inl e ↦ absurd (n ((str_eq_iff p path).0 e))
  | inr e ↦ rw e
]
