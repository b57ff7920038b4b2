-- ===== src/Vendor/Files.antt =====
-- packages/market_data/src/trading/market_data/alpaca_raw.py: the files of a raw partition. Decoding a
-- file into lines and `json.loads` of a line, which holds an object, are an interface.
use self_improving_trading_s.Prelude.{
  ◌≡◌, ap, Bool, if◌then◌else◌, Option, none, some, List, [], ◌∷◌, ◌++◌, String, codes, is_space,
  sorted_by, text_ord, Distinct, Reordered, sorted_by-Reordered, all,
}
use self_improving_trading_s.Errors.{Result, ok, err, raw_record_error, ◌>>=◌}
use self_improving_trading_s.Storage.{Files, read_bytes}
use self_improving_trading_s.Vendor.{Json, Record}

pub record Documents (Bytes : Type 0) : Type 0 where
  -- the lines of a file that is opened with the encoding UTF-8
  pub lines : Bytes → List String
  -- `json.loads(line, parse_float=Decimal)`; none for a JSONDecodeError
  pub loads : String → Option Record
  -- `json.loads(path.read_text(encoding="utf-8"))`
  pub document : Bytes → Result Json

-- `not line.strip()`
unfoldable pub is_blank : String → Bool
is_blank line = all is_space (codes line)

unfoldable pub load : Option Record → Result Record
load none = err raw_record_error
load (some record_) = ok record_

-- `if not files: raise`
unfoldable pub some_files : List String → Result (List String)
some_files [] = err raw_record_error
some_files (path ∷ paths) = ok (path ∷ paths)

-- Of the paths that `directory.glob("*.ndjson")` finds.
unfoldable pub partition_files : List String → Result (List String)
unfolding some_files
partition_files found = some_files (sorted_by text_ord (λ (p : String). p) found)

module _ {Bytes : Type 0} (documents : Documents Bytes) {R : Type 0}
    (parse : Record → Result R) where
  open documents use {lines, loads}

  -- `[parse(record) for record in read_ndjson(path)]`, over the lines of the file
  unfoldable pub read_ndjson : List String → Result (List R)
  unfolding is_blank load
  read_ndjson [] = ok []
  read_ndjson (line ∷ rest) =
      let others = read_ndjson rest in
      let mapped : Result (List R) = (do
        record_ ← load (loads line)
        first ← parse record_
        more ← others
        ok (first ∷ more)) in
      if is_blank line then others else mapped

  unfoldable pub read_files : List String → Files Bytes → Result (List R)
  read_files [] files = ok []
  read_files (path ∷ paths) files = do
    content ← read_bytes path files
    here ← read_ndjson (lines content)
    more ← read_files paths files
    ok (here ++ more)

  -- `[parse(record) for path in partition_files(directory) for record in read_ndjson(path)]`
  unfoldable pub read_partition : List String → Files Bytes → Result (List R)
  unfolding partition_files
  read_partition found files = do paths ← partition_files found; read_files paths files

partition_files-Reordered :
    {xs ys : List String}
    → Reordered xs ys
    → Distinct text_ord (λ (p : String). p) xs
    → partition_files xs ≡ partition_files ys
unfolding partition_files
partition_files-Reordered p d = ap some_files (sorted_by-Reordered text_ord (λ (p : String). p) p d)

module _ {Bytes : Type 0} (documents : Documents Bytes) {R : Type 0}
    (parse : Record → Result R) where
  -- A partition gives the same records in the same order, or the same error, in whatever order the
  -- directory lists its files, which are different.
  pub read_partition-Reordered :
      {xs ys : List String} (files : Files Bytes)
      → Reordered xs ys
      → Distinct text_ord (λ (p : String). p) xs
      → read_partition documents parse xs files ≡ read_partition documents parse ys files
  unfolding read_partition
  read_partition-Reordered files p d = rw (partition_files-Reordered p d)
