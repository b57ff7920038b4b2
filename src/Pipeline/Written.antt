-- ===== src/Pipeline/Written.antt =====
-- What stays of a written dataset.
use self_improving_trading_s.Prelude.{
  ◌≡◌, ◌≢◌, sym, ap, ◌∙◌, some, List, [], ◌∷◌, String, All, lookup, str_eq, str_eq_iff, Bool-cases,
  Option-cases, inl, inr,
}
use self_improving_trading_s.Errors.{Result, ok, ok-injective}
use self_improving_trading_s.Spec.{ContractSpec}
use self_improving_trading_s.Arrow.{Arrow}
use self_improving_trading_s.Storage.{Formats, Files, read_bytes}
use self_improving_trading_s.Effects.{lift-eq-ok}
use self_improving_trading_s.Registry.{Contracts, get}
use self_improving_trading_s.Registry.Registered.{WellKept}
use self_improving_trading_s.Writer.{KnowledgeTimePolicy}
use self_improving_trading_s.Writer.Store.{WriteReceipt, write_contract_table, read_contract_table}
use self_improving_trading_s.Writer.Kept.{
  Describes, WriteOutcome, refused, failed, written, write_contract_table_lem,
}
use self_improving_trading_s.Snapshot.Sealed.{IsReadable}
use self_improving_trading_s.Snapshot.Verified.{IsCurrent}
use self_improving_trading_s.Normalize.{Row, to_table}
use self_improving_trading_s.Normalize.Partition.{write_dataset}

lookup-name :
    (contracts : Contracts) (name : String) {spec : ContractSpec}
    → All (λ (item : String × ContractSpec). item.0 ≡ item.1.name) contracts
    → lookup name contracts ≡ some spec
    → spec.name ≡ name
lookup-name [] name o h = cc
lookup-name ((k, s) ∷ contracts) name (o, os) h = elim (Bool-cases (str_eq k name)) [
  | inl e ↦ cc (o, (str_eq_iff k name).0 e, rw e at h)
  | inr e ↦ lookup-name contracts name os (rw e at h)
]

-- A registered contract has the name that it is found under.
pub get-name :
    (contracts : Contracts) (name : String) {spec : ContractSpec}
    → WellKept contracts
    → get name contracts ≡ ok spec
    → spec.name ≡ name
unfolding get
get-name contracts name w h = elim (Option-cases (lookup name contracts)) [
  | inl e ↦ cc (rw (e, get) at h)
  | inr (s, e) ↦
      lookup-name contracts name w.own_names (e ∙ ap some (ok-injective (rw (e, get) at h)))
]

module _ (arrow : Arrow) (formats : Formats arrow) (contracts : Contracts) where
  open arrow use {Table, num_rows}
  open formats use {Bytes, sha256}

  -- The files hold what the receipt is for.
  pub record Stands (files : Files Bytes) (r : WriteReceipt) (spec : ContractSpec) (table : Table)
      : Type 0 where
    pub spec_is : get r.contract contracts ≡ ok spec
    pub bytes : Bytes
    pub content : files r.path ≡ some bytes
    pub hash : sha256 bytes ≡ r.file_sha256
    pub read : read_contract_table arrow formats r.path spec files ≡ ok table
    pub rows : num_rows table ≡ r.row_count

  pub Stands-keep :
      (files later : Files Bytes) (r : WriteReceipt) (spec : ContractSpec) (table : Table)
      → later r.path ≡ files r.path
      → Stands files r spec table
      → Stands later r spec table
  unfolding read_contract_table read_bytes
  Stands-keep files later r spec table same s = record {
    spec_is = s.spec_is;
    bytes = s.bytes;
    content = same ∙ s.content;
    hash = s.hash;
    read = rw (same, read_bytes) s.read;
    rows = s.rows;
  }

  -- What a written dataset leaves.
  pub record IsWritten (rows : List Row) (name path : String) (files : Files Bytes)
      (r : WriteReceipt) (done : Files Bytes) : Type 0 where
    pub spec : ContractSpec
    pub table : Table
    pub spec_is : get name contracts ≡ ok spec
    pub built : to_table arrow rows spec ≡ ok table
    pub path_is : r.path ≡ path
    pub contract_is : r.contract ≡ name
    pub stands : Stands done r spec table
    pub others : (p : String) → p ≢ path → done p ≡ files p

  -- What is known of a write that returned a receipt.
  record Described (t : Table) (spec : ContractSpec) (path : String) (policy : KnowledgeTimePolicy)
      (files : Files Bytes) (r : WriteReceipt) (done : Files Bytes) : Type 0 where
    bytes : Bytes
    describes : Describes arrow formats r t spec path policy bytes
    there : done path ≡ some bytes
    read : read_contract_table arrow formats path spec done ≡ ok t
    others : (p : String) → p ≢ path → done p ≡ files p

  described :
      (t : Table) (spec : ContractSpec) (path : String) (policy : KnowledgeTimePolicy)
      (files : Files Bytes) (out : Result WriteReceipt × Files Bytes) (r : WriteReceipt)
      (done : Files Bytes)
      → WriteOutcome arrow formats t spec path policy files out
      → out ≡ (ok r, done)
      → Described t spec path policy files r done
  described t spec path policy files _ r done (refused e c) h = cc
  described t spec path policy files _ r done (failed e after a c others) h = cc
  described t spec path policy files _ r done (written r' bytes after _ _ d there read others) h =
      let same : r' ≡ r = ok-injective (ap (λ p. p.0) h) in
      let done_is : after ≡ done = ap (λ p. p.1) h in
      rw (← same, ← done_is)
        (record { bytes = bytes; describes = d; there = there; read = read; others = others })

  table-IsWritten :
      (rows : List Row) (name path : String) (policy : KnowledgeTimePolicy) (files : Files Bytes)
      (spec : ContractSpec) (table : Table) (r : WriteReceipt) (done : Files Bytes)
      → WellKept contracts
      → get name contracts ≡ ok spec
      → to_table arrow rows spec ≡ ok table
      → write_contract_table arrow formats table spec path policy files ≡ (ok r, done)
      → IsWritten rows name path files r done
  table-IsWritten rows name path policy files spec table r done w spec_is built out =
      let outcome = write_contract_table_lem arrow formats table spec path policy files in
      let known = described table spec path policy files _ r done outcome out in
      let d = known.describes in
      let named = d.contract_of ∙ get-name contracts name w spec_is in
      record {
        spec = spec;
        table = table;
        spec_is = spec_is;
        built = built;
        path_is = d.path_of;
        contract_is = named;
        stands = record {
          spec_is = ap (λ n. get n contracts) named ∙ spec_is;
          bytes = known.bytes;
          content = ap done d.path_of ∙ known.there;
          hash = sym d.file_of;
          read = ap (λ p. read_contract_table arrow formats p spec done) d.path_of ∙ known.read;
          rows = sym d.rows_of;
        };
        others = known.others;
      }

  pub write_dataset-IsWritten :
      (rows : List Row) (name path : String) (policy : KnowledgeTimePolicy) (files : Files Bytes)
      {r : WriteReceipt} {done : Files Bytes}
      → WellKept contracts
      → write_dataset arrow formats contracts rows name path policy files ≡ (ok r, done)
      → IsWritten rows name path files r done
  unfolding write_dataset
  write_dataset-IsWritten rows name path policy files w h =
      let (spec, spec_is, h1) = lift-eq-ok (get name contracts) _ files h in
      let (table, built, h2) = lift-eq-ok (to_table arrow rows spec) _ files h1 in
      table-IsWritten rows name path policy files spec table _ _ w spec_is built h2

  pub Stands-IsReadable :
      (files : Files Bytes) (r : WriteReceipt) (spec : ContractSpec) (table : Table)
      → Stands files r spec table
      → IsReadable arrow formats contracts files r
  Stands-IsReadable files r spec table s = record {
    spec = spec;
    table = table;
    spec_is = s.spec_is;
    content = s.read;
    rows = s.rows;
  }

  pub Stands-IsCurrent :
      (files : Files Bytes) (r : WriteReceipt) (spec : ContractSpec) (table : Table)
      → Stands files r spec table
      → IsCurrent arrow formats files r
  Stands-IsCurrent files r spec table s = (s.bytes, s.content, s.hash)
