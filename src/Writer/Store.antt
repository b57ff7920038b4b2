-- ===== src/Writer/Store.antt =====
-- packages/schemas/src/trading/schemas/io.py: writing a contract table to a file, and reading one.
-- The sources of a receipt's hashes are the interface of `Storage`.
use self_improving_trading_s.Prelude.{ℕ, String, ℤ}
use self_improving_trading_s.Errors.{Result, ok, err, ◌>>=◌, ◌>>◌}
use self_improving_trading_s.Spec.{ContractSpec}
use self_improving_trading_s.Spec.Canonical.{canonical_form}
use self_improving_trading_s.Arrow.{Arrow}
use self_improving_trading_s.Storage.{Formats, Files, store, spoil, read_bytes}
use self_improving_trading_s.Writer.{
  KnowledgeTimePolicy, check_schema, check_time_fields, check_ordering, check_money,
}

pub record WriteReceipt : Type 0 where
  pub path : String
  pub contract : String
  pub contract_version : ℤ
  pub schema_hash : String
  pub row_count : ℕ
  pub file_sha256 : String
  pub content_sha256 : String
  pub knowledge_policy : KnowledgeTimePolicy

module _ (arrow : Arrow) (formats : Formats arrow) where
  open arrow use {Table, num_rows}
  open formats use {Bytes, to_parquet, left_by_failure, from_parquet, to_ipc, utf8, sha256}

  -- `content_sha256`
  unfoldable pub content_sha256 : Table → String
  content_sha256 t = sha256 (to_ipc t)

  -- `ContractSpec.content_hash`
  unfoldable pub content_hash : ContractSpec → String
  content_hash spec = sha256 (utf8 (canonical_form spec))

  -- The checks that come before anything is written.
  unfoldable pub checks_of_write : Table → ContractSpec → KnowledgeTimePolicy → Result (Unit {0})
  checks_of_write t spec policy = do
    check_schema arrow t spec
    check_time_fields arrow t spec policy
    check_ordering arrow t spec
    check_money arrow t spec

  -- The receipt of a file that is written.
  unfoldable pub receipt_of :
      Table → ContractSpec → String → KnowledgeTimePolicy → Files Bytes → Result WriteReceipt
  receipt_of t spec path policy files = do
    content ← read_bytes path files
    ok (record {
      path = path;
      contract = spec.name;
      contract_version = spec.version;
      schema_hash = content_hash spec;
      row_count = num_rows t;
      file_sha256 = sha256 content;
      content_sha256 = content_sha256 t;
      knowledge_policy = policy;
    })

  -- `pq.write_table` and the receipt, by what the table's encoding gave.
  unfoldable pub write_encoded :
      Table
      → ContractSpec
      → String
      → KnowledgeTimePolicy
      → Files Bytes
      → Result Bytes
      → Result WriteReceipt × Files Bytes
  write_encoded t spec path policy files (err e) = (err e, spoil path (left_by_failure t) files)
  write_encoded t spec path policy files (ok content) =
      let written = store path content files in (receipt_of t spec path policy written, written)

  -- What is returned or raised, and the files afterwards, by what the checks gave.
  unfoldable pub write_checked :
      Table
      → ContractSpec
      → String
      → KnowledgeTimePolicy
      → Files Bytes
      → Result (Unit {0})
      → Result WriteReceipt × Files Bytes
  unfolding write_encoded
  write_checked t spec path policy files (err e) = (err e, files)
  write_checked t spec path policy files (ok _) =
      write_encoded t spec path policy files (to_parquet t)

  unfoldable pub write_contract_table :
      Table
      → ContractSpec
      → String
      → KnowledgeTimePolicy
      → Files Bytes
      → Result WriteReceipt × Files Bytes
  unfolding write_checked
  write_contract_table t spec path policy files =
      write_checked t spec path policy files (checks_of_write t spec policy)

  unfoldable pub read_contract_table : String → ContractSpec → Files Bytes → Result Table
  read_contract_table path spec files = do
    content ← read_bytes path files
    t ← from_parquet content
    check_schema arrow t spec
    ok t
