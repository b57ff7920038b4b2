-- ===== src/Writer/Kept.antt =====
-- What the writer keeps of a table, and when it writes nothing.
use self_improving_trading_s.Prelude.{◌≡◌, refl, ◌≢◌, ◌∙◌, String, some, inl, inr}
use self_improving_trading_s.Errors.{Result, ok, err, Error, >>=-eq-ok, ok-injective, Result-cases}
use self_improving_trading_s.Spec.{ContractSpec, arrow_schema}
use self_improving_trading_s.Arrow.{Arrow}
use self_improving_trading_s.Storage.{
  Formats, Files, store, read_bytes, store-read, store_there, store_elsewhere, spoil_elsewhere,
}
use self_improving_trading_s.Writer.{
  KnowledgeTimePolicy, check_schema, check_time_fields, check_ordering, check_money,
}
use self_improving_trading_s.Writer.Schemas.{check_schema_iff}
use self_improving_trading_s.Writer.Store.{
  WriteReceipt, content_sha256, content_hash, checks_of_write, receipt_of, write_checked,
  write_encoded, write_contract_table, read_contract_table,
}

module _ (arrow : Arrow) (formats : Formats arrow) where
  open arrow use {Table, num_rows}
  open formats use {Bytes, to_parquet, from_parquet, sha256, parquet_returns}

  -- What a receipt says of the table and of the file's content.
  pub record Describes (r : WriteReceipt) (t : Table) (spec : ContractSpec) (path : String)
      (policy : KnowledgeTimePolicy) (content : Bytes) : Type 0 where
    pub path_of : r.path ≡ path
    pub contract_of : r.contract ≡ spec.name
    pub version_of : r.contract_version ≡ spec.version
    pub schema_of : r.schema_hash ≡ content_hash arrow formats spec
    pub rows_of : r.row_count ≡ num_rows t
    pub file_of : r.file_sha256 ≡ sha256 content
    pub content_of : r.content_sha256 ≡ content_sha256 arrow formats t
    pub policy_of : r.knowledge_policy ≡ policy

  -- A table that each of the four checks lets pass.
  pub record Accepted (t : Table) (spec : ContractSpec) (policy : KnowledgeTimePolicy)
      : Type 0 where
    pub schema : check_schema arrow t spec ≡ ok tt
    pub times : check_time_fields arrow t spec policy ≡ ok tt
    pub keys : check_ordering arrow t spec ≡ ok tt
    pub money : check_money arrow t spec ≡ ok tt

  -- The first check that does not let a table pass, and what it raises.
  pub data Refused (t : Table) (spec : ContractSpec) (policy : KnowledgeTimePolicy) (e : Error)
      : Type 0 where
    by_schema : check_schema arrow t spec ≡ err e → Refused t spec policy e
    by_times :
        check_schema arrow t spec ≡ ok tt
        → check_time_fields arrow t spec policy ≡ err e
        → Refused t spec policy e
    by_keys :
        check_schema arrow t spec ≡ ok tt
        → check_time_fields arrow t spec policy ≡ ok tt
        → check_ordering arrow t spec ≡ err e
        → Refused t spec policy e
    by_money :
        check_schema arrow t spec ≡ ok tt
        → check_time_fields arrow t spec policy ≡ ok tt
        → check_ordering arrow t spec ≡ ok tt
        → check_money arrow t spec ≡ err e
        → Refused t spec policy e

  -- The three ways a write can end.
  pub data WriteOutcome (t : Table) (spec : ContractSpec) (path : String)
      (policy : KnowledgeTimePolicy) (files : Files Bytes)
      : Result WriteReceipt × Files Bytes → Type 0 where
    refused :
        (e : Error) → Refused t spec policy e → WriteOutcome t spec path policy files (err e, files)
    failed :
        (e : Error) (after : Files Bytes)
        → Accepted t spec policy
        → to_parquet t ≡ err e
        → ((p : String) → p ≢ path → after p ≡ files p)
        → WriteOutcome t spec path policy files (err e, after)
    written :
        (r : WriteReceipt) (content : Bytes) (after : Files Bytes)
        → Accepted t spec policy
        → to_parquet t ≡ ok content
        → Describes r t spec path policy content
        → after path ≡ some content
        → read_contract_table arrow formats path spec after ≡ ok t
        → ((p : String) → p ≢ path → after p ≡ files p)
        → WriteOutcome t spec path policy files (ok r, after)

  checks_of_write-Accepted :
      (t : Table) (spec : ContractSpec) (policy : KnowledgeTimePolicy)
      → checks_of_write arrow formats t spec policy ≡ ok tt
      → Accepted t spec policy
  unfolding checks_of_write
  checks_of_write-Accepted t spec policy h =
      let (_, a, h1) = >>=-eq-ok (check_schema arrow t spec) _ h in
      let (_, b, h2) = >>=-eq-ok (check_time_fields arrow t spec policy) _ h1 in
      let (_, c, h3) = >>=-eq-ok (check_ordering arrow t spec) _ h2 in
      record { schema = a; times = b; keys = c; money = h3 }

  checks_of_write-Refused :
      (t : Table) (spec : ContractSpec) (policy : KnowledgeTimePolicy) {e : Error}
      → checks_of_write arrow formats t spec policy ≡ err e
      → Refused t spec policy e
  unfolding checks_of_write
  checks_of_write-Refused t spec policy h = elim (Result-cases (check_schema arrow t spec)) [
    | inl (_, a) ↦ by_schema (a ∙ (rw a at h))
    | inr (_, a) ↦ elim (Result-cases (check_time_fields arrow t spec policy)) [
      | inl (_, b) ↦ by_times a (b ∙ (rw (a, b) at h))
      | inr (_, b) ↦ elim (Result-cases (check_ordering arrow t spec)) [
        | inl (_, c) ↦ by_keys a b (c ∙ (rw (a, b, c) at h))
        | inr (_, c) ↦ by_money a b c (rw (a, b, c) at h)
      ]
    ]
  ]

  pub read_back :
      (t : Table) (spec : ContractSpec) (path : String) (files : Files Bytes) (content : Bytes)
      → to_parquet t ≡ ok content
      → check_schema arrow t spec ≡ ok tt
      → read_contract_table arrow formats path spec (store path content files) ≡ ok t
  unfolding read_contract_table
  read_back t spec path files content e h =
      rw (store-read path content files) (rw (parquet_returns t content e) (rw h refl))

  -- A table that passes is encoded, or its encoding raises.
  encoded :
      (t : Table) (spec : ContractSpec) (path : String) (policy : KnowledgeTimePolicy)
      (files : Files Bytes) (bytes : Result Bytes)
      → Accepted t spec policy
      → to_parquet t ≡ bytes
      → WriteOutcome t spec path policy files
          (write_encoded arrow formats t spec path policy files bytes)
  unfolding write_encoded receipt_of
  encoded t spec path policy files (err e) a h =
      failed e _ a h (λ p. spoil_elsewhere path p (formats.left_by_failure t) files)
  encoded t spec path policy files (ok content) a h = rw (store-read path content files) (
      written _ content _ a h
        (record {
          path_of = refl;
          contract_of = refl;
          version_of = refl;
          schema_of = refl;
          rows_of = refl;
          file_of = refl;
          content_of = refl;
          policy_of = refl;
        })
        (store_there path content files) (read_back t spec path files content h a.schema)
        (λ p. store_elsewhere path p content files))

  outcome :
      (t : Table) (spec : ContractSpec) (path : String) (policy : KnowledgeTimePolicy)
      (files : Files Bytes) (checked : Result (Unit {0}))
      → checks_of_write arrow formats t spec policy ≡ checked
      → WriteOutcome t spec path policy files
          (write_checked arrow formats t spec path policy files checked)
  unfolding write_checked
  outcome t spec path policy files (err e) h = refused e (checks_of_write-Refused t spec policy h)
  outcome t spec path policy files (ok _) h =
      encoded t spec path policy files (to_parquet t) (checks_of_write-Accepted t spec policy h)
        refl

  -- Where all checks pass and the table can be encoded, the file is written.
  pub write_passed :
      (t : Table) (spec : ContractSpec) (path : String) (policy : KnowledgeTimePolicy)
      (files : Files Bytes) (content : Bytes)
      → checks_of_write arrow formats t spec policy ≡ ok tt
      → to_parquet t ≡ ok content
      → (r : WriteReceipt) × (write_contract_table arrow formats t spec path policy files
          ≡ (ok r, store path content files))
  unfolding write_contract_table write_checked receipt_of
  write_passed t spec path policy files content h e =
      rw h (rw e (rw (store-read path content files) (_, refl)))

  -- Writing a table ends in one of three ways. It raises what the first of the four checks that fails
  -- raises, the check of the schema, of the times, of the keys or of the money, and leaves every file as
  -- it was. Or all four checks let the table pass and parquet raises, and no file but the one at the path
  -- changes. Or all four checks let it pass, the file at the path holds what parquet made of the table,
  -- the receipt describes the table, the contract, the policy and those bytes, reading the path under the
  -- contract gives the same table, and every other file is as it was.
  pub write_contract_table_lem :
      (t : Table) (spec : ContractSpec) (path : String) (policy : KnowledgeTimePolicy)
      (files : Files Bytes)
      → WriteOutcome t spec path policy files
          (write_contract_table arrow formats t spec path policy files)
  unfolding write_contract_table
  write_contract_table_lem t spec path policy files =
      outcome t spec path policy files (checks_of_write arrow formats t spec policy) refl

  -- A file that is read under a contract has the schema of the contract.
  pub read_contract_table_lem :
      (path : String) (spec : ContractSpec) (files : Files Bytes) {t : Table}
      → read_contract_table arrow formats path spec files ≡ ok t
      → arrow.schema t ≡ arrow_schema spec
  unfolding read_contract_table
  read_contract_table_lem path spec files h =
      let (content, a, h1) = >>=-eq-ok (read_bytes path files) _ h in
      let (t, b, h2) = >>=-eq-ok (from_parquet content) _ h1 in
      let (_, c, h3) = >>=-eq-ok (check_schema arrow t spec) _ h2 in
      rw (← ok-injective h3) ((check_schema_iff arrow t spec).0 c)
