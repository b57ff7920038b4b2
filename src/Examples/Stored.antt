-- ===== src/Examples/Stored.antt =====
-- Writing, reading and registering at concrete inputs, with files held in memory.
use self_improving_trading_s.Snapshot.{SnapshotManifest}
use self_improving_trading_s.Prelude.{◌≡◌, refl, ap, sym, true, none, [], ◌∷◌, map, String}
use self_improving_trading_s.Errors.{Result, ok, err, value_error, ok-injective}
use self_improving_trading_s.Spec.{ContractSpec, arrow_schema, no_duplicates}
use self_improving_trading_s.Contracts.Market.{trade_contract, quote_contract}
use self_improving_trading_s.Storage.{Formats, Files}
use self_improving_trading_s.Writer.{backfill}
use self_improving_trading_s.Writer.Store.{write_contract_table, read_contract_table}
use self_improving_trading_s.Writer.Kept.{
  WriteOutcome, write_contract_table_lem, read_contract_table_lem,
}
use self_improving_trading_s.Normalize.Stored.{IsKept, trades-IsKept}
use self_improving_trading_s.Registry.{Contracts, register, Lock, lock_body, check}
use self_improving_trading_s.Registry.Registered.{WellKept}
use self_improving_trading_s.Registry.Locked.{Agrees, check_lem, check-lock_body}
use self_improving_trading_s.Examples.Tables.{
  Memory, memory, history, context, raws, table, ordered, timely, normalize_trades_run,
  to_table_run,
}

-- The content of a file, not laid out in bytes.
pub data Blob : Type 0 where
  of_table : Memory → Blob
  of_text : String → Blob
  of_manifest : SnapshotManifest → Blob

abbrev pub table_in : Blob → Result Memory
table_in (of_table t) = ok t
table_in (of_text s) = err value_error
table_in (of_manifest m) = err value_error

abbrev pub text_in : Blob → String
text_in (of_table t) = "table"
text_in (of_text s) = s
text_in (of_manifest m) = "manifest"

abbrev pub memory_formats : Formats memory
memory_formats = record {
  Bytes = Blob;
  to_parquet = λ t. ok (of_table t);
  left_by_failure = λ t before. before;
  from_parquet = table_in;
  to_ipc = of_table;
  utf8 = of_text;
  sha256 = text_in;
  parquet_writes = λ t h. (of_table t, refl);
  parquet_returns = λ t content h. ap table_in (sym (ok-injective h));
}

abbrev pub no_files : Files Blob
no_files p = none

trades-IsKept_example : IsKept memory memory_formats table trade_contract "/d/t" backfill no_files
trades-IsKept_example =
    trades-IsKept memory memory_formats raws history context "/d/t" no_files ordered timely
      normalize_trades_run to_table_run

write_contract_table_lem_example :
    WriteOutcome memory memory_formats table trade_contract "/d/t" backfill no_files
      (write_contract_table memory memory_formats table trade_contract "/d/t" backfill no_files)
write_contract_table_lem_example =
    write_contract_table_lem memory memory_formats table trade_contract "/d/t" backfill no_files

-- The files once the trades are written.
abbrev pub after : Files Blob
after = (write_contract_table memory memory_formats table trade_contract "/d/t" backfill no_files).1

pub read_back_run : read_contract_table memory memory_formats "/d/t" trade_contract after ≡ ok table
read_back_run =
    (trades-IsKept memory memory_formats raws history context "/d/t" no_files ordered timely
      normalize_trades_run to_table_run).read

read_contract_table_lem_example : memory.schema table ≡ arrow_schema trade_contract
read_contract_table_lem_example =
    read_contract_table_lem memory memory_formats "/d/t" trade_contract after read_back_run

abbrev pub both : Contracts
both = ("normalized.trade", trade_contract) ∷ ("normalized.quote", quote_contract) ∷ []

register_run : register quote_contract (("normalized.trade", trade_contract) ∷ []) ≡ ok both
unfolding register quote_contract
register_run = refl

one_kept : WellKept (("normalized.trade", trade_contract) ∷ [])
unfolding trade_contract
one_kept = record { own_names = (refl, tt); once = (tt, tt) }

abbrev hash : String → String
hash s = s

abbrev lock : Lock
lock = lock_body hash "1" (trade_contract ∷ quote_contract ∷ []) []

names_differ :
    no_duplicates (map (λ (spec : ContractSpec). spec.name) (trade_contract ∷ quote_contract ∷ []))
    ≡ true
unfolding no_duplicates trade_contract quote_contract
names_differ = refl

check-lock_body_example : check hash "1" lock (trade_contract ∷ quote_contract ∷ []) ≡ []
check-lock_body_example =
    check-lock_body hash "1" (trade_contract ∷ quote_contract ∷ []) [] names_differ

check_run : check hash "1" lock (trade_contract ∷ quote_contract ∷ []) ≡ []
check_run = check-lock_body hash "1" (trade_contract ∷ quote_contract ∷ []) [] names_differ

check_lem_example : Agrees hash "1" lock (trade_contract ∷ quote_contract ∷ [])
check_lem_example = check_lem hash "1" lock (trade_contract ∷ quote_contract ∷ []) check_run
