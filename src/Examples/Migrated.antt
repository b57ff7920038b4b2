-- ===== src/Examples/Migrated.antt =====
-- Migrations at concrete inputs, with a database that is its ledger.
use self_improving_trading_s.Prelude.{
  ℕ, ◌≡◌, refl, Option, none, some, List, [], ◌∷◌, ◌++◌, String, sorted_by, Reordered, none_left,
  same_first, swapped, in_turn,
}
use self_improving_trading_s.Errors.{Result, ok, err, value_error, ok-injective}
use self_improving_trading_s.Migrate.{
  Migration, Database, or_no_rows, applied_migrations, discover, pending, apply, by_version,
  found_in,
}
use self_improving_trading_s.Migrate.Applied.{
  LedgerLaws, LeavesLedger, IsPending, pending_lem, apply-pending,
}

abbrev Ledger : Type 0
Ledger = Option (List (ℕ × String))

-- Any text makes the ledger, if it is not there yet.
abbrev run : String → Ledger → Result Ledger
run sql none = ok (some [])
run sql (some rows) = ok (some rows)

abbrev record_row : ℕ → String → String → Ledger → Result Ledger
record_row v name digest none = err value_error
record_row v name digest (some rows) = ok (some (rows ++ ((v, digest) ∷ [])))

abbrev database : Database
database = record { Db = Ledger; ledger = λ db. db; execute = run; insert = record_row }

abbrev sha256 : String → String
sha256 s = s

abbrev folder : Option (List (String × String))
folder = some (("0001_trials.sql", "create trials") ∷ ("0000_ledger.sql", "create ledger") ∷ [])

abbrev ledger_file : Migration
ledger_file = record {
  version = 0;
  name = "ledger";
  path = "0000_ledger.sql";
  sql = "create ledger";
}

abbrev trials_file : Migration
trials_file = record {
  version = 1;
  name = "trials";
  path = "0001_trials.sql";
  sql = "create trials";
}

discover_run : discover folder ≡ ok (ledger_file ∷ trials_file ∷ [])
unfolding discover found_in sorted_by by_version
discover_run = refl

pending_run :
    pending database sha256 (some ((0, "create ledger") ∷ [])) folder ≡ ok (trials_file ∷ [])
unfolding pending discover found_in sorted_by or_no_rows by_version
pending_run = refl

pending_lem_example :
    (ms : List Migration) × (discover folder ≡ ok ms)
    × IsPending database sha256 (some ((0, "create ledger") ∷ [])) ms (trials_file ∷ [])
pending_lem_example =
    pending_lem database sha256 (some ((0, "create ledger") ∷ [])) folder pending_run

executes_rows :
    (sql : String) (db after : Ledger) → run sql db ≡ ok after → or_no_rows after ≡ or_no_rows db
unfolding or_no_rows
executes_rows sql none after h = rw (← ok-injective h) refl
executes_rows sql (some rows) after h = rw (← ok-injective h) refl

-- A row behind others can be moved to the front.
to_front : (r : ℕ × String) (rows : List (ℕ × String)) → Reordered (rows ++ (r ∷ [])) (r ∷ rows)
to_front r [] = same_first r none_left
to_front r (x ∷ rows) = in_turn (same_first x (to_front r rows)) (swapped x r rows)

inserts_row :
    (v : ℕ) (name digest : String) (db after : Ledger)
    → record_row v name digest db ≡ ok after
    → Reordered (or_no_rows after) ((v, digest) ∷ or_no_rows db)
unfolding or_no_rows
inserts_row v name digest none after h = cc
inserts_row v name digest (some rows) after h = rw (← ok-injective h) (to_front (v, digest) rows)

laws : LedgerLaws database sha256
unfolding applied_migrations
laws = record { inserts = inserts_row }

leaves_ledger : (m : Migration) → LeavesLedger database sha256 m
unfolding applied_migrations
leaves_ledger m = executes_rows m.sql

apply_run :
    apply database sha256 none folder
    ≡ ok (ledger_file ∷ trials_file ∷ [], some ((0, "create ledger") ∷ (1, "create trials") ∷ []))
unfolding apply discover found_in sorted_by or_no_rows by_version
apply_run = refl

apply-pending_example :
    pending database sha256 (some ((0, "create ledger") ∷ (1, "create trials") ∷ [])) folder ≡ ok []
apply-pending_example =
    apply-pending database sha256 laws none folder
      (leaves_ledger ledger_file, (leaves_ledger trials_file, tt)) apply_run
