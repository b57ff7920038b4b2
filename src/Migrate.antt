-- ===== src/Migrate.antt =====
-- packages/memory/src/trading/memory/migrate.py: numbered migrations, checked against the ledger of a
-- database and applied in order. The database and the hash of a text are parameters. Filenames are
-- ASCII: `\d` of the code's expression would match other decimal digits too.
pub mod Discovered
pub mod Applied
use Prim.Native.Char.{code}
use self_improving_trading_s.Prelude.{
  ℕ, zero, suc, ◌+◌, ◌-◌, ◌*◌, ◌≡◌, ◌==◌, leb, Bool, true, false, not, ◌&&◌, ◌||◌, Option, none,
  some, List, [], ◌∷◌, ◌++◌, map, String, ℤ, pos, if◌then◌else◌, str_eq, sorted_by, text_ord,
  int_ord,
}
use self_improving_trading_s.Errors.{Result, ok, err, migration_error, ◌>>=◌, ◌>>◌, require}

pub record Migration : Type 0 where
  pub version : ℕ
  pub name : String
  pub path : String
  pub sql : String

is_digit : ℕ → Bool
is_digit c = leb b'0' c && leb c b'9'

-- `[a-z0-9_]`
is_name_char : ℕ → Bool
unfolding is_digit
is_name_char c = leb b'a' c && leb c b'z' || (is_digit c || c == b'_')

-- `\d{n}`: the number read, after the digits before it, and the text behind
take_digits : ℕ → ℕ → String → Option (ℕ × String)
unfolding is_digit
take_digits zero value s = some (value, s)
take_digits (suc n) value String.[] = none
take_digits (suc n) value (String.◌∷◌ c s) =
    let rest = take_digits n (value * 10 + (code c - b'0')) s in
    if is_digit (code c) then rest else none

-- The longest front that `[a-z0-9_]*` matches, and the text behind
take_name : String → String × String
unfolding is_name_char
take_name String.[] = (String.[], String.[])
take_name (String.◌∷◌ c s) =
    let rest = take_name s in
    if is_name_char (code c) then (String.◌∷◌ c rest.0, rest.1) else (String.[], String.◌∷◌ c s)

after_name : ℕ → String × String → Option (ℕ × String)
after_name version (name, rest) =
    if not (str_eq name "") && str_eq rest ".sql" then some (version, name) else none

after_version : Option (ℕ × String) → Option (ℕ × String)
unfolding take_name after_name
after_version none = none
after_version (some (version, String.[])) = none
after_version (some (version, String.◌∷◌ c s)) =
    if code c == b'_' then after_name version (take_name s) else none

-- `_FILENAME.match`
unfoldable pub match_filename : String → Option (ℕ × String)
unfolding take_digits after_version
match_filename file = after_version (take_digits 4 0 file)

unfoldable pub has_version : ℕ → List Migration → Bool
has_version v [] = false
has_version v (m ∷ ms) = m.version == v || has_version v ms

-- One turn of the loop of `discover`.
unfoldable pub add_found :
    String → String → Option (ℕ × String) → List Migration → Result (List Migration)
unfolding has_version
add_found file sql none found = err migration_error
add_found file sql (some (version, name)) found =
    if has_version version found
    then err migration_error
    else ok (found ++ (record { version = version; name = name; path = file; sql = sql } ∷ []))

unfoldable pub found_in : List (String × String) → List Migration → Result (List Migration)
unfolding add_found match_filename
found_in [] found = ok found
found_in ((file, sql) ∷ files) found = do
  more ← add_found file sql (match_filename file) found
  found_in files more

unfoldable pub by_version : List Migration → List Migration
by_version = sorted_by int_ord (λ (m : Migration). pos m.version)

-- `discover`: of a directory that is missing, or whose `*.sql` files have these names and texts
unfoldable pub discover : Option (List (String × String)) → Result (List Migration)
discover none = err migration_error
discover (some files) = do
  found ← found_in (sorted_by text_ord (λ (f : String × String). f.0) files) []
  ok (by_version found)

-- What the code asks of a database: the rows of the ledger, if it exists, running a text, and adding a
-- row to the ledger.
pub record Database : Type 1 where
  pub Db : Type 0
  pub ledger : Db → Option (List (ℕ × String))
  pub execute : String → Db → Result Db
  pub insert : ℕ → String → String → Db → Result Db

unfoldable pub or_no_rows : Option (List (ℕ × String)) → List (ℕ × String)
or_no_rows none = []
or_no_rows (some rows) = rows

-- `by_version.get(version)`
unfoldable pub find_version : ℕ → List Migration → Option Migration
find_version v [] = none
find_version v (m ∷ ms) = if m.version == v then some m else find_version v ms

unfoldable pub in_rows : ℕ → List (ℕ × String) → Bool
in_rows v [] = false
in_rows v ((w, h) ∷ rows) = w == v || in_rows v rows

-- The last line of `pending`.
unfoldable pub not_applied : List Migration → List (ℕ × String) → List Migration
unfolding in_rows
not_applied [] rows = []
not_applied (m ∷ ms) rows =
    let rest = not_applied ms rows in if not (in_rows m.version rows) then m ∷ rest else rest

module _ (database : Database) (sha256 : String → String) where
  open database use {Db, ledger, execute, insert}

  unfoldable pub applied_migrations : Db → List (ℕ × String)
  applied_migrations db = or_no_rows (ledger db)

  -- The body of the loop of `pending`.
  unfoldable pub check_recorded : Option Migration → String → Result (Unit {0})
  check_recorded none recorded = err migration_error
  check_recorded (some m) recorded = require (str_eq (sha256 m.sql) recorded) migration_error

  unfoldable pub check_applied : List Migration → List (ℕ × String) → Result (Unit {0})
  unfolding check_recorded find_version
  check_applied ms [] = ok tt
  check_applied ms ((version, recorded) ∷ rows) = do
    check_recorded (find_version version ms) recorded
    check_applied ms rows

  unfoldable pub by_row : List (ℕ × String) → List (ℕ × String)
  by_row = sorted_by int_ord (λ (r : ℕ × String). pos r.0)

  unfoldable pub pending : Db → Option (List (String × String)) → Result (List Migration)
  unfolding check_applied not_applied applied_migrations by_row
  pending db directory = do
    migrations ← discover directory
    check_applied migrations (by_row (applied_migrations db))
    ok (not_applied migrations (applied_migrations db))

  -- The loop of `apply`. Where it raises, the caller's transaction is what is left.
  unfoldable pub apply_all : List Migration → Db → Result Db
  apply_all [] db = ok db
  apply_all (m ∷ ms) db = do
    changed ← execute m.sql db
    recorded ← insert m.version m.name (sha256 m.sql) changed
    apply_all ms recorded

  unfoldable pub apply : Db → Option (List (String × String)) → Result (List Migration × Db)
  unfolding pending apply_all
  apply db directory = do
    to_apply ← pending db directory
    after ← apply_all to_apply db
    ok (to_apply, after)
