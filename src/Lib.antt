-- ===== src/Lib.antt =====
-- Verification library of the trading research platform.
--
-- The platform turns vendor records into contract tables on which research can rely. Its parts and
-- the files that model them:
--
-- - packages/schemas/src/trading/schemas/money.py: nano-dollars, exact rates and the rounding that is
--   always against us. Money.antt has the definitions, under the names of the Python functions without
--   a leading underscore; Money/Sides.antt, Money/Rounding.antt and Money/Dollars.antt the proofs.
--   Fraction.antt and Decimal.antt (with Decimal/Fitted.antt) model what the code uses of the standard
--   library, the limits of the default decimal context included.
-- - operating_state.py (same directory): the guard of the state machine (OperatingState.antt);
--   OperatingState/Reach.antt has the transitions of the specification, those into the capital states
--   too, as a step relation, and sequences of accepted changes as another.
-- - ordering.py: the key of the event order (Ordering.antt, Ordering/Total.antt).
-- - time.py: the plausible band (Time.antt), parsing (Time/Rfc3339.antt) and printing (Time/Printed.antt)
--   of RFC 3339 timestamps, with the proofs in Time/Digits.antt, Time/Matched.antt and
--   Time/RoundTrip.antt. Calendar.antt models what it uses of the standard library, timegm and gmtime.
-- - spec.py: fields, contracts and Arrow schemas as data (Spec.antt, Spec/Lookup.antt). The declared
--   contracts of market_events.py, instrument.py, execution.py and features.py are in Contracts/, one
--   definition for each, field by field.
-- - io.py: the contract writer. Writer.antt has the checks, with one child for each (Schemas, Times,
--   Keys, Amounts); Writer/Store.antt writes and reads files, Writer/Kept.antt says what they keep.
--   pyarrow is an interface, Arrow.antt; parquet, Arrow's stream format and SHA-256 are one, Storage.antt,
--   which also has the files, a map from paths to bytes. Their laws are documented behaviour; writing
--   parquet may raise, and what it then leaves at its path is a parameter.
-- - registry.py: registered contracts and the lock (Registry.antt, Registry/Registered.antt,
--   Registry/Locked.antt). The canonical form of a contract is in Spec/Canonical.antt; Examples/Locked.antt
--   compares it with every text of packages/schemas/registry/contracts.json.
-- - documents.py (manifests) and packages/market_data/src/trading/market_data/snapshot/: manifests, their
--   identity, verification and the reader (Snapshot.antt and its children).
-- - canonical_json.py: the encoder of hashed documents (CanonicalJson.antt, CanonicalJson/Order.antt).
-- - instrument.py: which instrument a ticker names at an instant (Instrument.antt, Instrument/Resolve.antt).
-- - packages/market_data/src/trading/market_data/alpaca_raw.py: the vendor's records (Vendor.antt,
--   Vendor/Mapped.antt) and the files of a raw partition (Vendor/Files.antt).
-- - reference.py (same directory): the bundle of reference data (Reference.antt).
-- - normalize.py (same directory): trades and quotes to rows and tables (Normalize.antt), and a whole
--   partition (Normalize/Partition.antt); the other children follow a row from the vendor's record to the
--   checks of the writer.
-- - bars.py (same directory): bars from trades (Bars.antt), with children on grouping, sums and prices.
-- - pipeline.py (same directory): a run from raw files to a snapshot (Pipeline.antt, Pipeline/Inputs.antt),
--   in the monad of Effects.antt, which keeps the files when an error is raised; Pipeline/Written.antt,
--   Tables.antt, Finished.antt and Sealed.antt follow the files through it.
-- - packages/memory/src/trading/memory/migrate.py: migrations (Migrate.antt and its children); the
--   database is an interface. What is relied on of it, that an INSERT adds its row, is
--   Migrate.Applied.LedgerLaws, and of the texts of migrations Migrate.Applied.LeavesLedger.
-- - packages/runtime/src/trading/runtime/determinism.py: the guard of the pinned environment
--   (Determinism.antt, Determinism/Pinned.antt).
-- - fingerprint.py (same directory): the image that runs and the fingerprint of its environment
--   (Fingerprint.antt, with a child on each of the image, the reading of files and the fields).
-- - seeds.py (same directory): random streams by name (Seeds.antt, Seeds/Streams.antt).
-- - apps/cli/src/trading/cli/main.py: building and verifying a snapshot (Command.antt,
--   Command/Verified.antt).
-- - tools/banned_patterns.py: the checker of sources. BannedPatterns/Syntax.antt has the syntax trees,
--   BannedPatterns.antt the comments that allow a violation, BannedPatterns/Visitor.antt the visitor and
--   BannedPatterns/Files.antt the checks of files. BannedPatterns/Rules.antt states the rules for a node,
--   wherever it stands; Reports.antt, Calls.antt, Checked.antt, Told.antt and Clean.antt (same directory)
--   have the proofs.
--
-- Normalization calls the resolution of tickers, the conversion of amounts and the event order, and
-- its tables go through the writer, whose checks read the contracts. Bars use the roundings of money.
-- Manifests are built from the receipts of the writer, and the reader of a snapshot reads their files
-- under the registered contracts. The pipeline composes all of these, and the command line calls it.
--
-- Conventions. A Python int is an unbounded ℤ of its own over the native numbers (Prelude/Int.antt). A
-- function that may raise returns a Result of Errors.antt, whose errors are the exception classes, for
-- the writer with the cause; messages are not kept. Tables are read through Arrow only. Python's sorted
-- is a stable insertion sort (Prelude/Sorting.antt). Rows are dicts with fixed keys, kept as records.
-- Decimal.digit_count counts digits on fuel, the coefficient itself, which has fewer digits than its
-- value; Spec/Canonical.antt prints a number with one more than it as fuel. Everything else is
-- structural recursion, but for Time/Printed.antt, which prints a number that is too long for its width
-- with one more than it as fuel, and Fingerprint.antt, which reads a file in parts with one more than its
-- length.
--
-- Timestamps are parsed and printed as the code points of their text. A digit of the pattern is any
-- decimal digit of Unicode 15, as in Python 3.12. json.loads and the decoding of a file are an interface,
-- Vendor.Files.Documents, and what str and int make of values that no record should hold another,
-- Vendor.Builtins. What glob finds in a directory is an argument, in any order. A syntax tree has
-- constructors for the nodes that the checker of sources tells apart and one for all others; it is an
-- argument, as are the lines of the source, and a text in it carries what it is parsed to as an expression.
--
-- Not modelled: the text of messages, format_usd, the bytes of files and of hashes, the parsing of
-- JSON and the printing of manifests, directories, what the command line prints, and the other tools.
mod Prelude
pub mod Errors
pub mod OperatingState
pub mod Fraction
pub mod Money
pub mod Ordering
pub mod Calendar
pub mod Time
pub mod Spec
pub mod Contracts
pub mod Decimal
pub mod Instrument
pub mod Arrow
pub mod Storage
pub mod Registry
pub mod Snapshot
pub mod Migrate
pub mod Determinism
pub mod Effects
pub mod Writer
pub mod Vendor
pub mod Reference
pub mod Normalize
pub mod Bars
pub mod Pipeline
pub mod BannedPatterns
pub mod Fingerprint
pub mod Seeds
pub mod Command
pub mod CanonicalJson
mod Examples
