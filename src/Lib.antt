-- ===== src/Lib.antt =====
-- The arkade-taxi service: an operator lends receivers the dust unit that carries a sub-dust payment,
-- in a covenant output, and is repaid when the receiver claims it.
--
-- The program's parts and how they meet:
-- - packages/core decides: `admit` (admission.ts) prices a quote with the operator's rules (fares.ts)
--   against what is at risk (`computeExposure`, exposure.ts) and what is owed (`assessSolvency`,
--   solvency.ts); an advance then moves through the states of ledger.ts until it is claimed, refunded
--   or swept (`sweepable`).
-- - packages/covenant says which parameters make a covenant (params.ts).
-- - packages/db keeps the advances (advances.ts): a row each, which the workers that submit a lockup,
--   reclaim it and watch its spend move on by compare-and-set updates; the queries over them compute
--   what packages/core computes on advances. It also keeps what is owed after an advance was reclaimed:
--   a row per receiver, to be released or written off, and the coins that a release in flight spends
--   (custody.ts). The observation that settles a reclaim opens that row and frees the operator's coins. A quote
--   takes its place under the limits and its coins before it is signed (reservations.ts), in the same
--   database as the coins of the receive quotes, the proceeds jobs and the fills. A proceeds job settles
--   the operator's coins, one job at a time (proceeds.ts).
-- - packages/protocol carries covenant parameters, fares and sponsored sends as JSON (codec.ts).
--
-- Files:
-- - Prelude: shared names. Prelude/Tests (Boolean tests), Prelude/Lists (lists, strings as code units,
--   byte arrays), Prelude/Results (calls that return or throw), Prelude/Int (`bigint`, JavaScript
--   numbers), Prelude/Decimal and Prelude/Hex (the two spellings that the codecs use).
-- - Core/Types, Core/Submission: the records of packages/core/src/types.ts, and the covenant's parameters.
-- - Core/Fares with Keys, Rules, Pricing, Claims: packages/core/src/fares.ts.
-- - Core/Ledger with Snapshot, Lifecycle: packages/core/src/ledger.ts.
-- - Core/Exposure with Totals, Oldest, Sorting, Due, Order, Sweep: packages/core/src/exposure.ts.
-- - Core/Solvency with Cover: packages/core/src/solvency.ts.
-- - Core/Admission with Limits, Decision: packages/core/src/admission.ts.
-- - Covenant/Params with Validity: packages/covenant/src/params.ts.
-- - Protocol/Json, Protocol/Codec with RoundTrip, QuoteParams, and Protocol/Sponsored, Protocol/Funding,
--   Protocol/Spend with RoundTrip: packages/protocol/src/codec.ts.
-- - Database/Rows, Database/Records, and Database/Custody with Steps, Settled, Coins, Claims:
--   packages/db/src/custody.ts, with the tables of packages/db/src/schema.ts.
-- - Database/Keyed: tables with a primary key.
-- - Database/Advances: packages/db/src/advances.ts. Its columns; Writing (`toParams`), Fields and Reading
--   (`fromRow`), with RoundTrip and Inversion; Store (the tables and the statement forms), Submission,
--   Recovery, Lockup, Messages, Observation and Stable (the operations), Commands (the operations as
--   commands); Moves and RowMoves (what a statement makes of a row), Tables and Execution (what an
--   operation makes of the table), History and Fates (what becomes of a row); Liability and Settlement
--   (`recordSpendObservation`), Leases; Views (the queries) with Mirrors and Due.
-- - Database/Reservations with Reserving (`reserveQuote`), Locking (`claimLockup` and the calls that let
--   coins go), Claims (what a new claim found and left), Caps and Coins:
--   packages/db/src/reservations.ts.
-- - Database/Proceeds with Jobs (how a job is created and ended), Calls (what each call makes of the
--   jobs), Submitted, Single and Coins: packages/db/src/proceeds.ts.
-- - Database/Fills: what packages/db/src/fills.ts writes to the advances. App/Sweeper: the mark that
--   packages/app/src/sweeper.ts sets on one.
-- - Database/Writers: every call that writes to the table of the advances, whichever file it stands in, as
--   commands; Moved, ReadBack and Marked (what each makes of the table), Fates (sequences of them) and Once (a quote
--   is claimed once).
-- - Core/Tests, Covenant/Tests, Protocol/Tests, Database/Tests, Database/Advances/Tests,
--   Database/Reservations/Tests, Database/Proceeds/Tests, Database/Writers/Tests: the theorems at
--   concrete values.
--
-- Correspondence: a TypeScript function `fooBar` is `foo_bar` here, a field or a constructor likewise.
-- A `bigint` is a signed integer without bound, as in the source; a count or a time is a natural
-- number; a number that the code checks itself is a `Number`, which may be no integer at all. A string
-- is the list of its UTF-16 code units, a `Uint8Array` a list of numbers, each a byte where a theorem
-- says so. An optional field is an `Option`. A call that throws or refuses returns `err` with what the
-- message says, and the label that the message names is left out. The `typeof` tests that the types
-- already grant are left out; those of the codecs, whose argument is any JSON value, are kept.
-- The custody tables are lists, and each SQL statement of custody.ts is the function that it denotes, with
-- the primary keys and the checks of the schema; a transaction is one step, and one that throws changes
-- nothing. `Step` is one successful operation and `Run` any sequence of them by any workers.
-- A row of `advances` is a record whose columns of the submission, of the recovery and of the observation
-- are three records in it; a JSON column holds the value of its text, or is malformed. A call of the
-- store is a function from the tables to an answer and the tables, with `Date.now()` as an argument, and
-- `execute` and `perform` run it as a command; `perform_all` runs a sequence of them, in the order in which
-- SQLite admits them.
-- `update` overwrites a row by what its caller read. Its one use in the program is the mark that the sweeper
-- sets, which reads the row and writes it back with nothing in between; `Write` has that use as `marks`,
-- beside the commands of the repository and the writes of reservations.ts and fills.ts. Integers beyond 64
-- bits, and the CHECKs of the table `advances`, are left out. `Desk` is the store of the advances with what
-- reservations.ts reads of the receive quotes and of the coins that proceeds jobs and fills hold.
-- Each loop runs over a list and is recursion on it. The decimal spelling of a number is recursion on
-- fuel, one more than the number, and a number has no more digits than that. A stable sort is an
-- insertion sort with the code's own comparator.
--
-- Not under the repository and so parameters: the Bitcoin library's test of a public key and the SDK's
-- encoding of a timelock, arguments of `validate_params`.
--
-- Not modelled: the HTTP service and its adapters (packages/app, but for the sweeper's mark), the client
-- (packages/client), the stores of the receive quotes and of the fills (but for what fills write to the
-- advances), the policy's own store and the migrations (packages/db), `byReceiverKeys` of advances.ts and
-- the listings of custody.ts, and the script artifacts of packages/covenant. Core/Types leaves the fields
-- of `SubmissionState` out of `Advance`, since packages/core neither reads nor writes them; `StoredAdvance`
-- has both.
pub mod Prelude
pub mod Core
pub mod Covenant
pub mod Protocol
pub mod Database
pub mod App
