-- ===== src/Lib.antt =====
-- A verification library of financial-wallet, a Go service that keeps accounts and an append-only
-- ledger of statements in PostgreSQL.
--
-- The program. internal/domain holds the entities and value objects. The use cases of
-- internal/usecases check a request and call the repositories of
-- internal/infrastructure/db/postgres/repository, which read a replica and write the primary. A
-- statement is posted by CreateUseCase, as a reversal by ReverseUseCase, or in a batch by
-- ImportUseCase from an OFX file; StatementRepository.Create and CreateBatch lock the account, compute
-- its new balance, insert the rows and write the balance in one transaction.
--
-- The files.
--   Prelude, Int64, Text: native numbers, integers, lists, int64 with its wrap-around, and Go strings
--     as lists of bytes.
--   Result: the sentinel errors of the program as values, and chains of steps that stop at an error.
--   Libs, Ids: what is taken from libraries, and pkg/vo/id.go.
--   Domain: Statement (internal/domain/statement), Account (internal/domain/account), Labels
--     (internal/domain/category and tag), Paging (the page filters), Pages (their bounds).
--   Schema: the tables of internal/infrastructure/db/postgres/migration with the constraints that
--     inserts are checked against. The newest statement stands in front. Commit and Inserts are about
--     transactions and about an INSERT of several rows.
--   StatementRepo: repository/statement.go. `create` and `create_batch` are Create and CreateBatch;
--     Reads is FindByID, Labels is UpdateCategory, ReplaceTags and CountByCategory. Rows, Ledger,
--     Posted, Balance, References, Relabel, Unique and External hold what these leave of the tables; Setting, Plain and Batch
--     compare CreateBatch with Create, and Failing a call that meets failures with one that meets none.
--   AccountRepo, Readers: repository/account.go, and the reads of category.go and tag.go by id.
--   LabelRepo: the writes and lists of category.go and tag.go. `save_category` and `save_tag` are
--     Update. Frame and Keys hold what the statements of SQL leave of the two tables.
--   Usecases: internal/usecases/statement. Metadata is metadata.go; Create, Reverse, Import and Update
--     are Execute of create.go, reverse.go, import.go, and of get.go, update_category.go and
--     replace_tags.go. Steps, Filter, Checks and Persisted say what a request that succeeded has
--     passed; Ledger, Posting, Reading, Denial and Dedup are about whole use cases.
--   Accounts: internal/usecases/account (create.go, get.go, update.go, delete.go).
--   LabelUsecases: internal/usecases/category and tag (create.go, update.go, delete.go, list.go of
--     each), with Guards on who may change what.
--   Wallet: the use cases that write, as the steps of a relation on the primary, and what holds
--     however many were taken: Labels, LabelSteps and Accounts per use case, Invariant and Unique over
--     all of them, Reversal, Settled, Import, Again, Lifecycle, Reopening and Labelling. Writes is the
--     relation of single statements of SQL; Sequences, Singles and Refines take the requests apart
--     into these; References, Foreign, Integrity and Keeps argue about one statement of SQL at a time.
--   Idempotency: pkg/idempotency and the middleware idempotency.go. `admit` is the middleware up to the
--     handler, `settle` what follows it, `serve` the whole. Lookup, Replay and Locks are about it;
--     System lets handlers run at the same time.
--   Access: the tables of roles (repository/role.go) and the cache of permissions; Roles is
--     internal/usecases/role, Middleware is jwt.go and authorization.go. Steps lets
--     loads and changes of roles follow each other; Cache, Loads, Changes, Coherence, Guard
--     and Stale are about what they leave and let through. The calls of the role tables and of Redis
--     that fail are taken to fail before they take effect.
--   Ofx: Amount is pkg/ofx/amount.go, with strconv.ParseInt; Decimal, Roundtrip and Limit are about
--     amounts with two decimal places. Date is date.go; Sgml and Parse are parser.go before and
--     after the decoding of XML. Split is about the cut between header and body.
--   Tests: concrete data and runs.
--
-- How state and failure are modelled. A write takes the primary and gives it back beside its result;
-- an error inside a transaction rolls it back, and its commit, or a statement that commits by itself,
-- may take effect while its answer is lost: the caller then gets an error and the write stays. A record
-- of faults says which calls of the database fail or go unanswered in a run, and reads take the
-- replica as an argument of its own, so it may be as stale as one likes. Two requests at a time are
-- serialised by the lock on the account's row (SELECT ... FOR UPDATE) and by the unique indexes, so a
-- run is a sequence of steps; what a request read before its write is the replica of its step, and
-- HasReversal and FindExternalIDs are taken to read the primary of the step, on which the indexes
-- decide again. The clock, the identifiers that NewID draws and the parsed OFX file are arguments. The
-- lengths of columns are checked for statements; those of names are bounded by the
-- bindings of the web layer. Every loop of the
-- program is over a list and needs no fuel.
--
-- Libraries. Whether google/uuid accepts a text, the text that PostgreSQL gives back for a uuid, the
-- order of an aggregate or a list by collation, LOWER and time.Parse are fields of Libs, and the
-- floating point of ParseAmount is a record Floats, the reading of dates of date.go a record Times,
-- and the decoding of encoding/xml an argument of Parse; nothing is assumed about them.
--
-- Not modelled: the List methods and use cases of accounts and statements with their cursors, users
-- and the login, the decoding of XML and the reading of dates by package time in the OFX parser,
-- rate limits, the web layer, configuration, telemetry and generated code.
pub mod Prelude
pub mod Int64
pub mod Text
pub mod Result
pub mod Domain
pub mod Libs
pub mod Ids
pub mod Schema
pub mod StatementRepo
pub mod Readers
pub mod Usecases
pub mod AccountRepo
pub mod Accounts
pub mod Wallet
pub mod Tests
pub mod LabelRepo
pub mod LabelUsecases
pub mod Ofx
pub mod Idempotency
pub mod Access
