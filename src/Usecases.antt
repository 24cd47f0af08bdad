-- ===== src/Usecases.antt =====
-- internal/usecases/statement: the use cases over statements. Each takes the replica, on which most
-- reads run, and the primary, which it writes and gives back. `uuid` is the identifier that NewID
-- draws in the run, `now` the clock. Logs and traces are left out, and times are kept as values where
-- an output formats them.
pub mod Metadata
pub mod Output
pub mod Create
pub mod Reverse
pub mod Import
pub mod Update
pub mod Steps
pub mod Filter
pub mod Persisted
pub mod Checks
pub mod Posting
pub mod Denial
pub mod Reading
pub mod Dedup
pub mod Ledger
