-- ===== src/Store.antt =====
-- The durable store of the workers, src/lib/lightlight/alpaca-worker-store.server.ts. Its in-memory
-- class is the executable form of the contract `AlpacaWorkerStore`; the SQL class runs statements of
-- a database that is not code of the repository. `Date.now()` is an argument, and the ISO texts
-- that the store writes and reads back by `Date.parse` are milliseconds.
pub mod Data
pub mod Leases
pub mod Trace
pub mod Fencing
pub mod Runs
pub mod Intents
pub mod Dispatch
pub mod Claims
pub mod Projection
pub mod Bars
pub mod Immutable
pub mod Authority
pub mod Checkpoint
