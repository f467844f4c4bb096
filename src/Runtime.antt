-- ===== src/Runtime.antt =====
-- The class `AlpacaPaperWorker` of src/lib/lightlight/alpaca-worker.server.ts, one object at a time: a
-- method is an action on the worker's fields, the durable store and the broker, and what it wrote
-- stays written when it throws.
pub mod World
pub mod Actions
pub mod Ownership
pub mod Broker
pub mod Keeps
pub mod Advance
pub mod Stepping
pub mod Owned
pub mod Renewing
pub mod Sending
pub mod Dispatching
pub mod Reconciling
pub mod Decisions
pub mod Buckets
pub mod Bars
pub mod Recovery
pub mod Streams
pub mod Lifecycle
pub mod Snapshot
pub mod BarsKeep
pub mod EventsKeep
pub mod Authorized
pub mod Restart
pub mod Attempted
pub mod Backfilled
pub mod Contiguous
pub mod Aggregated
