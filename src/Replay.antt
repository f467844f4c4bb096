-- ===== src/Replay.antt =====
-- The replay's accounting, src/lib/lightlight/execution.ts: `ReplayExecution` with its bars, intents,
-- fills, transitions and equity points.
pub mod Ledger
pub mod Settle
pub mod Chain
pub mod Bounds
