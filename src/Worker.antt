-- ===== src/Worker.antt =====
-- The rules of src/lib/lightlight/alpaca-worker.server.ts that decide whether a decision is dispatched
-- and which minutes of market data are missing.
pub mod Safety
pub mod Gaps
pub mod Coverage
pub mod LiveGap
