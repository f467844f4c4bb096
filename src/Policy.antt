-- ===== src/Policy.antt =====
-- src/lib/lightlight/policy.ts with src/lib/lightlight/thresholds.ts: from features to a risk-approved
-- target. The numbers are the parameter of Number.antt.
pub mod Signals
pub mod Gate
pub mod Evaluate
pub mod Risk
pub mod Entry
