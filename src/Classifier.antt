-- ===== src/Classifier.antt =====
-- src/lib/lightlight/jev.ts: the request that a classifier gets, and the deterministic stand-in that
-- answers it.
pub mod Request
pub mod Mock
