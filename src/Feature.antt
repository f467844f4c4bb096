-- ===== src/Feature.antt =====
-- src/lib/lightlight/features.ts and the strategy of src/lib/lightlight/ema-rsi-v1.ts. The source fills
-- arrays by index; here each series is computed from left to right with what the index looks back at.
pub mod Series
pub mod Vector
pub mod Warmup
pub mod EmaRsi
