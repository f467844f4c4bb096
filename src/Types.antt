-- ===== src/Types.antt =====
-- The data of src/lib/lightlight/types.ts: bars, features, decisions, intents, fills, the replay
-- ledger and the evidence of a decision. `F` is the type of JavaScript numbers. Text is the native
-- `String`, a timestamp is a number of milliseconds, and `null` is `none`.
mod Market
mod Decision
mod Execution
mod Trail
mod Session
pub use Market.*
pub use Decision.*
pub use Execution.*
pub use Trail.*
pub use Session.*
