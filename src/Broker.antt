-- ===== src/Broker.antt =====
-- The PAPER broker port of src/lib/lightlight/alpaca.server.ts. The HTTP service is not code of the
-- repository: every call takes the reply that it would get, and returns the orders that it posts.
pub mod Reply
pub mod Execution
pub mod Reads
pub mod Updates
pub mod Announced
pub mod Submission
