-- ===== src/Store/Data.antt =====
-- The rows of the store and its state.
use thelight.Common.{ℕ, String, Option, List, Dict}
use thelight.Types.{ClosedBar, Evidence, ExecutionIntent}
use thelight.Order.{BrokerOrderState}

pub record WorkerLease : Type 0 where
  pub worker_key : String
  pub run_id : String
  pub fencing_token : ℕ
  pub lease_expires_at : ℕ

-- The states that the workers write for a run, and `SUPERSEDED`, which only the store writes.
pub data RunState : Type 0 where
  starting reconciling ready stopped halted superseded : RunState

pub record RunEvidence : Type 0 where
  pub worker_key : String
  pub state : RunState
  pub halt_reason : Option String
  pub stopped_at : Option ℕ
  pub superseded_by_run_id : Option String
  pub superseded_at : Option ℕ
  pub supersede_reason : Option String

-- The maps of the class that ownership is about.
pub record Ownership : Type 0 where
  pub leases : Dict WorkerLease
  pub runs : Dict RunEvidence
  pub run_transitions : List (String × RunState)

-- The scope of an intent operation.
pub record DurableWorkerScope : Type 0 where
  pub worker_key : String
  pub symbol : String

pub record StoredIntent : Type 0 where
  pub intent : ExecutionIntent
  pub dispatch_block_reason : Option String

-- The maps of the class that decisions, intents and broker orders are kept in. `posts` has the
-- latest observation first, which is the order in which the source searches it.
pub record Orders (F : Type 0) : Type 0 where
  pub decisions : Dict (Evidence F)
  pub decision_worker_keys : Dict String
  pub intents : Dict StoredIntent
  pub posts : List BrokerOrderState

pub data MarketBarOrigin : Type 0 where
  live_ws rest_backfill : MarketBarOrigin

pub record MarketBarObservation (F : Type 0) : Type 0 where
  pub symbol : String
  pub bar : ClosedBar F
  pub provider_event_timestamp_ms : ℕ
  pub observed_at : ℕ
  pub origin : MarketBarOrigin
  pub recovery_attempt_id : Option String

pub data MarketBarWriteResult : Type 0 where
  accepted_write identical conflict : MarketBarWriteResult

pub record Observed (F : Type 0) : Type 0 where
  pub observation : MarketBarObservation F
  pub verification_result : MarketBarWriteResult

-- The maps of the class that market evidence is kept in. The source's key `symbol:t` is the pair.
pub record MarketData (F : Type 0) : Type 0 where
  pub bars : List ((String × ℕ) × ClosedBar F)
  pub observations : List (Observed F)
