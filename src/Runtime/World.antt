-- ===== src/Runtime/World.antt =====
-- What a method of `AlpacaPaperWorker` reads and writes: the fields of the object, the store (the maps
-- of `MemoryAlpacaWorkerStore`), and what is outside of the process.
use thelight.Common.{ℕ, String, Bool, Option, List, Dict}
use thelight.Types.{ClosedBar, ExecutionIntent, ExecutionStatus}
use thelight.Order.{BrokerOrderState}
use thelight.Asset.{AssetSpec, WallClock}
use thelight.Asset.Identity.{PaperWorkerArm, WorkerRuntimeIdentity}
use thelight.Store.Data.{WorkerLease, RunState, Ownership, Orders, MarketData}
use thelight.Store.Checkpoint.{StreamState, WorkerCheckpoint, StoredCheckpoint, GapRecoveryAttempt}
use thelight.Broker.Execution.{BrokerPositionSnapshot}
use thelight.Broker.Reads.{BrokerAccountSnapshot, OpenBrokerOrder}
use thelight.Broker.Updates.{TradeUpdate}
use thelight.Worker.Gaps.{Gap}

-- A promise that is awaited: its value, or the message of the error.
pub data Result (A : Type 0) : Type 0 where
  ok : A → Result A
  err : String → Result A

-- The private fields of the class that change. The state of a worker is the text that it writes for
-- its run; `SUPERSEDED` is never one.
pub record Worker (F : Type 0) : Type 0 where
  pub worker_state : RunState
  pub checkpoint : WorkerCheckpoint F
  pub market_stream : StreamState
  pub trade_stream : StreamState
  pub broker_position : Option (BrokerPositionSnapshot F)
  pub open_orders : List OpenBrokerOrder
  pub latest_order_state : Option ExecutionStatus
  pub last_trade_update : Option ℕ
  pub risk_state : Option String
  pub missing_decision_buckets : ℕ
  pub current_run : Option String
  pub ownership : Option WorkerLease
  -- the interval timer of the renewal is set
  pub is_renewing : Bool
  pub ownership_generation : ℕ
  -- `disconnectTradeUpdates` is set
  pub is_listening : Bool
  pub is_consuming : Bool
  pub market_reconnect_scheduled : Bool
  pub market_reconnect_attempt : ℕ
  pub trade_reconnect_scheduled : Bool
  pub trade_reconnect_attempt : ℕ
  pub trade_recovery_in_flight : Bool
  pub reconnect_generation : ℕ
  pub requires_high_water_recovery : Bool
  pub is_stopped : Bool
  -- the variable `attempt` of `recoverGap`
  pub recovering : Option GapRecoveryAttempt

-- One POST: what was sent, and the store and the outside world when it was.
pub record Post (F S : Type 0) : Type 0 where
  pub intent : ExecutionIntent
  pub position : BrokerPositionSnapshot F
  pub lease : WorkerLease
  pub at : ℕ
  pub owners : Ownership
  pub orders : Orders F
  pub outside : S

-- `S` is the state of the broker and of the network.
pub record World (F S : Type 0) : Type 0 where
  pub worker : Worker F
  pub owners : Ownership
  pub orders : Orders F
  pub market : MarketData F
  pub checkpoints : Dict (StoredCheckpoint F)
  pub attempts : Dict GapRecoveryAttempt
  pub updates : List (TradeUpdate × Option String)
  pub outside : S
  -- the number of calls that were awaited outside of the store
  pub tick : ℕ
  -- every POST of this process, the latest first
  pub submitted : List (Post F S)

-- The interface `WorkerBroker`
pub record WorkerBroker (F S : Type 0) : Type 0 where
  pub account : S → Result (BrokerAccountSnapshot F) × S
  pub position : S → Result (BrokerPositionSnapshot F) × S
  pub open_orders : S → Result (List OpenBrokerOrder) × S
  pub reconcile : ExecutionIntent → S → Result BrokerOrderState × S
  pub submit : ExecutionIntent → BrokerPositionSnapshot F → S → Result BrokerOrderState × S

-- The options of the worker and its surroundings. `clock` is the time after so many awaited calls and
-- `others` what the other processes did to the runs and leases in the meantime; they do not write
-- the intents of this worker while one of its methods runs.
pub record Setup (F S : Type 0) : Type 0 where
  pub asset : AssetSpec
  pub arm : PaperWorkerArm
  pub identity : WorkerRuntimeIdentity
  pub broker : WorkerBroker F S
  pub durable : Bool
  pub has_source : Bool
  pub has_trade_updates : Bool
  -- `isRegularSession`, a test's veto on dispatch
  pub session_override : Option (ℕ → Bool)
  -- the kind of a transport error, `UNKNOWN_FAILURE` for any other error
  pub failure_kind : String → String
  pub historical_bars : Gap → S → Result (List (ClosedBar F)) × S
  -- `sha256(...).digest("hex").slice(0, 32)`
  pub hash : String → String
  -- `randomUUID()` after so many awaited calls
  pub uuid : ℕ → String
  pub new_york : ℕ → WallClock
  -- the New York date
  pub day : ℕ → String
  -- the text of a number
  pub show : ℕ → String
  -- `Number(x.toFixed(n))`, and the text of `Math.round(x)`
  pub fixed : F → ℕ → F
  pub rounded : F → String
  pub clock : ℕ → ℕ
  pub others : ℕ → Ownership → Ownership
