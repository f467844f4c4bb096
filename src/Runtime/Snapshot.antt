-- ===== src/Runtime/Snapshot.antt =====
-- The constructor of `AlpacaPaperWorker`, with the fields that it sets, and `snapshot`.
use thelight.Common.{
  ℕ, String, str_eq, Bool, true, false, not, ◌&&◌, Option, none, some, List, [], length, map,
  if◌then◌else◌,
}
use thelight.Number.{Num}
use thelight.Types.{ExecutionStatus}
use thelight.Asset.{AssetSpec, bounded_equity_asset}
use thelight.Asset.Identity.{
  PaperWorkerArm, WorkerRuntimeIdentity, WorkerRuntimeCapability, dispatch_capable,
  read_only_durable, worker_runtime_identity_for,
}
use thelight.Broker.Execution.{BrokerPositionSnapshot}
use thelight.Store.Data.{RunState, stopped}
use thelight.Store.Checkpoint.{StreamState, disconnected, empty_checkpoint}
use thelight.Worker.Safety.{FeatureContinuity, RecoveryState}
use thelight.Runtime.World.{Result, ok, err, Worker, Setup}
use thelight.Runtime.Broker.{paper_equity_drawdown}
use thelight.Runtime.Decisions.{is_target_arm}

pub record AlpacaWorkerSnapshot (F : Type 0) : Type 0 where
  pub mode : String
  pub worker_state : RunState
  pub symbol : String
  pub worker_key : String
  pub runtime_capability : WorkerRuntimeCapability
  pub feed : String
  pub decision_timeframe : String
  pub latest_raw_bar_timestamp : Option ℕ
  pub latest_closed_decision_bar_timestamp : Option ℕ
  pub latest_decision_id : Option String
  pub strategy : String
  pub experiment_arm : String
  pub risk_state : Option String
  pub broker_position : Option F
  pub open_order_count : ℕ
  pub open_order_ids : List String
  pub latest_broker_order_state : Option ExecutionStatus
  pub last_trade_update_timestamp : Option ℕ
  pub last_reconciliation_timestamp : Option ℕ
  pub stream_state : StreamState
  pub market_stream_state : StreamState
  pub trade_update_stream_state : StreamState
  pub feature_continuity : FeatureContinuity
  pub recovery_state : RecoveryState
  pub recovery_attempt_id : Option String
  pub recovery_missing_start_ms : Option ℕ
  pub recovery_missing_end_ms : Option ℕ
  pub paper_equity : Option F
  pub paper_equity_high_water : Option F
  pub paper_equity_drawdown : Option F
  pub halt_reason : Option String
  pub missing_decision_buckets : ℕ

module _ {F : Type 0} where
  abbrev quantity_of : Option (BrokerPositionSnapshot F) → Option F
  quantity_of none = none
  quantity_of (some position) = some position.quantity

  -- The fields of a new object
  unfoldable pub new_worker : Worker F
  unfolding empty_checkpoint
  new_worker = record {
    worker_state = stopped;
    checkpoint = empty_checkpoint;
    market_stream = disconnected;
    trade_stream = disconnected;
    broker_position = none;
    open_orders = [];
    latest_order_state = none;
    last_trade_update = none;
    risk_state = none;
    missing_decision_buckets = 0;
    current_run = none;
    ownership = none;
    is_renewing = false;
    ownership_generation = 0;
    is_listening = false;
    is_consuming = false;
    market_reconnect_scheduled = false;
    market_reconnect_attempt = 0;
    trade_reconnect_scheduled = false;
    trade_reconnect_attempt = 0;
    trade_recovery_in_flight = false;
    reconnect_generation = 0;
    requires_high_water_recovery = false;
    is_stopped = false;
    recovering = none;
  }

abbrev needs_broker : WorkerRuntimeCapability → Bool
needs_broker dispatch_capable = true
needs_broker read_only_durable = false

-- The constructor after the choice of the asset
unfoldable pub checked_identity :
    String → PaperWorkerArm → Bool → AssetSpec → Result WorkerRuntimeIdentity
unfolding worker_runtime_identity_for
checked_identity symbol arm has_broker asset =
    let identity = worker_runtime_identity_for asset arm in
    if not (str_eq symbol asset.symbol)
    then err "ALPACA_WORKER_ASSET_CONFIG_MISMATCH"
    else if needs_broker identity.capability && not has_broker
    then err "DISPATCH_RUNTIME_BROKER_REQUIRED"
    else ok identity

-- The constructor: the identity of the worker, or the error. The text of `paperBaseUrl` and the symbol
-- are those of the configuration; the asset of the options comes before the one of the symbol.
unfoldable pub runtime_identity :
    (String → String)
    → String
    → String
    → PaperWorkerArm
    → Bool
    → Option AssetSpec
    → Result WorkerRuntimeIdentity
unfolding bounded_equity_asset checked_identity
runtime_identity to_upper base_url symbol arm has_broker asset =
    if not (str_eq base_url "https://paper-api.alpaca.markets")
    then err "LIVE_TRADING_FORBIDDEN"
    else elim asset [
      | some given ↦ checked_identity symbol arm has_broker given
      | none ↦ elim (bounded_equity_asset to_upper symbol) [
        | none ↦ err "UNCONFIGURED_US_EQUITY_SYMBOL"
        | some found ↦ checked_identity symbol arm has_broker found
      ]
    ]

module _ {F S : Type 0} ⦃num : Num F⦄ where
  -- The symbol of the configuration is the asset's, as the constructor has checked.
  unfoldable pub snapshot : Setup F S → String → Worker F → AlpacaWorkerSnapshot F
  snapshot env feed k = record {
    mode = "ALPACA_PAPER";
    worker_state = k.worker_state;
    symbol = env.asset.symbol;
    worker_key = env.identity.worker_key;
    runtime_capability = env.identity.capability;
    feed = feed;
    decision_timeframe = env.identity.decision_timeframe;
    latest_raw_bar_timestamp = k.checkpoint.latest_raw_bar_timestamp;
    latest_closed_decision_bar_timestamp = k.checkpoint.latest_closed_decision_bar_timestamp;
    latest_decision_id = k.checkpoint.latest_decision_id;
    strategy = if is_target_arm env.arm then "ema_rsi_v1" else "ema_trend";
    experiment_arm = if is_target_arm env.arm then "ema_rsi_v1" else "C";
    risk_state = k.risk_state;
    broker_position = quantity_of k.broker_position;
    open_order_count = length k.open_orders;
    open_order_ids = map (λ o. o.client_order_id) k.open_orders;
    latest_broker_order_state = k.latest_order_state;
    last_trade_update_timestamp = k.last_trade_update;
    last_reconciliation_timestamp = k.checkpoint.last_reconciliation_timestamp;
    stream_state = k.market_stream;
    market_stream_state = k.market_stream;
    trade_update_stream_state = k.trade_stream;
    feature_continuity = k.checkpoint.feature_continuity;
    recovery_state = k.checkpoint.recovery_state;
    recovery_attempt_id = k.checkpoint.recovery_attempt_id;
    recovery_missing_start_ms = k.checkpoint.recovery_missing_start_ms;
    recovery_missing_end_ms = k.checkpoint.recovery_missing_end_ms;
    paper_equity = k.checkpoint.last_paper_equity;
    paper_equity_high_water = k.checkpoint.paper_equity_high_water;
    paper_equity_drawdown = paper_equity_drawdown k;
    halt_reason = k.checkpoint.halt_reason;
    missing_decision_buckets = k.missing_decision_buckets;
  }
