-- ===== src/Tests/Sample.antt =====
-- A worker with two runs, a decision with its intent, and a bar.
use thelight.Common.{ℕ, String, true, false, none, some, [], ◌∷◌}
use thelight.Common.Int.{ℤ, pos}
use thelight.Types.{
  Candle, FeatureVector, RiskEvaluation, Evidence, alpaca_paper, long, ExecutionIntent,
  ExecutionStatus, pending, alpaca_paper_model,
}
use thelight.Order.{BrokerOrderState, found}
use thelight.Store.Data.{WorkerLease, ready, starting, Ownership, DurableWorkerScope, Orders}
use thelight.Store.Leases.{new_run}

abbrev pub lease_of : String → ℕ → ℕ → WorkerLease
lease_of run token expires = record {
  worker_key = "w";
  run_id = run;
  fencing_token = token;
  lease_expires_at = expires;
}

-- Two runs of a worker; the first holds a lease until 31000.
abbrev pub two_runs : Ownership
two_runs = record {
  leases = ("w", lease_of "r1" 1 31000) ∷ [];
  runs = ("r1", new_run "w" ready) ∷ ("r2", new_run "w" starting) ∷ [];
  run_transitions = [];
}

abbrev pub scope : DurableWorkerScope
scope = record { worker_key = "w"; symbol = "SPY" }

abbrev pub intent_in : ExecutionStatus → ExecutionIntent
intent_in status = record {
  intent_id = "d:intent";
  decision_id = "d";
  created_at_bar = 3;
  created_at_timestamp = 900000;
  desired_action = long;
  desired_position = pos 1;
  status = status;
  execution_model = alpaca_paper_model;
  client_order_id = some "llp-d";
}

abbrev pub bar : Candle ℤ
bar = record {
  t = 900000;
  open_price = pos 100000;
  high = pos 102000;
  low = pos 99000;
  close = pos 101000;
  volume = pos 5000;
}

abbrev pub features : FeatureVector ℤ
features = record {
  bar_index = 3;
  timestamp = 900000;
  close = pos 101000;
  volume = pos 5000;
  log_return = pos 1;
  normalized_return = pos 1;
  ema_return_signal = pos 20;
  ema_price = pos 100000;
  displacement_from_ema = pos 1000;
  displacement_z = pos 500;
  rsi14 = pos 55000;
  realized_vol = pos 10;
  drawdown = pos 20;
  warmup_complete = true;
}

abbrev pub risk : RiskEvaluation ℤ
risk = record {
  version = "sprint0.1";
  pass = true;
  target = long;
  reasons = [];
  max_position = 1;
  realized_vol = pos 10;
  drawdown = pos 20;
  equity_drawdown = pos 0;
}

abbrev pub evidence : Evidence ℤ
evidence = record {
  id = "d";
  timestamp = 900000;
  bar_index = 3;
  symbol = "SPY";
  timeframe = "15Min";
  trading_mode = alpaca_paper;
  market_snapshot = bar;
  features = features;
  strategy_id = "ema_trend";
  strategy_version = "sprint0.1";
  research_refs = [];
  deterministic_signal = none;
  deterministic_regime = none;
  jev_request = none;
  jev_response = none;
  policy = none;
  risk = risk;
  action = long;
  target_position = pos 1;
  abstained = false;
  strategy_decision = none;
}

abbrev pub no_orders : Orders ℤ
no_orders = record { decisions = []; decision_worker_keys = []; intents = []; posts = [] }

-- The decision and its intent are stored.
abbrev pub one_order : Orders ℤ
one_order = record {
  decisions = ("d", evidence) ∷ [];
  decision_worker_keys = ("d", "w") ∷ [];
  intents = ("d:intent", record { intent = intent_in pending; dispatch_block_reason = none }) ∷ [];
  posts = [];
}

-- The broker reports the order in this status.
abbrev pub report : ExecutionStatus → BrokerOrderState
report status = record {
  decision_id = "d";
  intent_id = "d:intent";
  client_order_id = "llp-d";
  broker_order_id = some "b1";
  status = status;
  updated_at = none;
  raw_status = none;
  lookup_state = found;
}
