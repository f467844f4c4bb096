-- ===== src/Tests/Runtime.antt =====
-- A worker that starts with a pending intent, against a broker that accepts its order.
use thelight.Common.{
  ℕ, ◌+◌, ◌≤◌, ◌≡◌, refl, ◌⊎◌, true, false, none, some, List, [], ◌∷◌, All, arith, lookup, or_else,
}
use thelight.Common.Int.{ℤ, pos, negsuc}
use thelight.Number.{◌+F◌, int}
use thelight.Types.{pending, ExecutionStatus, submission_attempted, ClosedBar}
use thelight.Order.{BrokerOrderState, absent}
use thelight.Asset.{spy_spec}
use thelight.Asset.Identity.{ema_rsi_v1, ema_trend_arm_c, dispatch_capable}
use thelight.Store.Data.{StoredIntent, stopped, ready}
use thelight.Store.Leases.{renew_ownership}
use thelight.Store.Bars.{bar_at}
use thelight.Store.Checkpoint.{disconnected, write_checkpoint_owned}
use thelight.Market.{bucket_start, aggregate_closed_bars}
use thelight.Worker.Gaps.{gap}
use thelight.Broker.Execution.{BrokerPositionSnapshot}
use thelight.Runtime.World.{ok, err, Worker, World, WorkerBroker, Setup}
use thelight.Runtime.Lifecycle.{
  live, start_called, stop_called, reconcile_called, renewal_due, restored, lacks_high_water,
}
use thelight.Runtime.Broker.{reconcile_intent}
use thelight.Runtime.Bars.{scan_of, session_open}
use thelight.Runtime.Buckets.{decision_bar, merge_slots}
use thelight.Runtime.Recovery.{
  expected_minutes, minutes_from, distinct_minutes, is_complete, store_backfill,
}
use thelight.Runtime.Contiguous.{IsRun, decision_run_contiguous}
use thelight.Runtime.Aggregated.{decision_bar_is_aggregate}
use thelight.Runtime.Attempted.{attempted_never_resent}
use thelight.Runtime.Restart.{checkpoint_round_trip}
use thelight.Runtime.Backfilled.{Contradicts, IsStored, backfill_completes}
use thelight.Runtime.Advance.{IsOrdered, IsAuthorized, LeaseKept, Rises}
use thelight.Runtime.Authorized.{orders-IsAuthorized, fenced_worker_inert, safeguards_never_loosen}
use thelight.Worker.Safety.{continuity_rebuilding, recovery_healthy}
use thelight.Tests.Numbers.{thousandths}
use thelight.Tests.Sample.{lease_of, two_runs, intent_in, bar, one_order, report}

-- What the broker says of an intent that it has no order of.
abbrev not_there : BrokerOrderState
not_there = record (report pending) { broker_order_id = none; lookup_state = absent }

abbrev flat_position : BrokerPositionSnapshot ℤ
flat_position = record {
  symbol = "SPY";
  quantity = pos 0;
  reconciled_at = 0;
  provenance = "ALPACA_RECONCILED";
}

abbrev paper_broker : WorkerBroker ℤ (Unit {0})
paper_broker = record {
  account = λ s. (
    ok (record { equity = pos 100000; reconciled_at = 0; provenance = "ALPACA_PAPER_ACCOUNT" }),
    s,
  );
  position = λ s. (ok flat_position, s);
  open_orders = λ s. (ok [], s);
  reconcile = λ intent s. (ok not_there, s);
  submit = λ intent position s. (ok (report ExecutionStatus.accepted), s);
}

-- The other processes leave the leases alone, and the clock is a second further at each awaited call.
abbrev pub setup : Setup ℤ (Unit {0})
setup = record {
  asset = spy_spec;
  arm = ema_trend_arm_c;
  identity = record {
    asset = spy_spec;
    decision_timeframe = "15Min";
    worker_version = "v";
    worker_key = "w";
    capability = dispatch_capable;
  };
  broker = paper_broker;
  durable = true;
  has_source = true;
  has_trade_updates = true;
  session_override = none;
  failure_kind = λ e. "UNKNOWN_FAILURE";
  historical_bars = λ g s. (ok [], s);
  hash = λ text. text;
  uuid = λ n. "run";
  new_york = λ t. record { weekday = "Mon"; hour = 10; minute = 0 };
  day = λ t. "2025-01-06";
  show = λ n. "";
  fixed = λ x n. x;
  rounded = λ x. "";
  clock = λ n. 1000000 + n;
  others = λ n owners. owners;
}

abbrev pub idle_worker : Worker ℤ
idle_worker = record {
  worker_state = stopped;
  checkpoint = record {
    latest_raw_bar_timestamp = none;
    latest_closed_decision_bar_timestamp = none;
    latest_decision_id = none;
    last_reconciliation_timestamp = none;
    stream_state = disconnected;
    market_stream_state = disconnected;
    trade_update_stream_state = disconnected;
    feature_continuity = continuity_rebuilding;
    recovery_state = recovery_healthy;
    recovery_attempt_id = none;
    recovery_missing_start_ms = none;
    recovery_missing_end_ms = none;
    recovery_completed_at = none;
    recovery_dispatch_not_before_bucket_ms = none;
    paper_equity_high_water = none;
    last_paper_equity = none;
    prior_risk_approved_target = none;
    halt_reason = none;
  };
  market_stream = disconnected;
  trade_stream = disconnected;
  broker_position = none;
  open_orders = [];
  latest_order_state = none;
  last_trade_update = none;
  risk_state = none;
  missing_decision_buckets = 0;
  current_run = none;
  ownership = none;
  is_renewing = false;
  ownership_generation = 0;
  is_listening = false;
  is_consuming = false;
  market_reconnect_scheduled = false;
  market_reconnect_attempt = 0;
  trade_reconnect_scheduled = false;
  trade_reconnect_attempt = 0;
  trade_recovery_in_flight = false;
  reconnect_generation = 0;
  requires_high_water_recovery = false;
  is_stopped = false;
  recovering = none;
}

-- The store has one pending intent, and nobody owns the worker.
abbrev pub world : World ℤ (Unit {0})
world = record {
  worker = idle_worker;
  owners = record { leases = []; runs = []; run_transitions = [] };
  orders = one_order;
  market = record { bars = []; observations = [] };
  checkpoints = [];
  attempts = [];
  updates = [];
  outside = tt;
  tick = 0;
  submitted = [];
}

ordered : IsOrdered ℤ
ordered = record { lt_trans = λ x y z h h'. ground (arith, h, h') }

orders-IsAuthorized_example :
    All
      (IsAuthorized setup)
      (live setup (start_called ∷ reconcile_called ∷ stop_called ∷ []) world).submitted
orders-IsAuthorized_example =
    orders-IsAuthorized setup ordered (start_called ∷ reconcile_called ∷ stop_called ∷ []) world
      refl

-- Under a lease, with a peak of the equity and a barrier
abbrev holding : World ℤ (Unit {0})
holding = record world {
  worker = record idle_worker {
    worker_state = ready;
    current_run = some "r1";
    ownership = some (lease_of "r1" 1 2000000);
    checkpoint = record idle_worker.checkpoint {
      paper_equity_high_water = some (pos 200000);
      recovery_dispatch_not_before_bucket_ms = some 900000;
    };
  };
  owners = record two_runs { leases = ("w", lease_of "r1" 1 2000000) ∷ [] };
}

fenced_worker_inert_example :
    ((live setup (reconcile_called ∷ stop_called ∷ []) world).worker.ownership ≡ none)
    × ((live setup (reconcile_called ∷ stop_called ∷ []) world).submitted ≡ [])
    × ((live setup (reconcile_called ∷ stop_called ∷ []) world).checkpoints ≡ [])
    × ((false ≡ false)
        ⊎ ((live setup (reconcile_called ∷ stop_called ∷ []) world).worker.is_stopped ≡ true))
fenced_worker_inert_example =
    fenced_worker_inert setup ordered (reconcile_called ∷ stop_called ∷ []) world (refl, (refl, tt))
      refl

safeguards_never_loosen_example :
    let k' = (live setup (reconcile_called ∷ renewal_due 0 ∷ []) holding).worker in
    LeaseKept (some (lease_of "r1" 1 2000000)) k'.ownership
    × Rises (some (pos 200000)) k'.checkpoint.paper_equity_high_water
    × (900000 ≤ or_else k'.checkpoint.recovery_dispatch_not_before_bucket_ms 0)
safeguards_never_loosen_example =
    safeguards_never_loosen setup ordered (reconcile_called ∷ renewal_due 0 ∷ []) holding
      (refl, (refl, tt))

-- The one-minute arm
abbrev minute_setup : Setup ℤ (Unit {0})
minute_setup = record setup { arm = ema_rsi_v1 }

abbrev minute_bar : ℕ → ClosedBar ℤ
minute_bar t = record bar { t = t }

abbrev two_minutes : List (ClosedBar ℤ)
two_minutes = minute_bar 60000 ∷ minute_bar 120000 ∷ []

decision_run_contiguous_example :
    IsRun 60000 (scan_of minute_setup two_minutes).trailing
    × All (λ b. session_open minute_setup b.t ≡ true) (scan_of minute_setup two_minutes).trailing
decision_run_contiguous_example = decision_run_contiguous minute_setup two_minutes

zero_add : (x : ℤ) → (int 0 +F x) ≡ x
zero_add (pos n) = ground arith
zero_add (negsuc n) = ground arith

decision_bar_is_aggregate_example :
    aggregate_closed_bars 15 (minute_bar 900000 ∷ minute_bar 960000 ∷ minute_bar 1800000 ∷ [])
    ≡ some (record bar { t = 900000; volume = pos 10000 } ∷ [])
unfolding bucket_start decision_bar merge_slots
decision_bar_is_aggregate_example =
    decision_bar_is_aggregate 15 900000 (minute_bar 900000) (minute_bar 1800000)
      (record bar { t = 900000; volume = pos 10000 }) (minute_bar 960000 ∷ []) refl (omega arith)
      (refl, (refl, tt)) (omega arith) refl

-- An intent of an earlier process, whose order the broker does not know
abbrev attempted_intent : StoredIntent
attempted_intent = record { intent = intent_in submission_attempted; dispatch_block_reason = none }

attempted_never_resent_example :
    ((reconcile_intent setup attempted_intent world).1.submitted ≡ [])
    × ((true ≡ false)
        ⊎ (((reconcile_intent setup attempted_intent world).0
              ≡ err "SUBMISSION_ATTEMPTED_RECOVERY_REQUIRED")
            × ((reconcile_intent setup attempted_intent world).1.orders ≡ one_order)))
attempted_never_resent_example =
    attempted_never_resent setup attempted_intent world not_there tt refl refl refl

checkpoint_round_trip_example :
    let c = holding.worker.checkpoint in
    let row = lookup "w" (write_checkpoint_owned 20000 (lease_of "r1" 1 31000) c two_runs []).2 in
    (restored row ≡ c) × (lacks_high_water row ≡ false)
unfolding write_checkpoint_owned renew_ownership lookup
checkpoint_round_trip_example =
    checkpoint_round_trip 20000 (lease_of "r1" 1 31000) holding.worker.checkpoint two_runs [] refl
      refl tt

backfill_completes_example :
    let (result, w') =
      store_backfill setup "a" 7 two_minutes (expected_minutes (gap 60000 180000)) world in
    (((result ≡ ok true) × Contradicts setup two_minutes w')
      ⊎ ((result ≡ ok false)
          × All (IsStored setup two_minutes w') (expected_minutes (gap 60000 180000))))
    × ((bar_at ("SPY", 60000) world.market.bars ≡ none)
        ⊎ (bar_at ("SPY", 60000) w'.market.bars ≡ bar_at ("SPY", 60000) world.market.bars))
unfolding is_complete distinct_minutes minutes_from
backfill_completes_example =
    backfill_completes setup two_minutes (gap 60000 180000) "a" 7 world 60000 refl
