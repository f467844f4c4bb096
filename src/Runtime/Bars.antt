-- ===== src/Runtime/Bars.antt =====
-- `processCompletedDecisionBars`: decision bars become decisions, intents and dispatches.
use thelight.Common.{
  ℕ, ◌+◌, ◌-◌, ◌*◌, suc, String, str_eq, ◌<>◌, Bool, true, false, ◌&&◌, ◌||◌, not, Option, none,
  some, List, [], ◌∷◌, ◌==◌, ltb, or_else, is_some, last?, if◌then◌else◌,
}
use thelight.Number.{Num}
use thelight.Types.{
  ClosedBar, Evidence, FeatureVector, ExecutionIntent, pending, cancelled, alpaca_paper_model,
}
use thelight.Asset.{is_market_session_open}
use thelight.Asset.Identity.{PaperWorkerArm, ema_rsi_v1, ema_trend_arm_c}
use thelight.Feature.Vector.{compute_features}
use thelight.Market.{bucket_start}
use thelight.Store.Data.{ready}
use thelight.Store.Bars.{latest_closed_bar_timestamp, list_closed_bars}
use thelight.Store.Intents.{persist_decision_and_intent}
use thelight.Worker.Safety.{
  continuity_healthy, continuity_rebuilding, RecoveryState, recovery_healthy, rebuilding,
  dispatch_block_reason_for,
}
use thelight.Runtime.World.{Result, ok, err, Worker, World, Setup}
use thelight.Runtime.Actions.{
  Action, Method, ◌>>=◌, ◌>>◌, pure, raise, skip, gets, set, catching, if_null, when, now,
}
use thelight.Runtime.Ownership.{is_in, persist_checkpoint, halt}
use thelight.Runtime.Broker.{may_reach_broker, is_live_bar_stale, dispatch, is_empty}
use thelight.Runtime.Decisions.{
  is_target_arm, target_of_action, deterministic_decision_id, deterministic_client_order_id,
  decision_evidence,
}
use thelight.Runtime.Buckets.{Scan, buckets_from, sort_buckets, scan_buckets}

-- `decisionWidthMs` and `featureDecisionObservations`
abbrev pub decision_width_ms : PaperWorkerArm → ℕ
decision_width_ms ema_rsi_v1 = 60000
decision_width_ms ema_trend_arm_c = 900000

abbrev pub feature_decision_observations : ℕ
feature_decision_observations = 21

abbrev is_other : Option ℕ → ℕ → Bool
is_other none t = false
is_other (some s) t = not (t == s)

abbrev is_before : Option ℕ → ℕ → Bool
is_before none t = false
is_before (some b) t = ltb t b

-- The two tests that pass a bar over
abbrev pub is_skipped : Option ℕ → Option ℕ → ℕ → Bool
is_skipped eligible barrier t = is_other eligible t || is_before barrier t

-- Where the read of the raw bars starts
abbrev pub history_start : ℕ → Option ℕ → ℕ
history_start width none = 0
history_start width (some t) = t - (feature_decision_observations + 1) * width

abbrev pub newest_bucket : {F : Type 0} → ℕ → Option (ClosedBar F) → ℕ
newest_bucket width none = 0
newest_bucket width (some bar) = bucket_start width bar.t

-- `features.at(-1)?.warmupComplete ?? false`
abbrev pub is_warm : {F : Type 0} → Option (FeatureVector F) → Bool
is_warm none = false
is_warm (some f) = f.warmup_complete

abbrev is_rebuilding : RecoveryState → Bool
is_rebuilding rebuilding = true
is_rebuilding _ = false

abbrev pub join_reasons : List String → String
join_reasons [] = ""
join_reasons (s ∷ []) = s
join_reasons (s ∷ rest) = s <> " " <> join_reasons rest

-- `reasons.join(" ") || "PASS"`
abbrev pub risk_text : List String → String
risk_text reasons = if str_eq (join_reasons reasons) "" then "PASS" else join_reasons reasons

abbrev pub with_block_reason : {F : Type 0} → Option String → Evidence F → Evidence F
with_block_reason reason evidence = elim evidence.strategy_decision [
  | none ↦ evidence
  | some s ↦ record evidence { strategy_decision = some (record s { block_reason = reason }) }
]

-- The fields after the features of the run were computed.
abbrev pub with_continuity : {F : Type 0} → Bool → ℕ → ℕ → Worker F → Worker F
with_continuity warm missing time k =
    let recovered = is_rebuilding k.checkpoint.recovery_state && warm in
    record k {
      missing_decision_buckets = missing;
      checkpoint = record k.checkpoint {
        feature_continuity = if warm then continuity_healthy else continuity_rebuilding;
        recovery_state = if recovered then recovery_healthy else k.checkpoint.recovery_state;
        recovery_completed_at =
            if recovered
            then some (or_else k.checkpoint.recovery_completed_at time)
            else k.checkpoint.recovery_completed_at;
      };
    }

abbrev pub insertion : {O : Type 0} → Option (Bool × O) → Result Bool
insertion none = err "DURABILITY_INVARIANT_DECISION_WITHOUT_INTENT"
insertion (some (inserted, orders)) = ok inserted

abbrev pub orders_after : {O : Type 0} → O → Option (Bool × O) → O
orders_after before none = before
orders_after before (some (inserted, orders)) = orders

module _ {F S : Type 0} where
  -- The fields after a decision was persisted.
  abbrev pub with_decision_made : Setup F S → String → ℕ → Evidence F → Worker F → Worker F
  with_decision_made env decision_id timestamp evidence k = record k {
    risk_state = some (risk_text evidence.risk.reasons);
    checkpoint = record k.checkpoint {
      latest_closed_decision_bar_timestamp = some timestamp;
      latest_decision_id = some decision_id;
      prior_risk_approved_target =
          if is_target_arm env.arm
          then some (target_of_action evidence.action)
          else k.checkpoint.prior_risk_approved_target;
    };
  }

  unfoldable pub store_decision :
      Setup F S → Evidence F → ExecutionIntent → Option String → Action F S Bool
  store_decision env evidence intent reason w =
      let written =
        persist_decision_and_intent env.identity.worker_key evidence intent reason w.orders in
      (insertion written, record w { orders = orders_after w.orders written })

  abbrev pub intent_of : Setup F S → String → ℕ → ℕ → Evidence F → Bool → ExecutionIntent
  intent_of env decision_id index timestamp evidence eligible = record {
    intent_id = decision_id <> ":intent";
    decision_id = decision_id;
    created_at_bar = index;
    created_at_timestamp = timestamp;
    desired_action = evidence.action;
    desired_position = evidence.target_position;
    status = if eligible then pending else cancelled;
    execution_model = alpaca_paper_model;
    client_order_id = some (deterministic_client_order_id env decision_id);
  }

  -- `isMarketSessionOpen(this.asset, timestamp)`
  abbrev pub session_open : Setup F S → ℕ → Bool
  session_open env timestamp = is_market_session_open env.new_york env.asset timestamp

  -- `isRegularSession`, if the options have one
  abbrev pub dispatch_session : Setup F S → ℕ → Bool
  dispatch_session env timestamp = elim env.session_override [
    | none ↦ session_open env timestamp
    | some veto ↦ veto timestamp
  ]

  -- The raw bars that the features are built from.
  unfoldable pub feature_bars : Setup F S → World F S → List (ClosedBar F)
  feature_bars env w =
      let from =
        history_start (decision_width_ms env.arm) w.worker.checkpoint.latest_raw_bar_timestamp in
      let newest = or_else (latest_closed_bar_timestamp env.asset.symbol w.market.bars) 0 in
      list_closed_bars env.asset.symbol from newest w.market.bars

module _ {F S : Type 0} ⦃num : Num F⦄ where
  unfoldable pub block_reason_for : Setup F S → ℕ → Evidence F → World F S → Option String
  unfolding is_live_bar_stale
  block_reason_for env t evidence w =
      let c = w.worker.checkpoint in
      dispatch_block_reason_for (record {
        dispatch_capable = may_reach_broker env;
        in_session = dispatch_session env t;
        warmup_complete = evidence.features.warmup_complete;
        feature_continuity = c.feature_continuity;
        recovery_state = c.recovery_state;
        latest_live_bar_stale = is_live_bar_stale env (or_else c.latest_raw_bar_timestamp t) w;
        reconciliation_complete = is_some c.last_reconciliation_timestamp && is_in ready w;
        has_ownership = is_some w.worker.ownership;
      })

  -- The end of a round: the dispatch, whether the loop goes on
  unfoldable pub dispatch_or_halt : Setup F S → Bool → ExecutionIntent → Action F S Bool
  unfolding dispatch halt persist_checkpoint
  dispatch_or_halt env eligible intent = do
    fine ←
        catching (when eligible (dispatch env intent) >> pure true) (λ e. halt env e >> pure false)
    when fine (persist_checkpoint env)
    pure fine

  -- One round of the loop over the decision bars: whether the loop goes on
  unfoldable pub decide :
      Setup F S → Option ℕ → List (ClosedBar F) → ℕ → ClosedBar F → Action F S Bool
  unfolding decision_evidence block_reason_for store_decision dispatch_or_halt
  decide env eligible_bucket candles index bar = do
    skipped ← gets (λ w.
        is_skipped eligible_bucket w.worker.checkpoint.recovery_dispatch_not_before_bucket_ms bar.t)
    if skipped then pure true else do
      let decision_id = deterministic_decision_id env bar.t
      evidence ← decision_evidence env candles index decision_id bar
      reason ← gets (block_reason_for env bar.t evidence)
      let eligible = not (is_some reason)
      let intent = intent_of env decision_id index bar.t evidence eligible
      inserted ← store_decision env (with_block_reason reason evidence) intent reason
      if not inserted then pure true else do
        set (with_decision_made env decision_id bar.t evidence)
        dispatch_or_halt env eligible intent

  unfoldable pub decide_all :
      Setup F S → Option ℕ → List (ClosedBar F) → ℕ → List (ClosedBar F) → Method F S
  unfolding decide
  decide_all env eligible_bucket candles index [] = skip
  decide_all env eligible_bucket candles index (bar ∷ rest) = do
    going ← decide env eligible_bucket candles index bar
    when going (decide_all env eligible_bucket candles (suc index) rest)

  -- The run of decision bars that ends with the newest
  unfoldable pub scan_of : Setup F S → List (ClosedBar F) → Scan F
  unfolding buckets_from sort_buckets scan_buckets
  scan_of env raw =
      let width = decision_width_ms env.arm in
      let latest = newest_bucket width (last? raw) in
      scan_buckets (session_open env) env.day width latest
        (sort_buckets (buckets_from width raw []))
        (record { incomplete = 0; trailing = []; previous_start = none })

  unfoldable pub process_completed_decision_bars : Setup F S → Option ℕ → Bool → Method F S
  unfolding feature_bars scan_of decide_all
  process_completed_decision_bars env eligible_bucket evaluate_only = do
    raw ← gets (feature_bars env)
    let scan = scan_of env raw
    if is_empty raw
        then skip
        else if_null (compute_features scan.trailing) (raise "FEATURES_UNDEFINED") (λ features. do
          let warm = is_warm (last? features)
          time ← gets (now env)
          set (with_continuity warm scan.incomplete time)
          when (not evaluate_only) (decide_all env eligible_bucket scan.trailing 0 scan.trailing))
