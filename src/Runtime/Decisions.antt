-- ===== src/Runtime/Decisions.antt =====
-- `decisionEvidence`: what a decision rests on, for the two arms, and `deterministicDecisionId` and
-- `deterministicClientOrderId`.
use thelight.Common.{
  ℕ, suc, zero, String, ◌<>◌, Bool, true, false, ◌&&◌, ◌||◌, not, Option, none, some, List, [], ◌∷◌,
  if◌then◌else◌, or_else,
}
use thelight.Number.{Num, int}
use thelight.Types.{
  Action, long, flat, ClosedBar, Evidence, FeatureVector, RiskEvaluation, arm_c, ema_trend,
  alpaca_paper, PolicyEvaluation, Signal, DeterministicRegime,
}
use thelight.Asset.Identity.{PaperWorkerArm, ema_rsi_v1, ema_trend_arm_c}
use thelight.Feature.EmaRsi.{TargetPosition, target_flat, target_long, StrategyDecision, evaluate}
use thelight.Feature.Vector.{compute_features}
use thelight.Policy.Evaluate.{action_eq, evaluate_asset_aware_policy}
use thelight.Policy.Risk.{evaluate_risk}
use thelight.Policy.Signals.{evaluate_signal, classify_deterministic_regime}
use thelight.Replay.Ledger.{action_to_position}
use thelight.Classifier.Request.{build_jev_request}
use thelight.Classifier.Mock.{jev_model_mock, mock_classify}
use thelight.Store.Checkpoint.{target_number}
use thelight.Runtime.World.{World, Setup}
use thelight.Runtime.Actions.{Action as Doing, ◌>>=◌, ◌>>◌, pure, raise, gets, if_null, when, now}
use thelight.Runtime.Broker.{may_reach_broker, paper_equity_drawdown, refresh_paper_equity}

-- `xs[i]`, and `xs.slice(0, i)`
unfoldable pub nth : {A : Type 0} → List A → ℕ → Option A
nth [] i = none
nth (x ∷ xs) zero = some x
nth (x ∷ xs) (suc i) = nth xs i

unfoldable pub slice_to : {A : Type 0} → ℕ → List A → List A
slice_to zero xs = []
slice_to (suc n) [] = []
slice_to (suc n) (x ∷ xs) = x ∷ slice_to n xs

-- `targetStrategy` is set.
abbrev pub is_target_arm : PaperWorkerArm → Bool
is_target_arm ema_rsi_v1 = true
is_target_arm ema_trend_arm_c = false

abbrev pub action_of : TargetPosition → Action
action_of target_long = long
action_of target_flat = flat

abbrev pub target_of_action : Action → TargetPosition
target_of_action long = target_long
target_of_action _ = target_flat

abbrev pub target_eq : TargetPosition → TargetPosition → Bool
target_eq target_long target_long = true
target_eq target_flat target_flat = true
target_eq _ _ = false

module _ {F S : Type 0} where
  -- Every decision of the arm without a target strategy is one of `ema_trend` in the arm C.
  unfoldable pub deterministic_decision_id : Setup F S → ℕ → String
  deterministic_decision_id env timestamp =
      let strategy = if is_target_arm env.arm then "ema_rsi_v1" else "ema_trend" in
      let arm = if is_target_arm env.arm then "ema_rsi_v1" else "C" in
      "LLP-"
      <> env.hash (
          env.asset.symbol
          <> "|"
          <> env.identity.decision_timeframe
          <> "|"
          <> env.show timestamp
          <> "|"
          <> strategy
          <> "|"
          <> arm
          <> "|"
          <> env.identity.worker_version)

  unfoldable pub deterministic_client_order_id : Setup F S → String → String
  deterministic_client_order_id env decision_id = "llp-" <> env.hash (decision_id <> "|intent|v1")

module _ {F : Type 0} ⦃num : Num F⦄ where
  abbrev pub read_only_risk : Action → FeatureVector F → RiskEvaluation F
  read_only_risk desired feature = record {
    version = "READ_ONLY_RUNTIME";
    pass = true;
    target = desired;
    reasons = "READ_ONLY_RUNTIME" ∷ [];
    max_position = 1;
    realized_vol = feature.realized_vol;
    drawdown = feature.drawdown;
    equity_drawdown = int 0;
  }

module _ {F S : Type 0} ⦃num : Num F⦄ where
  -- The evidence of the arm with the target strategy
  unfoldable pub target_evidence :
      Setup F S
      → String
      → ℕ
      → ClosedBar F
      → FeatureVector F
      → TargetPosition
      → StrategyDecision
      → RiskEvaluation F
      → World F S
      → Evidence F
  target_evidence env decision_id index bar feature prior strategy risk w =
      let approved = target_of_action risk.target in
      record {
        id = decision_id;
        timestamp = feature.timestamp;
        bar_index = index;
        symbol = env.asset.symbol;
        timeframe = "1Min";
        trading_mode = alpaca_paper;
        market_snapshot = bar;
        features = feature;
        strategy_id = "ema_rsi_v1";
        strategy_version = "v1";
        research_refs = [];
        deterministic_signal = none;
        deterministic_regime = none;
        jev_request = none;
        jev_response = none;
        policy = none;
        risk = risk;
        action = risk.target;
        target_position = target_number approved;
        abstained = not (target_eq strategy.target_position approved);
        strategy_decision = some (record {
          decision_timestamp = now env w;
          source_bar_timestamp = bar.t;
          prior_target = target_number prior;
          proposed_target = target_number strategy.target_position;
          final_risk_approved_target = target_number approved;
          block_reason = none;
          worker_key = env.identity.worker_key;
          worker_version = env.identity.worker_version;
          run_id = w.worker.current_run;
          market_bar = "closed_bars:" <> env.asset.symbol <> ":" <> env.show bar.t;
          recovery_attempt_id = w.worker.checkpoint.recovery_attempt_id;
        });
      }

  -- The evidence of the arm C
  unfoldable pub trend_evidence :
      Setup F S
      → String
      → ℕ
      → ClosedBar F
      → FeatureVector F
      → Signal
      → DeterministicRegime
      → PolicyEvaluation
      → RiskEvaluation F
      → Evidence F
  trend_evidence env decision_id index bar feature signal regime policy risk = record {
    id = decision_id;
    timestamp = feature.timestamp;
    bar_index = index;
    symbol = env.asset.symbol;
    timeframe = "15Min";
    trading_mode = alpaca_paper;
    market_snapshot = bar;
    features = feature;
    strategy_id = "ema_trend";
    strategy_version = "sprint0.1";
    research_refs = "arXiv:1308.5658" ∷ "arXiv:2602.10785" ∷ [];
    deterministic_signal = some signal;
    deterministic_regime = some regime;
    jev_request = some (build_jev_request env.fixed feature jev_model_mock);
    jev_response = some (mock_classify env.fixed env.rounded env.show feature);
    policy = some policy;
    risk = risk;
    action = risk.target;
    target_position = action_to_position risk.target;
    abstained =
        not (action_eq policy.desired risk.target)
        || (action_eq risk.target flat && not (action_eq signal.desired flat));
    strategy_decision = none;
  }

  unfoldable pub target_decision :
      Setup F S
      → List (ClosedBar F)
      → ℕ
      → String
      → ClosedBar F
      → FeatureVector F
      → Doing F S (Evidence F)
  unfolding target_evidence slice_to
  target_decision env candles index decision_id bar feature = do
    prior ← gets (λ w. or_else w.worker.checkpoint.prior_risk_approved_target target_flat)
    let strategy = evaluate (slice_to (suc index) candles) prior
    let desired = action_of strategy.target_position
    drawdown ← gets (λ w. paper_equity_drawdown w.worker)
    if may_reach_broker env
        then if_null drawdown (raise "PAPER_EQUITY_UNAVAILABLE") (λ fall. gets (
            target_evidence env decision_id index bar feature prior strategy
              (evaluate_risk desired feature fall)))
        else gets (
            target_evidence env decision_id index bar feature prior strategy
              (read_only_risk desired feature))

  unfoldable pub trend_decision :
      Setup F S → ℕ → String → ClosedBar F → FeatureVector F → Doing F S (Evidence F)
  unfolding trend_evidence
  trend_decision env index decision_id bar feature = do
    let signal = evaluate_signal ema_trend feature
    let regime = classify_deterministic_regime feature
    let policy = evaluate_asset_aware_policy env.asset (record {
      arm = arm_c;
      strategy_id = ema_trend;
      signal = signal;
      det_regime = regime;
      jev = mock_classify env.fixed env.rounded env.show feature;
    })
    drawdown ←
        gets (λ w. if may_reach_broker env then paper_equity_drawdown w.worker else some (int 0))
    if_null drawdown (raise "PAPER_EQUITY_UNAVAILABLE") (λ fall. pure (
        trend_evidence env decision_id index bar feature signal regime policy
          (evaluate_risk policy.desired feature fall)))

  -- A series that throws, and an index without features, which the callers never pass, end the method.
  unfoldable pub decision_evidence :
      Setup F S → List (ClosedBar F) → ℕ → String → ClosedBar F → Doing F S (Evidence F)
  unfolding nth target_decision trend_decision
  decision_evidence env candles index decision_id bar = do
    when (may_reach_broker env) (refresh_paper_equity env)
    if_null (compute_features candles) (raise "FEATURES_UNDEFINED") (λ features.
        if_null (nth features index) (raise "FEATURES_UNDEFINED") (λ feature.
          if is_target_arm env.arm
          then target_decision env candles index decision_id bar feature
          else trend_decision env index decision_id bar feature))
