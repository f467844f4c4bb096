-- ===== src/Types/Session.antt =====
-- The metrics and the result of an experiment's arm.
use thelight.Common.{ℕ, String, List, Option}
use thelight.Types.Market.{Candle, ExperimentArm, StrategyId}
use thelight.Types.Execution.{ExecutionLedger, Fill}
use thelight.Types.Trail.{Evidence}

pub record PathMetrics (F : Type 0) : Type 0 where
  pub bar_count : ℕ
  pub trade_count : ℕ
  pub hit_rate : Option F
  pub total_return : F
  pub sharpe : Option F
  pub sortino : Option F
  pub max_drawdown : F
  pub turnover : F
  pub exposure : F
  pub transaction_cost_bps : F
  pub slippage_bps : F
  pub transaction_costs : F
  pub slippage_costs : F
  pub abstained_count : ℕ
  pub note : String

pub record CalibrationBucket (F : Type 0) : Type 0 where
  pub p : F
  pub freq : F
  pub n : ℕ

pub record ConfidenceBucket (F : Type 0) : Type 0 where
  pub lo : F
  pub hi : F
  pub n : ℕ
  pub hit : F

pub record SelectiveAccuracy (F : Type 0) : Type 0 where
  pub coverage : F
  pub accuracy : F

pub record RegimeOutcome (F : Type 0) : Type 0 where
  pub n : ℕ
  pub mean_next_bar_market_return : F

pub record JevEvalMetrics (F : Type 0) : Type 0 where
  pub brier_regime : Option F
  pub calibration_buckets : List (CalibrationBucket F)
  pub confidence_buckets : List (ConfidenceBucket F)
  pub selective_accuracy : List (SelectiveAccuracy F)
  pub decisions_abstained : ℕ
  pub by_predicted_regime : List (String × RegimeOutcome F)
  pub note : String

pub record SessionResult (F : Type 0) : Type 0 where
  pub arm : ExperimentArm
  pub strategy_id : StrategyId
  pub candles : List (Candle F)
  pub evidences : List (Evidence F)
  pub ledger : ExecutionLedger F
  pub fills : List (Fill F)
  pub metrics : PathMetrics F
  pub jev_metrics : JevEvalMetrics F
