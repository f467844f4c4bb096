-- ===== src/Types/Market.antt =====
-- Actions, bars and features.
use thelight.Common.{ℕ, Bool, String}

pub data TradingMode : Type 0 where
  paper_replay alpaca_paper : TradingMode

-- The arms A to D of an experiment.
pub data ExperimentArm : Type 0 where
  arm_a arm_b arm_c arm_d : ExperimentArm

pub data StrategyId : Type 0 where
  ema_trend rsi_mean_reversion : StrategyId

pub data Action : Type 0 where
  long short flat : Action

pub Action-discrete : Discrete Action
Action-discrete = hlevel

pub record Candle (F : Type 0) : Type 0 where
  pub t : ℕ
  pub open_price : F
  pub high : F
  pub low : F
  pub close : F
  pub volume : F

-- A bar that is known to be complete.
abbrev pub ClosedBar : Type 0 → Type 0
ClosedBar F = Candle F

pub record FeatureVector (F : Type 0) : Type 0 where
  pub bar_index : ℕ
  pub timestamp : ℕ
  pub close : F
  pub volume : F
  pub log_return : F
  pub normalized_return : F
  pub ema_return_signal : F
  pub ema_price : F
  pub displacement_from_ema : F
  pub displacement_z : F
  pub rsi14 : F
  pub realized_vol : F
  pub drawdown : F
  pub warmup_complete : Bool

pub data DeterministicRegime : Type 0 where
  trend_up trend_down mean_reverting ambiguous : DeterministicRegime

pub data MarketQuality : Type 0 where
  hostile weak usable strong : MarketQuality

pub record Signal : Type 0 where
  pub strategy_id : StrategyId
  pub strategy_version : String
  pub desired : Action
  pub reason : String

-- `EXPERIMENT_ARMS`
pub record ArmText : Type 0 where
  pub label : String
  pub summary : String

unfoldable pub experiment_arms : ExperimentArm → ArmText
experiment_arms arm_a = record {
  label = "Baseline";
  summary = "Buy-and-hold unit long. Comparison arm, not a researched edge.";
}
experiment_arms arm_b = record {
  label = "Deterministic strategy";
  summary = "Strategy signal only. No regime filter.";
}
experiment_arms arm_c = record {
  label = "Det. strategy + det. regime";
  summary = "Strategy signal gated by our deterministic regime classifier.";
}
experiment_arms arm_d = record {
  label = "Det. strategy + Jev regime";
  summary = "Strategy signal gated by Jev typed answers. Sprint 0 uses a mock adapter.";
}
