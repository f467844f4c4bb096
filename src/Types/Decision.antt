-- ===== src/Types/Decision.antt =====
-- The typed answers of the classifier, and the evaluations of policy and risk.
use thelight.Common.{ℕ, Bool, String, List}
use thelight.Types.Market.{Action, ExperimentArm, DeterministicRegime}

-- The probabilities of a choice are an object with text keys.
abbrev pub Probabilities : Type 0 → Type 0
Probabilities F = List (String × F)

pub record ChoiceAnswer (F : Type 0) : Type 0 where
  pub choice : String
  pub probabilities : Probabilities F
  pub confidence : F

pub record NoulAnswer (F : Type 0) : Type 0 where
  pub noul : F

pub record ScoreAnswer (F : Type 0) : Type 0 where
  pub score : F
  pub probabilities : Probabilities F
  pub confidence : F
  pub level : String

pub record JevAnswers (F : Type 0) : Type 0 where
  pub regime : ChoiceAnswer F
  pub long_setup : NoulAnswer F
  pub short_setup : NoulAnswer F
  pub mean_reversion : NoulAnswer F
  pub trend : NoulAnswer F
  pub market_quality : ScoreAnswer F

pub record JevResponse (F : Type 0) : Type 0 where
  pub model : String
  pub request_id : String
  pub latency_ms : ℕ
  pub answers : JevAnswers F

pub record RiskEvaluation (F : Type 0) : Type 0 where
  pub version : String
  pub pass : Bool
  pub target : Action
  pub reasons : List String
  pub max_position : ℕ
  pub realized_vol : F
  pub drawdown : F
  pub equity_drawdown : F

pub record PolicyEvaluation : Type 0 where
  pub version : String
  pub arm : ExperimentArm
  pub deterministic_signal : Action
  pub deterministic_regime : DeterministicRegime
  -- the answer's text: the source casts it to a regime without a check
  pub jev_regime : String
  pub jev_long_pass : Bool
  pub jev_short_pass : Bool
  pub jev_trend_pass : Bool
  pub jev_mean_reversion_pass : Bool
  pub jev_quality_pass : Bool
  pub desired : Action
  pub reason : String
