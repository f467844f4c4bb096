-- ===== src/Types/Trail.antt =====
-- The request to the classifier and the evidence of one decision.
use thelight.Common.{ℕ, Bool, String, List, Option}
use thelight.Common.Int.{ℤ}
use thelight.Types.Market.{Action, Candle, DeterministicRegime, FeatureVector, Signal, TradingMode}
use thelight.Types.Decision.{JevResponse, PolicyEvaluation, RiskEvaluation}

pub data JevQuestion : Type 0 where
  choice_question : String → List (String × String) → JevQuestion
  noul_question : String → JevQuestion
  score_question : String → List String → JevQuestion

pub record JevMarketState (F : Type 0) : Type 0 where
  pub symbol : String
  pub timeframe : String
  pub close : F
  pub log_return : F
  pub normalized_return : F
  pub ema_return_signal : F
  pub ema_price : F
  pub displacement_from_ema : F
  pub displacement_z : F
  pub rsi_14 : F
  pub realized_vol : F
  pub drawdown : F
  pub volume : F

pub record JevRequest (F : Type 0) : Type 0 where
  pub model : String
  pub state : JevMarketState F
  pub questions : List (String × JevQuestion)

-- The runtime that took a decision, and what the decision rests on.
pub record StrategyEvidence : Type 0 where
  pub decision_timestamp : ℕ
  pub source_bar_timestamp : ℕ
  pub prior_target : ℤ
  pub proposed_target : ℤ
  pub final_risk_approved_target : ℤ
  pub block_reason : Option String
  pub worker_key : String
  pub worker_version : String
  pub run_id : Option String
  pub market_bar : String
  pub recovery_attempt_id : Option String

-- The target strategies leave out the signal, the regime, the classifier and the policy (the source
-- casts the object), so those are optional.
pub record Evidence (F : Type 0) : Type 0 where
  pub id : String
  pub timestamp : ℕ
  pub bar_index : ℕ
  pub symbol : String
  pub timeframe : String
  pub trading_mode : TradingMode
  pub market_snapshot : Candle F
  pub features : FeatureVector F
  pub strategy_id : String
  pub strategy_version : String
  pub research_refs : List String
  pub deterministic_signal : Option Signal
  pub deterministic_regime : Option DeterministicRegime
  pub jev_request : Option (JevRequest F)
  pub jev_response : Option (JevResponse F)
  pub policy : Option PolicyEvaluation
  pub risk : RiskEvaluation F
  pub action : Action
  pub target_position : ℤ
  pub abstained : Bool
  pub strategy_decision : Option StrategyEvidence
