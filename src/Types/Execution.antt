-- ===== src/Types/Execution.antt =====
-- Intents, fills, position transitions, equity points and the ledger of a replay. A position here is
-- what `actionToPosition` gives, 1, -1 or 0, so positions are integers and turnover is a natural.
use thelight.Common.{ℕ, String, List, Option}
use thelight.Common.Int.{ℤ}
use thelight.Types.Market.{Action}

pub data ExecutionStatus : Type 0 where
  pending submission_attempted accepted rejected unknown partially_filled filled cancelled :
      ExecutionStatus

pub ExecutionStatus-discrete : Discrete ExecutionStatus
ExecutionStatus-discrete = hlevel

pub data ExecutionModel : Type 0 where
  next_bar_close alpaca_paper_model : ExecutionModel

pub record ExecutionIntent : Type 0 where
  pub intent_id : String
  pub decision_id : String
  pub created_at_bar : ℕ
  pub created_at_timestamp : ℕ
  pub desired_action : Action
  pub desired_position : ℤ
  pub status : ExecutionStatus
  pub execution_model : ExecutionModel
  pub client_order_id : Option String

pub record Fill (F : Type 0) : Type 0 where
  pub fill_id : String
  pub intent_id : String
  pub decision_id : String
  pub fill_bar_index : ℕ
  pub fill_timestamp : ℕ
  pub fill_price : F
  pub position_before : ℤ
  pub position_after : ℤ
  pub transaction_cost : F
  pub slippage : F
  pub action : Action
  pub status : ExecutionStatus
  pub broker_order_id : Option String

pub record PositionTransition : Type 0 where
  pub transition_id : String
  pub intent_id : String
  pub decision_id : String
  pub bar_index : ℕ
  pub timestamp : ℕ
  pub position_before : ℤ
  pub position_after : ℤ
  pub turnover : ℕ

pub record EquityPoint (F : Type 0) : Type 0 where
  pub bar_index : ℕ
  pub timestamp : ℕ
  pub equity : F
  pub period_return : F
  pub position_applied : ℤ
  pub transaction_cost : F
  pub slippage : F

pub record ExecutionLedger (F : Type 0) : Type 0 where
  pub model : ExecutionModel
  pub intents : List ExecutionIntent
  pub fills : List (Fill F)
  pub transitions : List PositionTransition
  pub equity : List (EquityPoint F)
  pub final_position : ℤ
  pub final_equity : F
  pub total_transaction_cost : F
  pub total_slippage : F
