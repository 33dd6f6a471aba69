-- ===== src/Contracts/Decision.antt =====
-- core/contracts/decision.py and the verdicts of rationale.py.
use quantitative_trading.Prelude.{ℕ, Bool, String, List, Option}
use quantitative_trading.Dict.{Dict}
use quantitative_trading.Contracts.State.{Instant}
use quantitative_trading.Contracts.Signal.{Opinion, StrategySignal, FinalSignal, Volatility}

-- The strings that name a reason or a risk check.
pub data Reason : Type 0 where
  session_not_allowed low_volatility atr_below_minimum : Reason
  no_active_signals provider_conflict insufficient_consensus : Reason
  daily_drawdown max_signals_per_day max_open_positions max_exposure : Reason
  min_confidence max_consecutive_losses min_risk_reward : Reason

-- The `details` that the market filter reports.
pub data Details (F : Type 0) : Type 0 where
  session_details : String → List String → Details F
  volatility_details : Volatility → Details F
  atr_details : F → F → Details F
  passed_details : String → F → Details F

pub record StageResult (F : Type 0) : Type 0 where
  pub passed : Bool
  pub reason : Option Reason
  pub details : Details F

pub data Method : Type 0 where
  weighted_majority majority unanimous : Method

pub record AggregationResult (F : Type 0) : Type 0 where
  pub method : Method
  pub side : Opinion
  pub confidence : F
  pub weights : Dict F
  pub dissent : List String

pub record RiskCheckResult (F : Type 0) : Type 0 where
  pub check_name : Reason
  pub passed : Bool
  pub current_value : F
  pub threshold : F
  pub message : String

pub record RiskVerdict (F : Type 0) : Type 0 where
  pub passed : Bool
  pub checks : List (RiskCheckResult F)
  pub state_snapshot_id : String
  pub risk_state_version : ℕ

pub record DecisionLog (F : Type 0) : Type 0 where
  pub market_filter : StageResult F
  pub provider_signals : List (StrategySignal F)
  pub aggregation : AggregationResult F
  pub risk_check : RiskVerdict F
  pub state_snapshot_id : String
  pub portfolio_version : ℕ
  pub risk_state_version : ℕ

pub data Outcome : Type 0 where
  approved rejected : Outcome

pub data Stage : Type 0 where
  market_filter aggregator risk_manager : Stage

pub record DecisionResult : Type 0 where
  pub value : Outcome
  pub rejection_reason : Option Reason
  pub rejection_stage : Option Stage

pub record Decision (F : Type 0) : Type 0 where
  pub decision_id : String
  pub result : DecisionResult
  pub final_signal : Option (FinalSignal F)
  pub decision_log : DecisionLog F
  pub correlation_id : String
  pub event_time : Instant
  pub decision_time : Instant
  pub revision_id : Option String
  pub experiment_id : Option String

-- `self.result.value == "approved"`
abbrev pub is_approved : {F : Type 0} → Decision F → Bool
is_approved d = elim d.result.value [ approved ↦ Bool.true | rejected ↦ Bool.false ]
