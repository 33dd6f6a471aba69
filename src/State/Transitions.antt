-- ===== src/State/Transitions.antt =====
-- state/transitions.py: a transition's type and its payload, as one constructor for each type.
use quantitative_trading.Prelude.{ℕ, String, List}
use quantitative_trading.Dict.{Dict}
use quantitative_trading.Contracts.State.{Instant, Mode, PositionState, RiskLimits}
use quantitative_trading.Contracts.Execution.{Fill}
use quantitative_trading.Contracts.Event.{ExitReason}

-- One entry of the payload of `portfolio_updated`: a field of `PortfolioState`, or any other key.
pub data PortfolioUpdate (F : Type 0) : Type 0 where
  portfolio_id : String → PortfolioUpdate F
  mode : Mode → PortfolioUpdate F
  cash equity realized_pnl : F → PortfolioUpdate F
  open_positions : List (PositionState F) → PortfolioUpdate F
  version : ℕ → PortfolioUpdate F
  as_of_event_time as_of_processing_time : Instant → PortfolioUpdate F
  other : String → PortfolioUpdate F

-- One entry of the payload of `risk_updated`.
pub data RiskUpdate (F : Type 0) : Type 0 where
  risk_state_id portfolio_id : String → RiskUpdate F
  daily_pnl daily_drawdown_pct daily_start_equity open_exposure_pct : F → RiskUpdate F
  consecutive_losses signals_today : ℕ → RiskUpdate F
  limits : RiskLimits F → RiskUpdate F
  breached_limits : List String → RiskUpdate F
  version : ℕ → RiskUpdate F
  as_of_event_time : Instant → RiskUpdate F
  other : String → RiskUpdate F

pub data Transition (F : Type 0) : Type 0 where
  position_opened : (position : PositionState F) (fill : Fill F) (cost : F) → Transition F
  position_closed :
      (position_id : String) (fill : Fill F) (pnl : F) (exit_reason : ExitReason) → Transition F
  risk_updated : List (RiskUpdate F) → Transition F
  portfolio_updated : List (PortfolioUpdate F) → Transition F
  mark_to_market : (prices : Dict F) → Transition F

pub record StateTransitionEvent (F : Type 0) : Type 0 where
  pub transition_id : String
  pub portfolio_id : String
  pub transition : Transition F
  pub event_time : Instant
  pub correlation_id : String
