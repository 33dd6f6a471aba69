-- ===== src/Contracts/State.antt =====
-- core/contracts/state.py. An instant is a number of microseconds; prices and sizes are floats of
-- the parameter `F`. Counters and limits that the code keeps as `int` are not negative.
use quantitative_trading.Prelude.{ℕ, String, List, Option}

abbrev pub Instant : Type 0
Instant = ℕ

pub data Mode : Type 0 where
  validation live paper replay : Mode

pub data PositionSide : Type 0 where
  long short : PositionSide

pub data PositionStatus : Type 0 where
  open_ closed : PositionStatus

pub record PositionState (F : Type 0) : Type 0 where
  pub position_id : String
  pub symbol : String
  pub side : PositionSide
  pub quantity : F
  pub entry_price : F
  pub entry_time : Instant
  pub stop_loss : Option F
  pub take_profit : Option F
  pub unrealized_pnl : F
  pub status : PositionStatus

pub record RiskLimits (F : Type 0) : Type 0 where
  pub max_daily_drawdown_pct : F
  pub max_open_positions : ℕ
  pub max_exposure_pct : F
  pub max_consecutive_losses : ℕ

pub record PortfolioState (F : Type 0) : Type 0 where
  pub portfolio_id : String
  pub mode : Mode
  pub cash : F
  pub equity : F
  pub open_positions : List (PositionState F)
  pub realized_pnl : F
  pub version : ℕ
  pub as_of_event_time : Instant
  pub as_of_processing_time : Instant

pub record RiskState (F : Type 0) : Type 0 where
  pub risk_state_id : String
  pub portfolio_id : String
  pub daily_pnl : F
  pub daily_drawdown_pct : F
  pub daily_start_equity : F
  pub open_exposure_pct : F
  pub consecutive_losses : ℕ
  pub signals_today : ℕ
  pub limits : RiskLimits F
  pub breached_limits : List String
  pub version : ℕ
  pub as_of_event_time : Instant

pub record StateSnapshot (F : Type 0) : Type 0 where
  pub snapshot_id : String
  pub portfolio : PortfolioState F
  pub risk : RiskState F
  pub version : ℕ
  pub created_at : Instant
  pub correlation_id : Option String
