-- ===== src/Engine/Config.antt =====
-- The models of engine/config.py. Reading them from engine.yaml is not modelled.
use quantitative_trading.Prelude.{ℕ, String, List}
use quantitative_trading.Contracts.Decision.{Method}

pub record AggregationConfig : Type 0 where
  pub min_agreeing_providers : ℕ
  pub method : Method

pub record FilterConfig (F : Type 0) : Type 0 where
  pub min_atr_pct : F
  pub allowed_sessions : List String

pub record RiskConfig (F : Type 0) : Type 0 where
  pub max_daily_drawdown_pct : F
  pub max_signals_per_day : ℕ
  pub min_confidence : F
  pub min_risk_reward : F
  pub max_open_positions : ℕ
  pub max_exposure_pct : F
  pub vol_target_atr_pct : F
  pub vol_target_cap : F

pub record EngineConfig (F : Type 0) : Type 0 where
  pub aggregation : AggregationConfig
  pub filter : FilterConfig F
  pub risk : RiskConfig F
