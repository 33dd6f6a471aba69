-- ===== src/Features/Config.antt =====
-- The models of features/config.py that the context and the builder read. The only methods and the only
-- time zone that their types allow are `ema_compare`, `atr_pct` and UTC.
use quantitative_trading.Prelude.{String}

pub record TrendContextConfig : Type 0 where
  pub fast : String
  pub slow : String

pub record VolatilityContextConfig (F : Type 0) : Type 0 where
  pub atr : String
  pub low : F
  pub high : F

pub record ContextConfig (F : Type 0) : Type 0 where
  pub trend : TrendContextConfig
  pub volatility : VolatilityContextConfig F

pub record FeaturesConfig (F : Type 0) : Type 0 where
  pub version : String
  pub context : ContextConfig F
