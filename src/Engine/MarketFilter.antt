-- ===== src/Engine/MarketFilter.antt =====
-- `MarketFilter.check` of engine/market_filter.py.
use quantitative_trading.Prelude.{Bool, true, false, not, none, some, str_eq, if◌then◌else◌, any}
use quantitative_trading.Float.{Float}
use quantitative_trading.Contracts.Signal.{MarketContext, Volatility}
use quantitative_trading.Contracts.Decision.{
  Reason, StageResult, session_details, volatility_details, atr_details, passed_details,
}
use quantitative_trading.Engine.Config.{FilterConfig}

abbrev pub is_low : Volatility → Bool
is_low Volatility.low = true
is_low Volatility.normal = false
is_low Volatility.high = false

module _ {F : Type 0} where
  -- `context.session in self._config.allowed_sessions`
  abbrev pub is_allowed : FilterConfig F → MarketContext F → Bool
  is_allowed config context = any (str_eq context.session) config.allowed_sessions

module _ {F : Type 0} ⦃o : Float F⦄ where
  unfoldable pub check : FilterConfig F → MarketContext F → StageResult F
  check config context =
      if not (is_allowed config context)
      then record {
        passed = false;
        reason = some Reason.session_not_allowed;
        details = session_details context.session config.allowed_sessions;
      }
      else if is_low context.volatility
      then record {
        passed = false;
        reason = some Reason.low_volatility;
        details = volatility_details context.volatility;
      }
      else if o.lt context.atr_pct config.min_atr_pct
      then record {
        passed = false;
        reason = some Reason.atr_below_minimum;
        details = atr_details context.atr_pct config.min_atr_pct;
      }
      else record {
        passed = true;
        reason = none;
        details = passed_details context.session context.atr_pct;
      }
