-- ===== src/Engine/Exits.antt =====
-- The limits of the risk manager on a decision that closes a position, and on any other.
use quantitative_trading.Prelude.{◌<◌, ◌≡◌, ◌↔◌, ◌⊎◌, true, arith, length}
use quantitative_trading.Float.{Float}
use quantitative_trading.Contracts.State.{StateSnapshot}
use quantitative_trading.Engine.Config.{RiskConfig}
use quantitative_trading.Engine.Aggregator.{AggregatorSuccess}
use quantitative_trading.Engine.RiskManager.{opposing_exit, evaluate}

module _ {F : Type 0} ⦃o : Float F⦄ (config : RiskConfig F) (a : AggregatorSuccess F)
    (snapshot : StateSnapshot F) where
  -- the room for another position under the caps of the configuration
  pub record HasRoom : Type 0 where
    pub positions : length snapshot.portfolio.open_positions < config.max_open_positions
    pub exposure : o.le snapshot.risk.open_exposure_pct config.max_exposure_pct ≡ true

  -- the limits that hold for every decision
  pub record IsWithinLimits : Type 0 where
    pub drawdown : o.lt snapshot.risk.daily_drawdown_pct config.max_daily_drawdown_pct ≡ true
    pub signals : snapshot.risk.signals_today < config.max_signals_per_day
    pub confidence : o.le config.min_confidence a.confidence ≡ true
    pub losses : snapshot.risk.consecutive_losses < snapshot.risk.limits.max_consecutive_losses

  abbrev pub IsExit : Type 0
  IsExit = opposing_exit a.side snapshot.portfolio.open_positions ≡ true

  -- The verdict passes exactly where drawdown, signals of the day, confidence and losing streak are
  -- within their limits and, unless the decision opposes an open position, there is room for another
  -- position: a decision that exits is never held back by the caps on positions and exposure.
  pub evaluate_iff :
      ((evaluate config a snapshot).passed ≡ true) ↔ (IsWithinLimits × (IsExit ⊎ HasRoom))
  unfolding evaluate
  evaluate_iff = ground arith
