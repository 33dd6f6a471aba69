-- ===== src/Features/Context.antt =====
-- `ContextDeriver` of features/context_deriver.py; `none` is the `KeyError` of a missing indicator.
use quantitative_trading.Prelude.{
  ℕ, ◌/◌, ◌%◌, ◌&&◌, Option, some, String, leb, ltb, if◌then◌else◌, ◌>>=◌,
}
use quantitative_trading.Dict.{Dict, lookup}
use quantitative_trading.Float.{Float, ◌⊗◌, ◌⊘◌}
use quantitative_trading.Contracts.State.{Instant}
use quantitative_trading.Contracts.Signal.{MarketContext, Trend, Volatility}
use quantitative_trading.State.Store.{zero_f, truthy}
use quantitative_trading.Features.Config.{ContextConfig}

-- the hour of the day in UTC, of an instant in microseconds
abbrev pub hour_of : Instant → ℕ
hour_of event_time = event_time / 3_600_000_000 % 24

unfoldable pub derive_session : Instant → String
derive_session event_time =
    let hour = hour_of event_time in
    if leb 12 hour && ltb hour 16
    then "OVERLAP"
    else if leb 7 hour && ltb hour 12
    then "EUROPE"
    else if leb 16 hour && ltb hour 21
    then "US"
    else "ASIA"

module _ {F : Type 0} ⦃o : Float F⦄ (config : ContextConfig F) where
  abbrev pub trend_of : F → F → Trend
  trend_of fast slow =
      if o.lt slow fast then Trend.up else if o.lt fast slow then Trend.down else Trend.sideways

  unfoldable pub derive_trend : Dict F → Option Trend
  derive_trend indicators = do
    fast ← lookup config.trend.fast indicators
    slow ← lookup config.trend.slow indicators
    some (trend_of fast slow)

  unfoldable pub derive_atr_metrics : F → Dict F → Option (F × F)
  derive_atr_metrics close indicators = do
    atr ← lookup config.volatility.atr indicators
    some (atr, o.round (if truthy close then atr ⊘ close ⊗ o.of_nat 100 else zero_f) 4)

  unfoldable pub derive_volatility : F → Volatility
  derive_volatility atr_pct =
      if o.lt atr_pct config.volatility.low
      then Volatility.low
      else if o.lt config.volatility.high atr_pct
      then Volatility.high
      else Volatility.normal

  unfoldable pub derive :
      (symbol timeframe : String) (close : F) → Dict F → Instant → Option (MarketContext F)
  unfolding derive_session derive_trend derive_atr_metrics derive_volatility
  derive symbol timeframe close indicators event_time = do
    trend ← derive_trend indicators
    (atr, atr_pct) ← derive_atr_metrics close indicators
    some (record {
      symbol = symbol;
      timeframe = timeframe;
      current_price = close;
      trend = trend;
      volatility = derive_volatility atr_pct;
      atr = atr;
      atr_pct = atr_pct;
      session = derive_session event_time;
      event_time = event_time;
    })
