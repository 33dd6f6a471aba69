-- ===== src/Execution/Exits.antt =====
-- `check_exit` of execution/simulated_exits.py: the reason and the price of an exit, if there is one.
use quantitative_trading.Prelude.{
  ℕ, Bool, true, false, ◌&&◌, Option, none, some, if◌then◌else◌, leb,
}
use quantitative_trading.Float.{Float}
use quantitative_trading.Contracts.State.{PositionState, PositionSide}
use quantitative_trading.Contracts.Signal.{Side}
use quantitative_trading.Contracts.Execution.{Bar}
use quantitative_trading.Contracts.Event.{ExitReason}
use quantitative_trading.Engine.RiskManager.{opposes}
use quantitative_trading.Execution.Simulator.{Engine}

-- the first of two results that is there
abbrev or_else {ℓ} : {A : Type ℓ} → Option A → Option A → Option A
or_else (some a) _ = some a
or_else none b = b

module _ {F : Type 0} ⦃o : Float F⦄ where
  -- the exit at a level, if the level is there and the test of the bar against it holds
  abbrev at_level : ExitReason → (F → Bool) → Option F → Option (ExitReason × F)
  at_level reason hit none = none
  at_level reason hit (some level) = if hit level then some (reason, level) else none

  -- the stop loss is looked at before the take profit
  unfoldable pub check_levels : PositionState F → Bar F → Option (ExitReason × F)
  check_levels position bar = elim position.side [
    | PositionSide.long ↦
        or_else (at_level ExitReason.stop_loss (λ level. o.le bar.low level) position.stop_loss)
          (at_level ExitReason.take_profit (λ level. o.le level bar.high) position.take_profit)
    | PositionSide.short ↦
        or_else (at_level ExitReason.stop_loss (λ level. o.le level bar.high) position.stop_loss)
          (at_level ExitReason.take_profit (λ level. o.le bar.low level) position.take_profit)
  ]

  abbrev check_signal : PositionState F → Bar F → Side → Option (ExitReason × F)
  check_signal position bar approved_side =
      if opposes approved_side position.side then some (ExitReason.signal, bar.close) else none

  -- the checks of the pre-decision path
  abbrev check_market :
      Engine F
      → PositionState F
      → Bar F
      → (bars_held : ℕ) (check_timeout : Bool) → Option (ExitReason × F)
  check_market engine position bar bars_held check_timeout = or_else (check_levels position bar) (
      if check_timeout && leb engine.config.max_bars_in_trade bars_held
      then some (ExitReason.timeout, bar.close)
      else none)

  unfoldable pub check_exit :
      Engine F
      → PositionState F
      → Bar F
      → (bars_held : ℕ) → (approved_side : Option Side) → (check_timeout : Bool)
      → Option (ExitReason × F)
  unfolding check_levels
  check_exit engine position bar bars_held (some side) false = check_signal position bar side
  check_exit engine position bar bars_held (some side) true =
      check_market engine position bar bars_held true
  check_exit engine position bar bars_held none check_timeout =
      check_market engine position bar bars_held check_timeout
