-- ===== src/Execution/Pricing.antt =====
-- execution/simulated_pricing.py: the price of a fill and the size of a position.
use quantitative_trading.Prelude.{Bool, true, false, ◌||◌, if◌then◌else◌}
use quantitative_trading.Float.{Float, ◌⊕◌, ◌⊖◌, ◌⊗◌, ◌⊘◌, min, max}
use quantitative_trading.Contracts.State.{StateSnapshot}
use quantitative_trading.Contracts.Signal.{Side}
use quantitative_trading.Contracts.Execution.{Bar, FillAt}
use quantitative_trading.Execution.Simulator.{Engine}
use quantitative_trading.State.Store.{zero_f}

abbrev pub is_next_open : FillAt → Bool
is_next_open FillAt.next_open = true
is_next_open FillAt.close = false
is_next_open FillAt.mid = false

abbrev is_mid : FillAt → Bool
is_mid FillAt.mid = true
is_mid FillAt.close = false
is_mid FillAt.next_open = false

module _ {F : Type 0} ⦃o : Float F⦄ where
  unfoldable pub fill_price : Engine F → Bar F → Side → (use_next_open : Bool) → F
  fill_price engine bar side use_next_open =
      let at = engine.fill_model.fill_at in
      let base =
        if use_next_open || is_next_open at
        then bar.open_
        else if is_mid at
        then (bar.high ⊕ bar.low) ⊘ o.of_nat 2
        else bar.close in
      let slip = engine.fill_model.slippage_bps ⊘ o.of_nat 10_000 in
      elim side [ Side.buy ↦ base ⊗ (o.of_nat 1 ⊕ slip) | Side.sell ↦ base ⊗ (o.of_nat 1 ⊖ slip) ]

  -- the quantity before the caps, and whether the stop is at no distance from the entry
  abbrev pub base_quantity : Engine F → StateSnapshot F → (entry stop_loss : F) → F
  base_quantity engine snapshot entry stop_loss =
      let equity = snapshot.portfolio.equity in
      let exposure_pct = engine.config.exposure_pct_per_trade in
      if o.lt zero_f exposure_pct
      then equity ⊗ exposure_pct ⊘ o.of_nat 100 ⊘ entry
      else equity ⊗ engine.config.risk_pct_per_trade ⊘ o.of_nat 100 ⊘ o.abs (entry ⊖ stop_loss)

  abbrev pub no_distance : Engine F → (entry stop_loss : F) → Bool
  no_distance engine entry stop_loss =
      if o.lt zero_f engine.config.exposure_pct_per_trade
      then false
      else o.le (o.abs (entry ⊖ stop_loss)) zero_f

  -- the most that the cash buys, and the most that the exposure limit leaves room for
  abbrev pub max_cash_quantity : StateSnapshot F → F → F
  max_cash_quantity snapshot entry =
      if o.lt zero_f snapshot.portfolio.cash then snapshot.portfolio.cash ⊘ entry else zero_f

  abbrev pub max_exposure_quantity : StateSnapshot F → F → F
  max_exposure_quantity snapshot entry =
      let remaining =
        max zero_f (snapshot.risk.limits.max_exposure_pct ⊖ snapshot.risk.open_exposure_pct) in
      (remaining ⊘ o.of_nat 100 ⊗ snapshot.portfolio.equity) ⊘ entry

  unfoldable pub position_size :
      Engine F → StateSnapshot F → (entry stop_loss size_multiplier : F) → F
  position_size engine snapshot entry stop_loss size_multiplier =
      if o.le entry zero_f
      then zero_f
      else if no_distance engine entry stop_loss
      then zero_f
      else let wanted =
          base_quantity engine snapshot entry stop_loss ⊗ max size_multiplier zero_f in
        let quantity =
          min (min wanted (max_cash_quantity snapshot entry))
            (max_exposure_quantity snapshot entry) in
        if o.lt zero_f quantity then o.round quantity 8 else zero_f
