-- ===== src/Engine/RiskManager.antt =====
-- `RiskManager` of engine/risk_manager.py.
use quantitative_trading.Prelude.{
  Bool, true, false, ◌&&◌, ◌||◌, List, [], ◌∷◌, ◌++◌, String, ltb, if◌then◌else◌, length, any, all,
}
use quantitative_trading.Float.{Float}
use quantitative_trading.Contracts.State.{PositionState, PositionSide, StateSnapshot}
use quantitative_trading.Contracts.Signal.{Side, FinalSignal}
use quantitative_trading.Contracts.Decision.{Reason, RiskCheckResult, RiskVerdict}
use quantitative_trading.Engine.Config.{RiskConfig}
use quantitative_trading.Engine.Aggregator.{AggregatorSuccess}

abbrev pub opposes : Side → PositionSide → Bool
opposes Side.sell PositionSide.long = true
opposes Side.sell PositionSide.short = false
opposes Side.buy PositionSide.long = false
opposes Side.buy PositionSide.short = true

module _ {F : Type 0} where
  -- a position of the snapshot that a decision for this side closes
  abbrev pub opposing_exit : Side → List (PositionState F) → Bool
  opposing_exit side positions = any (λ p. opposes side p.side) positions

  abbrev make_check : Reason → Bool → F → F → String → String → RiskCheckResult F
  make_check name ok value limit good bad = record {
    check_name = name;
    passed = ok;
    current_value = value;
    threshold = limit;
    message = if ok then good else bad;
  }

  abbrev pub check_passed : RiskCheckResult F → Bool
  check_passed c = c.passed

module _ {F : Type 0} ⦃o : Float F⦄ (config : RiskConfig F) where
  unfoldable pub risk_checks : AggregatorSuccess F → StateSnapshot F → List (RiskCheckResult F)
  risk_checks aggregated snapshot =
      let risk = snapshot.risk in
      let positions = snapshot.portfolio.open_positions in
      let exit = opposing_exit aggregated.side positions in
      let max_losses = risk.limits.max_consecutive_losses in
      make_check Reason.daily_drawdown (o.lt risk.daily_drawdown_pct config.max_daily_drawdown_pct)
        risk.daily_drawdown_pct config.max_daily_drawdown_pct "daily drawdown within limit"
        "daily drawdown limit breached"
      ∷ make_check Reason.max_signals_per_day (ltb risk.signals_today config.max_signals_per_day)
          (o.of_nat risk.signals_today) (o.of_nat config.max_signals_per_day)
          "signals today within limit" "max signals per day reached"
      ∷ make_check Reason.max_open_positions
          (exit || ltb (length positions) config.max_open_positions) (o.of_nat (length positions))
          (o.of_nat config.max_open_positions) "open positions within limit"
          "max open positions reached"
      ∷ make_check Reason.max_exposure (exit || o.le risk.open_exposure_pct config.max_exposure_pct)
          risk.open_exposure_pct config.max_exposure_pct "exposure within limit"
          "max exposure exceeded"
      ∷ make_check Reason.min_confidence (o.le config.min_confidence aggregated.confidence)
          aggregated.confidence config.min_confidence "confidence sufficient"
          "confidence below minimum"
      ∷ make_check Reason.max_consecutive_losses (ltb risk.consecutive_losses max_losses)
          (o.of_nat risk.consecutive_losses) (o.of_nat max_losses) "consecutive losses within limit"
          "max consecutive losses reached"
      ∷ []

  unfoldable pub evaluate : AggregatorSuccess F → StateSnapshot F → RiskVerdict F
  unfolding risk_checks
  evaluate aggregated snapshot =
      let checks = risk_checks aggregated snapshot in
      record {
        passed = all check_passed checks;
        checks = checks;
        state_snapshot_id = snapshot.snapshot_id;
        risk_state_version = snapshot.risk.version;
      }

  unfoldable pub finalize_verdict : RiskVerdict F → FinalSignal F → StateSnapshot F → RiskVerdict F
  finalize_verdict verdict signal snapshot =
      let rr_check =
        make_check Reason.min_risk_reward (o.le config.min_risk_reward signal.risk_reward)
          signal.risk_reward config.min_risk_reward "risk reward sufficient"
          "risk reward below minimum" in
      record {
        passed = verdict.passed && rr_check.passed;
        checks = verdict.checks ++ (rr_check ∷ []);
        state_snapshot_id = snapshot.snapshot_id;
        risk_state_version = snapshot.risk.version;
      }
