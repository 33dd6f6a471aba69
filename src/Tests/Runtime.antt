-- ===== src/Tests/Runtime.antt =====
-- The theorems on the runtime's cycle and on a backtest at the data.
use quantitative_trading.Prelude.{
  ◌≡◌, refl, ◌-◌, Bool, true, false, Option, none, some, Returns, Keeps, length, arith,
}
use quantitative_trading.Prelude.Int.{ℤ, ◌+ℤ◌, ◌-ℤ◌, ◌*ℤ◌, quot}
use quantitative_trading.Float.Exact.{int_float}
use quantitative_trading.Contracts.Decision.{is_approved}
use quantitative_trading.State.Store.{snapshot, apply_transition, dispatch}
use quantitative_trading.Execution.Pending.{process_pending_entries}
use quantitative_trading.Features.Context.{derive}
use quantitative_trading.Features.Store.{put}
use quantitative_trading.Engine.MarketFilter.{check}
use quantitative_trading.Engine.Aggregator.{combine, make_success}
use quantitative_trading.Engine.RiskManager.{evaluate, finalize_verdict}
use quantitative_trading.Engine.SignalBuilder.{build}
use quantitative_trading.Execution.Pricing.{position_size}
use quantitative_trading.State.Updates.{update_risk_all, update_risk}
use quantitative_trading.Runtime.State.{CycleResult, RuntimeState}
use quantitative_trading.Runtime.Cycle.{run_cycle}
use quantitative_trading.Runtime.DailySignals.{IsCounted}
use quantitative_trading.Runtime.Returning.{HasIndicators, run_cycle-Returns}
use quantitative_trading.Runtime.Published.{IsPublished, run_cycle-IsPublished}
use quantitative_trading.Validation.Harness.{run_bars, simulate}
use quantitative_trading.Validation.DailyLimit.{IsRun, AreCounted}
use quantitative_trading.Validation.Backtest.{simulate-IsRun, run_bars_on_day}
use quantitative_trading.Tests.Platform.{runtime, frame, ctx, state, bars}

computed : HasIndicators runtime.features frame.indicators
computed = record { fast = refl; slow = refl; atr = refl }

run_cycle-Returns_example : Returns (IsCounted runtime ctx 2) (run_cycle runtime ctx state)
run_cycle-Returns_example =
    run_cycle-Returns runtime ctx 2 state computed (λ _. refl)
      (record { same_id = refl; own_id = refl; signals = refl })

run_cycle-IsPublished_example : Keeps (IsPublished runtime state.bus) (run_cycle runtime ctx state)
run_cycle-IsPublished_example = run_cycle-IsPublished runtime ctx state

simulate-IsRun_example :
    Returns (IsRun runtime (length bars - 1)) (simulate runtime 1 (λ c. "val_liquidate") bars state)
simulate-IsRun_example =
    simulate-IsRun runtime (λ _. refl) state 1 (λ c. "val_liquidate") bars
      (computed, (computed, (computed, tt))) (omega arith)
      (2, record { same_id = refl; own_id = refl; signals = refl }, omega arith)

run_bars_on_day_example : Keeps (AreCounted runtime 2) (run_bars runtime bars state)
run_bars_on_day_example =
    run_bars_on_day runtime 0 2 bars state (refl, (refl, (refl, tt))) refl
      (record { same_id = refl; own_id = refl; signals = refl }) (omega arith)

-- whether the cycle approved
abbrev approved : Option (CycleResult ℤ × RuntimeState ℤ) → Bool
approved none = false
approved (some (r, _)) = is_approved r.decision

cycle_approves : approved (run_cycle runtime ctx state) ≡ true
unfolding run_cycle ◌+ℤ◌ ◌-ℤ◌ ◌*ℤ◌ quot snapshot process_pending_entries derive put check combine
    evaluate make_success finalize_verdict build apply_transition dispatch position_size
    update_risk_all update_risk
cycle_approves = refl
