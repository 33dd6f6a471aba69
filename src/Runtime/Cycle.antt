-- ===== src/Runtime/Cycle.antt =====
-- `_same_bar_exit_and_execute` and `run_cycle` of runtime/platform_runtime.py.
use quantitative_trading.Prelude.{false, Option, none, some, List, [], ◌++◌, if◌then◌else◌, ◌>>=◌}
use quantitative_trading.Float.{Float}
use quantitative_trading.Contracts.State.{PortfolioState, StateSnapshot}
use quantitative_trading.Contracts.Signal.{StrategySignal, MarketContext}
use quantitative_trading.Contracts.Decision.{Decision, is_approved}
use quantitative_trading.State.Store.{get_portfolio}
use quantitative_trading.Execution.Simulator.{Engine}
use quantitative_trading.Execution.Orders.{execute}
use quantitative_trading.Events.Bus.{publish_many}
use quantitative_trading.Features.Store.{FeatureSet}
use quantitative_trading.Runtime.State.{RuntimeConfig, RuntimeState, CycleCtx, Run, CycleResult}
use quantitative_trading.Runtime.Emission.{emit_candle_received, build_features}
use quantitative_trading.Runtime.Portfolio.{
  cycle_of, take, absorb, evaluate_with, pre_decision_evaluate, maybe_reset_daily_risk, is_flat,
  revalue_at_close,
}
use quantitative_trading.Runtime.Signals.{collect_provider_signals}
use quantitative_trading.Runtime.Decide.{decide}

module _ {F : Type 0} ⦃o : Float F⦄ (config : RuntimeConfig F) (ctx : CycleCtx F) where
  -- the exit on the signal's side, for a decision that has a signal and a portfolio that is not flat
  unfoldable pub same_bar_exit : Decision F → PortfolioState F → Engine F → Run F → Option (Run F)
  unfolding evaluate_with
  same_bar_exit decision portfolio engine run = elim decision.final_signal [
    | none ↦ some run
    | some signal ↦
        if is_flat config ctx portfolio
        then some run
        else evaluate_with config ctx (some signal.side) false engine run
  ]

  -- a snapshot, and `execute` on it
  unfoldable pub execute_with : Decision F → Engine F → Run F → Option (Run F)
  unfolding take absorb execute
  execute_with decision engine run = do
    (snap, run') ← take config ctx run
    done ← execute decision snap ctx.bar (cycle_of config ctx) engine
    absorb config ctx done run'

  -- the same, with the engine that the run has
  abbrev pub execute_run : Decision F → Option (Engine F) → Run F → Option (Run F)
  execute_run decision none run = some run
  execute_run decision (some engine) run = execute_with decision engine run

  unfoldable pub exit_and_execute : Decision F → Engine F → Run F → Option (Run F)
  unfolding same_bar_exit execute_with get_portfolio
  exit_and_execute decision engine run = do
    portfolio ← get_portfolio config.portfolio_id run.state.store
    run' ← same_bar_exit decision portfolio engine run
    execute_run decision run'.state.execution_engine run'

  unfoldable pub same_bar_exit_and_execute : Decision F → Run F → Option (Run F)
  unfolding exit_and_execute
  same_bar_exit_and_execute decision run = elim run.state.execution_engine [
    | none ↦ some run
    | some engine ↦ if is_approved decision then exit_and_execute decision engine run else some run
  ]

  -- `ctx.events.extend(ctx.execution_events)`, and what was gathered is published
  unfoldable pub finish : Run F → Run F
  unfolding publish_many
  finish run =
      let events = run.events ++ run.execution_events in
      record run {
        events = events;
        state = record run.state { bus = publish_many events run.state.bus };
      }

  abbrev pub result_of :
      FeatureSet F
      → MarketContext F
      → StateSnapshot F
      → List (StrategySignal F)
      → Decision F
      → Run F
      → CycleResult F
  result_of fs context snap signals decision run = record {
    correlation_id = ctx.cycle_id;
    feature_set = fs;
    context = context;
    snapshot = snap;
    signals = signals;
    decision = decision;
    events = run.events;
    execution_events = run.execution_events;
  }

  -- what precedes the decision of a bar: the features and the portfolio
  unfoldable pub prepare : Run F → Option (FeatureSet F × MarketContext F × Run F)
  unfolding pre_decision_evaluate emit_candle_received build_features maybe_reset_daily_risk
      revalue_at_close
  prepare run = do
    evaluated ← pre_decision_evaluate config ctx run
    (fs, context, built) ← build_features config ctx (emit_candle_received config ctx evaluated)
    reset ← maybe_reset_daily_risk config ctx built.state.signals_day built
    valued ← revalue_at_close config ctx reset
    some (fs, context, valued)

  -- from the decision-time snapshot on
  unfoldable pub conclude :
      FeatureSet F → MarketContext F → Run F → Option (CycleResult F × RuntimeState F)
  unfolding take collect_provider_signals decide same_bar_exit_and_execute finish
  conclude fs context run = do
    (snap, taken) ← take config ctx run
    let asked = collect_provider_signals config ctx fs context taken
    (decision, decided) ← decide config ctx asked.0 context snap asked.1
    executed ← same_bar_exit_and_execute decision decided
    let done = finish executed
    some (result_of fs context snap asked.0 decision done, done.state)

  abbrev pub start : RuntimeState F → Run F
  start state = record { state = state; events = []; causation_id = none; execution_events = [] }

  unfoldable pub run_cycle : RuntimeState F → Option (CycleResult F × RuntimeState F)
  unfolding prepare conclude
  run_cycle state = do (fs, context, run) ← prepare (start state); conclude fs context run
