-- ===== src/Runtime/Portfolio.antt =====
-- What runtime/platform_runtime.py does to the portfolio before the decision: the snapshots, the bar's
-- exits and pending entries, the reset of the day's risk, and the valuation at the close. `none` is the
-- `KeyError` of an unknown portfolio.
use quantitative_trading.Prelude.{
  ℕ, ◌/◌, ◌==◌, Bool, true, false, ◌&&◌, Option, none, some, List, [], ◌∷◌, ◌++◌, if◌then◌else◌,
  ◌>>=◌,
}
use quantitative_trading.Float.{Float}
use quantitative_trading.Contracts.State.{Instant, PortfolioState, RiskState, StateSnapshot}
use quantitative_trading.Contracts.Signal.{Side}
use quantitative_trading.State.Transitions.{
  Transition, StateTransitionEvent, RiskUpdate, risk_updated,
}
use quantitative_trading.State.Store.{
  zero_f, get_portfolio, get_risk, snapshot, apply_transition, or_raise,
}
use quantitative_trading.Execution.Simulator.{Engine, ExecutionResult, Cycle}
use quantitative_trading.Execution.Simulated.{evaluate_bar}
use quantitative_trading.Runtime.State.{RuntimeConfig, CycleCtx, Run, tick, set_store, set_engine}

module _ {F : Type 0} (config : RuntimeConfig F) (ctx : CycleCtx F) where
  -- what the methods of the execution engine are told of the bar
  abbrev pub cycle_of : Cycle
  cycle_of = record {
    symbol = ctx.symbol;
    timeframe = ctx.timeframe;
    correlation_id = ctx.cycle_id;
    event_time = ctx.event_time;
    processing_time = ctx.processing_time;
  }

  unfoldable pub take : Run F → Option (StateSnapshot F × Run F)
  take run = do
    (snap, store) ←
        snapshot config.portfolio_id (some ctx.cycle_id) (config.draw "snap_" run.state.drawn)
          (config.now run.state.drawn) run.state.store
    some (snap, set_store store (tick run))

  abbrev pub runtime_transition : Transition F → Run F → StateTransitionEvent F
  runtime_transition transition run = record {
    transition_id = config.draw "trans_" run.state.drawn;
    portfolio_id = config.portfolio_id;
    transition = transition;
    event_time = ctx.event_time;
    correlation_id = ctx.cycle_id;
  }

module _ {F : Type 0} ⦃o : Float F⦄ (config : RuntimeConfig F) (ctx : CycleCtx F) where
  unfoldable pub apply : StateTransitionEvent F → Run F → Option (Run F)
  apply event run = do
    (snap, store) ← or_raise (
        apply_transition event (config.draw "snap_" run.state.drawn) (config.now run.state.drawn)
          run.state.store)
    some (set_store store (tick run))

  -- `for transition in result.transitions: self._state_store.apply_transition(transition)`
  unfoldable pub apply_all : List (StateTransitionEvent F) → Run F → Option (Run F)
  unfolding apply
  apply_all [] run = some run
  apply_all (event ∷ events) run = do run' ← apply event run; apply_all events run'

  -- a result of the execution engine: its transitions are applied and its events are kept
  unfoldable pub absorb : ExecutionResult F × Engine F → Run F → Option (Run F)
  unfolding apply_all
  absorb (result, engine) run = do
    run' ← apply_all result.transitions (set_engine engine run)
    some (record run' { execution_events = run'.execution_events ++ result.events })

  -- a snapshot, and `evaluate_bar` on it
  unfoldable pub evaluate_with :
      (approved_side : Option Side) (increment_bars : Bool) → Engine F → Run F → Option (Run F)
  unfolding take absorb evaluate_bar
  evaluate_with approved_side increment_bars engine run = do
    (snap, run') ← take config ctx run
    absorb (evaluate_bar ctx.bar snap (cycle_of config ctx) approved_side increment_bars engine)
        run'

  unfoldable pub pre_decision_evaluate : Run F → Option (Run F)
  unfolding evaluate_with
  pre_decision_evaluate run = elim run.state.execution_engine [
    | none ↦ some run
    | some engine ↦ evaluate_with none true engine run
  ]

  -- `event_time.date()`, in UTC
  abbrev pub day_of : Instant → ℕ
  day_of event_time = event_time / 86_400_000_000

  abbrev pub set_day : ℕ → Run F → Run F
  set_day day run = record run { state = record run.state { signals_day = some day } }

  -- the day's risk is as the reset would leave it
  abbrev pub is_reset : RiskState F → F → Bool
  is_reset risk equity =
      risk.signals_today == 0
      && o.eq risk.daily_pnl zero_f
      && o.eq risk.daily_drawdown_pct zero_f
      && o.eq risk.daily_start_equity equity

  abbrev pub reset_updates : F → List (RiskUpdate F)
  reset_updates equity =
      RiskUpdate.signals_today 0
      ∷ RiskUpdate.daily_pnl zero_f
      ∷ RiskUpdate.daily_drawdown_pct zero_f
      ∷ RiskUpdate.daily_start_equity equity
      ∷ []

  -- a new day
  unfoldable pub reset_daily_risk : Run F → Option (Run F)
  unfolding apply get_risk get_portfolio
  reset_daily_risk run = do
    risk ← get_risk config.portfolio_id run.state.store
    portfolio ← get_portfolio config.portfolio_id run.state.store
    if is_reset risk portfolio.equity
        then some run
        else apply
            (runtime_transition config ctx (risk_updated (reset_updates portfolio.equity)) run)
            (tick run)

  -- `_maybe_reset_daily_risk`, by the day of the last cycle
  unfoldable pub maybe_reset_daily_risk : Option ℕ → Run F → Option (Run F)
  unfolding reset_daily_risk
  maybe_reset_daily_risk none run = some (set_day (day_of ctx.event_time) run)
  maybe_reset_daily_risk (some day) run =
      if day_of ctx.event_time == day
      then some run
      else reset_daily_risk (set_day (day_of ctx.event_time) run)

  abbrev pub is_flat : PortfolioState F → Bool
  is_flat portfolio = elim portfolio.open_positions [ [] ↦ true | _ ↦ false ]

  -- `_mark_to_market`
  unfoldable pub revalue_at_close : Run F → Option (Run F)
  unfolding apply get_portfolio
  revalue_at_close run = do
    portfolio ← get_portfolio config.portfolio_id run.state.store
    if is_flat portfolio
        then some run
        else apply
            (runtime_transition config ctx
              (Transition.mark_to_market ((ctx.symbol, ctx.bar.close) ∷ [])) run)
            (tick run)
