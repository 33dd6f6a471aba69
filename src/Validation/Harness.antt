-- ===== src/Validation/Harness.antt =====
-- `ValidationHarness.run` of validation/harness.py: the cycles of a backtest and the liquidation at its
-- end. What the data provider and the clock give is the context of each cycle. Progress messages and
-- metrics are left out; `none` is an error that is raised.
use quantitative_trading.Prelude.{
  ℕ, zero, suc, Bool, Option, none, some, List, [], ◌∷◌, String, str_eq, leb, length, filter,
  if◌then◌else◌, ◌>>=◌,
}
use quantitative_trading.Float.{Float}
use quantitative_trading.Contracts.State.{PositionState}
use quantitative_trading.State.Store.{get_portfolio}
use quantitative_trading.Execution.Simulator.{Engine}
use quantitative_trading.Execution.Simulated.{liquidate_open_positions}
use quantitative_trading.Events.Bus.{publish_many}
use quantitative_trading.Runtime.State.{
  RuntimeConfig, RuntimeState, CycleCtx, Run, CycleResult, set_engine,
}
use quantitative_trading.Runtime.Portfolio.{cycle_of, take, apply_all}
use quantitative_trading.Runtime.Cycle.{start, run_cycle}

-- `bar_times[skip:]`
abbrev pub drop {ℓ} : {A : Type ℓ} → ℕ → List A → List A
drop zero xs = xs
drop (suc n) [] = []
drop (suc n) (x ∷ xs) = drop n xs

-- `bar_times[-1]`
abbrev pub last {ℓ} : {A : Type ℓ} → List A → Option A
last [] = none
last (x ∷ []) = some x
last (x ∷ y ∷ xs) = last (y ∷ xs)

module _ {F : Type 0} ⦃o : Float F⦄ (config : RuntimeConfig F) where
  -- the loop over the bars, with the results that it retains
  unfoldable pub run_bars :
      List (CycleCtx F) → RuntimeState F → Option (List (CycleResult F) × RuntimeState F)
  unfolding run_cycle
  run_bars [] state = some ([], state)
  run_bars (ctx ∷ rest) state = do
    (result, state') ← run_cycle config ctx state
    (results, end) ← run_bars rest state'
    some (result ∷ results, end)

  abbrev pub is_of : String → PositionState F → Bool
  is_of symbol p = str_eq p.symbol symbol

  abbrev pub is_empty {ℓ} : {A : Type ℓ} → List A → Bool
  is_empty [] = Bool.true
  is_empty (_ ∷ _) = Bool.false

  -- `_liquidate_open_positions` with an execution engine, for positions that are open
  unfoldable pub liquidate_with : CycleCtx F → Engine F → Run F → Option (Run F)
  unfolding take apply_all liquidate_open_positions publish_many
  liquidate_with ctx engine run = do
    (snap, run') ← take config ctx run
    let done = liquidate_open_positions ctx.bar snap (cycle_of config ctx) engine
    closed ← apply_all config ctx done.0.transitions (set_engine done.1 run')
    some (record closed {
      state = record closed.state { bus = publish_many done.0.events closed.state.bus };
    })

  -- The context is that of the last bar, under the correlation id `val_liquidate_…`.
  unfoldable pub liquidate : CycleCtx F → RuntimeState F → Option (RuntimeState F)
  unfolding liquidate_with get_portfolio
  liquidate ctx state = elim state.execution_engine [
    | none ↦ some state
    | some engine ↦ do
      portfolio ← get_portfolio config.portfolio_id state.store
      if is_empty (filter (is_of ctx.symbol) portfolio.open_positions)
          then some state
          else (do run ← liquidate_with ctx engine (start config ctx state); some run.state)
  ]

  -- `run` with `retain_cycles`, from the bars that the data provider has to the liquidation; the metrics
  -- that it computes then are left out. `end` names the liquidation's correlation id.
  unfoldable pub simulate :
      (skip : ℕ)
      → (end : CycleCtx F → String) → List (CycleCtx F)
      → RuntimeState F
      → Option (List (CycleResult F) × RuntimeState F)
  unfolding run_bars liquidate
  simulate skip end bars state = if leb (length bars) skip then none else (do
    (results, after) ← run_bars (drop skip bars) state
    final ← last (drop skip bars)
    closed ← liquidate (record final { cycle_id = end final }) after
    some (results, closed))
