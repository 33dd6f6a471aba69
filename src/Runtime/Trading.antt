-- ===== src/Runtime/Trading.antt =====
-- `_same_bar_exit_and_execute` of runtime/platform_runtime.py under the view of Counts.
use quantitative_trading.Prelude.{
  sym, ℕ, Bool, false, Option, none, some, if-intro, Post, Defined, >>=-Post, Post-Keeps,
  Option-cases, inl, inr,
}
use quantitative_trading.Float.{Float}
use quantitative_trading.Contracts.State.{PortfolioState, StateSnapshot}
use quantitative_trading.Contracts.Decision.{Decision, is_approved}
use quantitative_trading.Contracts.Execution.{Bar}
use quantitative_trading.State.Store.{get_portfolio}
use quantitative_trading.Execution.Simulator.{Engine, Cycle}
use quantitative_trading.Execution.Orders.{execute}
use quantitative_trading.Execution.Trades.{Trades, execute-AreTrades}
use quantitative_trading.Runtime.State.{RuntimeConfig, CycleCtx, Run}
use quantitative_trading.Runtime.Portfolio.{take, cycle_of, is_flat}
use quantitative_trading.Runtime.Cycle.{
  same_bar_exit, execute_with, execute_run, exit_and_execute, same_bar_exit_and_execute, finish,
}
use quantitative_trading.Runtime.Counts.{
  same, IsAt, IsTaken, take-IsTaken, absorb-IsAt, evaluate_with-IsAt,
}

-- The calls that may raise an error: of `execute`, and of the features of a bar.
abbrev pub Executes : (F : Type 0) ⦃o : Float F⦄ → (strict : Bool) → Type 0
Executes F strict =
    (decision : Decision F) (snap : StateSnapshot F) (bar : Bar F) (cycle : Cycle)
    (engine : Engine F)
    → Defined strict (execute decision snap bar cycle engine)

module _ {F : Type 0} ⦃o : Float F⦄ (strict : Bool) (config : RuntimeConfig F) (ctx : CycleCtx F)
    (executes : Executes F strict) where
  module _ (day : Option ℕ) (n : ℕ) where
    exit-IsAt :
        (d : Decision F) (portfolio : PortfolioState F) (engine : Engine F) (run : Run F)
        → IsAt config day n run
        → Post strict (IsAt config day n) (same_bar_exit config ctx d portfolio engine run)
    unfolding same_bar_exit
    exit-IsAt d portfolio engine run k = elim (Option-cases d.final_signal) [
      | inl e ↦ rw (same_bar_exit, e) k
      | inr (signal, e) ↦
          rw (same_bar_exit, e)
            (if-intro (Post strict (IsAt config day n)) (is_flat config ctx portfolio) (λ _. k)
              (λ _.
                evaluate_with-IsAt strict config ctx day n (some signal.side) false engine run k))
    ]

    execute_with-IsAt :
        (d : Decision F) (engine : Engine F) (run : Run F)
        → IsAt config day n run
        → Post strict (IsAt config day n) (execute_with config ctx d engine run)
    unfolding execute_with
    execute_with-IsAt d engine run k =
        >>=-Post strict (IsTaken strict config ctx day n) (IsAt config day n) (take config ctx run)
          _ (take-IsTaken strict config ctx day n run k)
          λ (snap, run') t.
            let call = execute d snap ctx.bar (cycle_of config ctx) engine in
            >>=-Post strict (Trades snap) (IsAt config day n) call _
              (Post-Keeps strict (Trades snap) call
                (executes d snap ctx.bar (cycle_of config ctx) engine)
                (execute-AreTrades d snap ctx.bar (cycle_of config ctx) engine))
              λ r trades. absorb-IsAt strict config ctx day n snap r run' t.own_id trades t.at

    execute_run-IsAt :
        (d : Decision F) (engine : Option (Engine F)) (run : Run F)
        → IsAt config day n run
        → Post strict (IsAt config day n) (execute_run config ctx d engine run)
    execute_run-IsAt d none run k = k
    execute_run-IsAt d (some engine) run k = execute_with-IsAt d engine run k

    pub exit_and_execute-IsAt :
        (d : Decision F) (engine : Engine F) (run : Run F)
        → IsAt config day n run
        → Post strict (IsAt config day n) (exit_and_execute config ctx d engine run)
    unfolding exit_and_execute get_portfolio
    exit_and_execute-IsAt d engine run k = rw (same (sym k.holds.same_id)) (
        >>=-Post strict (IsAt config day n) (IsAt config day n)
          (same_bar_exit config ctx d run.state.store.portfolio engine run) _
          (exit-IsAt d run.state.store.portfolio engine run k)
          λ run' k'. execute_run-IsAt d run'.state.execution_engine run' k')

    pub executed-IsAt :
        (d : Decision F) (run : Run F)
        → IsAt config day n run
        → Post strict (IsAt config day n) (same_bar_exit_and_execute config ctx d run)
    unfolding same_bar_exit_and_execute
    executed-IsAt d run k = elim (Option-cases run.state.execution_engine) [
      | inl e ↦ rw (same_bar_exit_and_execute, e) k
      | inr (engine, e) ↦
          rw (same_bar_exit_and_execute, e)
            (if-intro (Post strict (IsAt config day n)) (is_approved d)
              (λ _. exit_and_execute-IsAt d engine run k) (λ _. k))
    ]

    pub finish-IsAt :
        (run : Run F) → IsAt config day n run → IsAt config day n (finish config ctx run)
    unfolding finish
    finish-IsAt run k = record { holds = k.holds; on_day = k.on_day }
