-- ===== src/Validation/DailyLimit.antt =====
-- The day's limit on signals over the cycles of validation/harness.py.
use mathlib.Core.Path.{subst}
use quantitative_trading.Prelude.{
  ◌≡◌, refl, sym, ap, ◌∙◌, ℕ, suc, ◌+◌, ◌≤◌, ◌<◌, Bool, true, Option, none, some, List, [], ◌∷◌,
  All, length, filter, if-intro, Post, Defined, >>=-Post, Option-cases, inl, inr, arith,
}
use quantitative_trading.Float.{Float}
use quantitative_trading.Contracts.Decision.{Decision, is_approved}
use quantitative_trading.State.Store.{get_portfolio}
use quantitative_trading.Execution.Simulator.{Engine}
use quantitative_trading.Execution.Simulated.{liquidate_open_positions}
use quantitative_trading.Execution.Trades.{IsTradeOf, liquidate-AreTrades}
use quantitative_trading.Runtime.State.{
  RuntimeConfig, RuntimeState, CycleCtx, Run, CycleResult, set_engine,
}
use quantitative_trading.Runtime.Emission.{build_features}
use quantitative_trading.Runtime.Portfolio.{day_of, take, cycle_of, apply_all}
use quantitative_trading.Runtime.Cycle.{start, run_cycle}
use quantitative_trading.Runtime.Counts.{same, Holds, IsAt, IsTaken, take-IsTaken, apply_all-IsAt}
use quantitative_trading.Runtime.Steps.{carried, counted}
use quantitative_trading.Runtime.Trading.{Executes}
use quantitative_trading.Runtime.DailySignals.{IsCounted, run_cycle-IsCounted}
use quantitative_trading.Validation.Harness.{run_bars, is_of, is_empty, liquidate_with, liquidate}

carried_le : (day : Option ℕ) (today n : ℕ) → carried day today n ≤ n
carried_le none today n = omega arith
carried_le (some day) today n = ground arith

module _ {F : Type 0} ⦃o : Float F⦄ (config : RuntimeConfig F) where
  abbrev pub limit : ℕ
  limit = config.engine.risk.max_signals_per_day

  -- The store holds the runtime's portfolio, and no more signals than the day's limit.
  abbrev pub IsWithin : RuntimeState F → Type 0
  IsWithin state = (m : ℕ) × Holds config m state.store × (m ≤ limit)

  -- an approval was made on a snapshot with fewer signals than the limit
  abbrev pub IsAllowed : CycleResult F → Type 0
  IsAllowed r = is_approved r.decision ≡ true → r.snapshot.risk.signals_today < limit

  -- one result for each bar, each allowed, and the limit kept
  abbrev pub IsRun : (bars : ℕ) → List (CycleResult F) × RuntimeState F → Type 0
  IsRun bars r = (length r.0 ≡ bars) × All IsAllowed r.0 × IsWithin r.1

  counted_le :
      (d : Decision F) (n : ℕ)
      → (is_approved d ≡ true → n < limit)
      → n ≤ limit
      → counted d n ≤ limit
  counted_le d n h k = ground arith

  -- how many of the results are approvals
  abbrev pub approvals : List (CycleResult F) → ℕ
  approvals rs = length (filter (λ r. is_approved r.decision) rs)

  -- the features of a bar can be built
  abbrev pub Builds : (strict : Bool) → CycleCtx F → Type 0
  Builds strict ctx = (run : Run F) → Defined strict (build_features config ctx run)

  -- the day of a bar
  abbrev pub IsOn : ℕ → CycleCtx F → Type 0
  IsOn d ctx = day_of config ctx ctx.event_time ≡ d

  -- the signals counted at the end of a day, from those at its start
  abbrev pub AreCounted : (n : ℕ) → List (CycleResult F) × RuntimeState F → Type 0
  AreCounted n r = Holds config (n + approvals r.0) r.1.store × (n + approvals r.0 ≤ limit)

  module _ (strict : Bool) (executes : Executes F strict) where
    pub run_bars-IsRun :
        (bars : List (CycleCtx F)) (state : RuntimeState F)
        → All (Builds strict) bars
        → IsWithin state
        → Post strict (IsRun (length bars)) (run_bars config bars state)
    unfolding run_bars
    run_bars-IsRun [] state builds h = (refl, tt, h)
    run_bars-IsRun (ctx ∷ rest) state (build, builds) (n, held, le) =
        let m = carried state.signals_day (day_of config ctx ctx.event_time) n in
        >>=-Post strict (IsCounted config ctx m) (IsRun (suc (length rest)))
          (run_cycle config ctx state) _
          (run_cycle-IsCounted strict config ctx executes n state build held)
          λ (r, state') c.
            let small = carried_le state.signals_day (day_of config ctx ctx.event_time) n in
            let m_le : m ≤ limit = omega (arith, small) in
            >>=-Post strict (IsRun (length rest)) (IsRun (suc (length rest)))
              (run_bars config rest state') _
              (run_bars-IsRun rest state' builds
                (counted r.decision m, c.holds, counted_le r.decision m c.allowed m_le))
              λ (rs, end) (len, all_allowed, within).
                (ap suc len, (λ yes_. omega (arith, c.before, c.allowed yes_), all_allowed), within)

    pub run_bars-AreCounted :
        (d n : ℕ) (bars : List (CycleCtx F)) (state : RuntimeState F)
        → All (Builds strict) bars
        → All (IsOn d) bars
        → state.signals_day ≡ some d
        → Holds config n state.store
        → n ≤ limit
        → Post strict (AreCounted n) (run_bars config bars state)
    unfolding run_bars
    run_bars-AreCounted d n [] state builds days on held le =
        (subst (λ m. Holds config m state.store) (omega arith) held, omega arith)
    run_bars-AreCounted d n (ctx ∷ rest) state (build, builds) (day, days) on held le =
        let today = day_of config ctx ctx.event_time in
        let m = carried state.signals_day today n in
        let same_day : m ≡ n = rw (on, day) (ground arith) in
        >>=-Post strict (IsCounted config ctx m) (AreCounted n) (run_cycle config ctx state) _
          (run_cycle-IsCounted strict config ctx executes n state build held)
          λ (r, state') c.
            >>=-Post strict (AreCounted (counted r.decision m)) (AreCounted n)
              (run_bars config rest state') _
              (run_bars-AreCounted d (counted r.decision m) rest state' builds days
                (c.on_day ∙ ap some day) c.holds
                (counted_le r.decision m c.allowed (omega (arith, same_day))))
              λ (rs, end) (held', le').
                let total : counted r.decision m + approvals rs ≡ n + approvals (r ∷ rs) =
                  ground (arith, same_day) in
                (subst (λ k. Holds config k end.store) total held', omega (arith, total))

    liquidate_with-IsWithin :
        (ctx : CycleCtx F) (engine : Engine F) (state : RuntimeState F)
        → IsWithin state
        → Post strict
            (λ r. IsWithin r.state)
            (liquidate_with config ctx engine (start config ctx state))
    unfolding liquidate_with
    liquidate_with-IsWithin ctx engine state (n, held, le) =
        let day = state.signals_day in
        >>=-Post strict (IsTaken strict config ctx day n) (λ r. IsWithin r.state)
          (take config ctx (start config ctx state)) _
          (take-IsTaken strict config ctx day n (start config ctx state)
            (record { holds = held; on_day = refl }))
          λ (snap, taken) t.
            let done = liquidate_open_positions ctx.bar snap (cycle_of config ctx) engine in
            >>=-Post strict (IsAt config day n) (λ r. IsWithin r.state)
              (apply_all config ctx done.0.transitions (set_engine done.1 taken)) _
              (apply_all-IsAt strict config ctx day n done.0.transitions (set_engine done.1 taken)
                (subst (λ i. All (IsTradeOf i) done.0.transitions) t.own_id
                  (liquidate-AreTrades ctx.bar snap (cycle_of config ctx) engine))
                (record { holds = t.at.holds; on_day = t.at.on_day }))
              λ closed c. (n, c.holds, le)

    pub liquidate-IsWithin :
        (ctx : CycleCtx F) (state : RuntimeState F)
        → IsWithin state
        → Post strict IsWithin (liquidate config ctx state)
    unfolding liquidate get_portfolio
    liquidate-IsWithin ctx state (n, held, le) = elim (Option-cases state.execution_engine) [
      | inl e ↦ rw (liquidate, e) (n, held, le)
      | inr (engine, e) ↦
          rw (liquidate, e, same (sym held.same_id))
            (if-intro (Post strict IsWithin)
              (is_empty config
                (filter (is_of config ctx.symbol) state.store.portfolio.open_positions))
              (λ _. (n, held, le))
              λ _.
                >>=-Post strict (λ r. IsWithin r.state) IsWithin
                  (liquidate_with config ctx engine (start config ctx state)) _
                  (liquidate_with-IsWithin ctx engine state (n, held, le)) λ closed h. h)
    ]
