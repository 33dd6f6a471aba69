-- ===== src/Runtime/DailySignals.antt =====
-- The signals that a cycle of runtime/platform_runtime.py counts against the day's limit.
use mathlib.Core.Path.{subst}
use quantitative_trading.Prelude.{◌≡◌, refl, sym, ℕ, ◌<◌, Bool, true, some, Post, Defined, >>=-Post}
use quantitative_trading.Float.{Float}
use quantitative_trading.Contracts.Signal.{MarketContext}
use quantitative_trading.Contracts.Decision.{is_approved}
use quantitative_trading.Engine.Verdict.{IsConsistent}
use quantitative_trading.Features.Store.{FeatureSet}
use quantitative_trading.Runtime.State.{RuntimeConfig, RuntimeState, CycleCtx, Run, CycleResult}
use quantitative_trading.Runtime.Emission.{emit_candle_received, build_features}
use quantitative_trading.Runtime.Portfolio.{
  take, day_of, pre_decision_evaluate, maybe_reset_daily_risk, revalue_at_close,
}
use quantitative_trading.Runtime.Signals.{collect_provider_signals}
use quantitative_trading.Runtime.Decide.{decide}
use quantitative_trading.Runtime.Cycle.{
  same_bar_exit_and_execute, prepare, conclude, start, run_cycle,
}
use quantitative_trading.Runtime.Counts.{
  Holds, IsAt, IsTaken, take-IsTaken, pre_decision_evaluate-IsAt, revalue_at_close-IsAt,
}
use quantitative_trading.Runtime.Trading.{Executes, executed-IsAt, finish-IsAt}
use quantitative_trading.Runtime.Steps.{
  carried, counted, IsDecided, candle-IsAt, build_features-IsAt, maybe_reset-IsAt, signals-IsAt,
  decide-IsDecided,
}

module _ {F : Type 0} ⦃o : Float F⦄ (config : RuntimeConfig F) (ctx : CycleCtx F) where
  -- What is known of a cycle's outcome, when this many signals had been counted before its decision.
  pub record IsCounted (n : ℕ) (r : CycleResult F × RuntimeState F) : Type 0 where
    pub holds : Holds config (counted r.0.decision n) r.1.store
    pub on_day : r.1.signals_day ≡ some (day_of config ctx ctx.event_time)
    pub before : r.0.snapshot.risk.signals_today ≡ n
    pub allowed : is_approved r.0.decision ≡ true → n < config.engine.risk.max_signals_per_day
    pub consistent : IsConsistent r.0.snapshot r.0.decision

module _ {F : Type 0} ⦃o : Float F⦄ (strict : Bool) (config : RuntimeConfig F) (ctx : CycleCtx F)
    (executes : Executes F strict) where
  conclude-IsCounted :
      (n : ℕ) (fs : FeatureSet F) (context : MarketContext F) (run : Run F)
      → IsAt config (some (day_of config ctx ctx.event_time)) n run
      → Post strict (IsCounted config ctx n) (conclude config ctx fs context run)
  unfolding conclude
  conclude-IsCounted n fs context run k =
      let day = some (day_of config ctx ctx.event_time) in
      >>=-Post strict (IsTaken strict config ctx day n) (IsCounted config ctx n)
        (take config ctx run) _ (take-IsTaken strict config ctx day n run k)
        λ (snap, taken) t.
          let asked = collect_provider_signals config ctx fs context taken in
          >>=-Post strict (IsDecided strict config ctx day n snap) (IsCounted config ctx n)
            (decide config ctx asked.0 context snap asked.1) _
            (decide-IsDecided strict config ctx day n snap asked.0 context asked.1 t.signals
              (signals-IsAt config ctx day n fs context taken t.at))
            λ (d, decided) i.
              >>=-Post strict (IsAt config day (counted d n)) (IsCounted config ctx n)
                (same_bar_exit_and_execute config ctx d decided) _
                (executed-IsAt strict config ctx executes day (counted d n) d decided i.at)
                λ executed e.
                  let f = finish-IsAt strict config ctx executes day (counted d n) executed e in
                  record {
                    holds = f.holds;
                    on_day = f.on_day;
                    before = t.signals;
                    allowed = i.allowed;
                    consistent = i.consistent;
                  }

  prepare-IsAt :
      (n : ℕ) (run : Run F)
      → ((run : Run F) → Defined strict (build_features config ctx run))
      → IsAt config run.state.signals_day n run
      → Post strict
          (λ r.
            IsAt config
              (some (day_of config ctx ctx.event_time))
              (carried run.state.signals_day (day_of config ctx ctx.event_time) n)
              r.2)
          (prepare config ctx run)
  unfolding prepare
  prepare-IsAt n run builds k =
      let day = run.state.signals_day in
      let today = day_of config ctx ctx.event_time in
      let m = carried day today n in
      let End = λ (r : FeatureSet F × MarketContext F × Run F). IsAt config (some today) m r.2 in
      >>=-Post strict (IsAt config day n) End (pre_decision_evaluate config ctx run) _
        (pre_decision_evaluate-IsAt strict config ctx day n run k)
        λ evaluated e.
          let seen = emit_candle_received config ctx evaluated in
          >>=-Post strict (λ r. IsAt config day n r.2) End (build_features config ctx seen) _
            (build_features-IsAt strict config ctx day n seen (builds seen)
              (candle-IsAt config ctx day n evaluated e))
            λ (fs, context, built) b.
              >>=-Post strict (IsAt config (some today) m) End
                (maybe_reset_daily_risk config ctx built.state.signals_day built) _
                (subst
                  (λ d.
                    Post strict (IsAt config (some today) m)
                      (maybe_reset_daily_risk config ctx d built))
                  (sym b.on_day) (maybe_reset-IsAt strict config ctx day n built b))
                λ reset r.
                  >>=-Post strict (IsAt config (some today) m) End
                    (revalue_at_close config ctx reset) _
                    (revalue_at_close-IsAt strict config ctx (some today) m reset r) λ valued v. v

  pub run_cycle-IsCounted :
      (n : ℕ) (state : RuntimeState F)
      → ((run : Run F) → Defined strict (build_features config ctx run))
      → Holds config n state.store
      → Post strict
          (IsCounted config ctx (carried state.signals_day (day_of config ctx ctx.event_time) n))
          (run_cycle config ctx state)
  unfolding run_cycle
  run_cycle-IsCounted n state builds k =
      let today = day_of config ctx ctx.event_time in
      let m = carried state.signals_day today n in
      >>=-Post strict (λ r. IsAt config (some today) m r.2) (IsCounted config ctx m)
        (prepare config ctx (start config ctx state)) _
        (prepare-IsAt n (start config ctx state) builds (record { holds = k; on_day = refl }))
        λ (fs, context, run) at. conclude-IsCounted m fs context run at
