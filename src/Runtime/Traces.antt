-- ===== src/Runtime/Traces.antt =====
-- The steps of runtime/platform_runtime.py keep the events that they do not emit, under the view of
-- Causation.
use quantitative_trading.Prelude.{
  ◌≡◌, refl, ◌∙◌, ℕ, ◌==◌, Bool, true, false, Option, none, some, List, [], ◌∷◌, if-intro,
  if◌then◌else◌, Keeps, >>=-Post, Defined-lax, Option-cases, inl, inr,
}
use quantitative_trading.Float.{Float}
use quantitative_trading.Contracts.State.{StateSnapshot, PortfolioState}
use quantitative_trading.Contracts.Signal.{Side, StrategySignal, MarketContext}
use quantitative_trading.Contracts.Decision.{Decision, is_approved}
use quantitative_trading.State.Transitions.{StateTransitionEvent}
use quantitative_trading.State.Store.{snapshot, apply_transition, or_raise, get_portfolio, get_risk}
use quantitative_trading.Engine.DecisionEngine.{process}
use quantitative_trading.Events.Bus.{Bus}
use quantitative_trading.Execution.Simulator.{Engine, ExecutionResult}
use quantitative_trading.Execution.Orders.{execute}
use quantitative_trading.Features.Store.{FeatureSet, get}
use quantitative_trading.Features.Builder.{build}
use quantitative_trading.Runtime.State.{RuntimeConfig, CycleCtx, Run, tick, set_engine}
use quantitative_trading.Runtime.Emission.{matches, check_stored, build_features, set_features}
use quantitative_trading.Runtime.Portfolio.{
  take, apply, apply_all, absorb, evaluate_with, pre_decision_evaluate, day_of, is_reset,
  reset_daily_risk, maybe_reset_daily_risk, is_flat, revalue_at_close, cycle_of,
}
use quantitative_trading.Runtime.Decide.{request_of, emit_decision, count_signal, decide}
use quantitative_trading.Runtime.Cycle.{
  same_bar_exit, execute_with, execute_run, exit_and_execute, same_bar_exit_and_execute,
}
use quantitative_trading.Runtime.Causation.{IsTraced, features-IsTraced, decision-IsTraced}

module _ {F : Type 0} ⦃o : Float F⦄ (config : RuntimeConfig F) (ctx : CycleCtx F)
    (bus : Bus F) where
  abbrev pub Traced : Run F → Type 0
  Traced = IsTraced config ctx bus

  -- a run that differs in none of what is traced
  kept :
      (run run' : Run F)
      → run'.events ≡ run.events
      → run'.causation_id ≡ run.causation_id
      → run'.state.bus ≡ run.state.bus
      → Traced run
      → Traced run'
  kept run run' e c b t = record {
    causal = rw e t.causal;
    cause = rw (e, c) t.cause;
    silent = λ off. e ∙ t.silent off;
    unpublished = b ∙ t.unpublished;
  }

  pub take-Traced : (run : Run F) → Traced run → Keeps (λ r. Traced r.1) (take config ctx run)
  unfolding take
  take-Traced run t =
      >>=-Post false (λ _. Unit) (λ r. Traced r.1)
        (snapshot config.portfolio_id (some ctx.cycle_id) (config.draw "snap_" run.state.drawn)
          (config.now run.state.drawn) run.state.store)
        _ (Defined-lax _) λ (snap, store) _. kept run _ refl refl refl t

  apply-Traced :
      (e : StateTransitionEvent F) (run : Run F)
      → Traced run
      → Keeps Traced (apply config ctx e run)
  unfolding apply
  apply-Traced e run t =
      >>=-Post false (λ _. Unit) Traced
        (or_raise (
          apply_transition e (config.draw "snap_" run.state.drawn) (config.now run.state.drawn)
            run.state.store))
        _ (Defined-lax _) λ (snap, store) _. kept run _ refl refl refl t

  apply_all-Traced :
      (es : List (StateTransitionEvent F)) (run : Run F)
      → Traced run
      → Keeps Traced (apply_all config ctx es run)
  unfolding apply_all
  apply_all-Traced [] run t = t
  apply_all-Traced (e ∷ es) run t =
      >>=-Post false Traced Traced (apply config ctx e run) _ (apply-Traced e run t)
        λ run' t'. apply_all-Traced es run' t'

  absorb-Traced :
      (r : ExecutionResult F × Engine F) (run : Run F)
      → Traced run
      → Keeps Traced (absorb config ctx r run)
  unfolding absorb
  absorb-Traced (result, engine) run t =
      >>=-Post false Traced Traced (apply_all config ctx result.transitions (set_engine engine run))
        _
        (apply_all-Traced result.transitions (set_engine engine run) (kept run _ refl refl refl t))
        λ run' t'. kept run' _ refl refl refl t'

  evaluate_with-Traced :
      (side : Option Side) (counts : Bool) (engine : Engine F) (run : Run F)
      → Traced run
      → Keeps Traced (evaluate_with config ctx side counts engine run)
  unfolding evaluate_with
  evaluate_with-Traced side counts engine run t =
      >>=-Post false (λ r. Traced r.1) Traced (take config ctx run) _ (take-Traced run t)
        λ (snap, run') t'. absorb-Traced _ run' t'

  pub pre_decision_evaluate-Traced :
      (run : Run F) → Traced run → Keeps Traced (pre_decision_evaluate config ctx run)
  unfolding pre_decision_evaluate
  pre_decision_evaluate-Traced run t = elim (Option-cases run.state.execution_engine) [
    | inl e ↦ rw (pre_decision_evaluate, e) t
    | inr (engine, e) ↦ rw (pre_decision_evaluate, e) (evaluate_with-Traced none true engine run t)
  ]

  stored-Traced :
      (fs : FeatureSet F) (context : MarketContext F) (run : Run F)
      → Traced run
      → Keeps Traced (check_stored config ctx fs context run)
  unfolding check_stored
  stored-Traced fs context run t =
      >>=-Post false (λ _. Unit) Traced (get fs.feature_set_id run.state.feature_store) _
        (Defined-lax _)
        λ r _.
          if-intro (Keeps Traced) (matches config ctx context r.market_context) (λ _. t) (λ _. tt)

  pub build_features-Traced :
      (run : Run F) → Traced run → Keeps (λ r. Traced r.2) (build_features config ctx run)
  unfolding build_features
  build_features-Traced run t =
      >>=-Post false (λ _. Unit) (λ r. Traced r.2)
        (build config.features config.features_hash ctx.frame ctx.symbol ctx.timeframe
          ctx.processing_time config.persist_features (config.draw "fs_" run.state.drawn)
          run.state.feature_store)
        _ (Defined-lax _)
        λ (fs, context, store) _.
          let built = set_features config ctx store (tick run) in
          let t' : Traced built = kept run built refl refl refl t in
          >>=-Post false Traced (λ r. Traced r.2)
            (if config.persist_features
              then check_stored config ctx fs context built
              else some built)
            _
            (if-intro (Keeps Traced) config.persist_features
              (λ _. stored-Traced fs context built t') (λ _. t'))
            λ run' t''. features-IsTraced config ctx bus fs context run' t''

  reset-Traced : (run : Run F) → Traced run → Keeps Traced (reset_daily_risk config ctx run)
  unfolding reset_daily_risk
  reset-Traced run t =
      >>=-Post false (λ _. Unit) Traced (get_risk config.portfolio_id run.state.store) _
        (Defined-lax _)
        λ risk _.
          >>=-Post false (λ _. Unit) Traced (get_portfolio config.portfolio_id run.state.store) _
            (Defined-lax _)
            λ portfolio _.
              if-intro (Keeps Traced) (is_reset config ctx risk portfolio.equity) (λ _. t)
                λ _. apply-Traced _ (tick run) (kept run _ refl refl refl t)

  pub maybe_reset-Traced :
      (day : Option ℕ) (run : Run F)
      → Traced run
      → Keeps Traced (maybe_reset_daily_risk config ctx day run)
  unfolding maybe_reset_daily_risk
  maybe_reset-Traced none run t = kept run _ refl refl refl t
  maybe_reset-Traced (some day) run t =
      if-intro (Keeps Traced) (day_of config ctx ctx.event_time == day) (λ _. t)
        λ _. reset-Traced _ (kept run _ refl refl refl t)

  pub revalue-Traced : (run : Run F) → Traced run → Keeps Traced (revalue_at_close config ctx run)
  unfolding revalue_at_close
  revalue-Traced run t =
      >>=-Post false (λ _. Unit) Traced (get_portfolio config.portfolio_id run.state.store) _
        (Defined-lax _)
        λ portfolio _.
          if-intro (Keeps Traced) (is_flat config ctx portfolio) (λ _. t)
            λ _. apply-Traced _ (tick run) (kept run _ refl refl refl t)

  pub decide-Traced :
      (signals : List (StrategySignal F)) (context : MarketContext F) (snap : StateSnapshot F)
      (run : Run F)
      → Traced run
      → Keeps (λ r. Traced r.1) (decide config ctx signals context snap run)
  unfolding decide count_signal
  decide-Traced signals context snap run t =
      >>=-Post false (λ _. Unit) (λ r. Traced r.1)
        (process config.engine signals context snap (request_of config ctx run)) _ (Defined-lax _)
        λ d _.
          let told = emit_decision config ctx d snap (tick (tick run)) in
          let t' =
            decision-IsTraced config ctx bus d snap (tick (tick run))
              (kept run _ refl refl refl t) in
          >>=-Post false Traced (λ r. Traced r.1) (count_signal config ctx d snap told) _
            (if-intro (Keeps Traced) (is_approved d)
              (λ _. apply-Traced _ (tick told) (kept told _ refl refl refl t')) (λ _. t'))
            λ run' t''. t''

  exit-Traced :
      (d : Decision F) (portfolio : PortfolioState F) (engine : Engine F) (run : Run F)
      → Traced run
      → Keeps Traced (same_bar_exit config ctx d portfolio engine run)
  unfolding same_bar_exit
  exit-Traced d portfolio engine run t = elim (Option-cases d.final_signal) [
    | inl e ↦ rw (same_bar_exit, e) t
    | inr (signal, e) ↦
        rw (same_bar_exit, e)
          (if-intro (Keeps Traced) (is_flat config ctx portfolio) (λ _. t)
            (λ _. evaluate_with-Traced (some signal.side) false engine run t))
  ]

  execute_run-Traced :
      (d : Decision F) (engine : Option (Engine F)) (run : Run F)
      → Traced run
      → Keeps Traced (execute_run config ctx d engine run)
  unfolding execute_with
  execute_run-Traced d none run t = t
  execute_run-Traced d (some engine) run t =
      >>=-Post false (λ r. Traced r.1) Traced (take config ctx run) _ (take-Traced run t)
        λ (snap, run') t'.
          >>=-Post false (λ _. Unit) Traced (execute d snap ctx.bar (cycle_of config ctx) engine) _
            (Defined-lax _) λ r _. absorb-Traced r run' t'

  pub executed-Traced :
      (d : Decision F) (run : Run F)
      → Traced run
      → Keeps Traced (same_bar_exit_and_execute config ctx d run)
  unfolding same_bar_exit_and_execute exit_and_execute
  executed-Traced d run t = elim (Option-cases run.state.execution_engine) [
    | inl e ↦ rw (same_bar_exit_and_execute, e) t
    | inr (engine, e) ↦
        rw (same_bar_exit_and_execute, e)
          (if-intro (Keeps Traced) (is_approved d)
            (λ _.
              >>=-Post false (λ _. Unit) Traced (get_portfolio config.portfolio_id run.state.store)
                _ (Defined-lax _)
                λ portfolio _.
                  >>=-Post false Traced Traced (same_bar_exit config ctx d portfolio engine run) _
                    (exit-Traced d portfolio engine run t)
                    λ run' t'. execute_run-Traced d run'.state.execution_engine run' t')
            (λ _. t))
  ]
