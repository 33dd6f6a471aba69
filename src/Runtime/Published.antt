-- ===== src/Runtime/Published.antt =====
-- What a cycle of runtime/platform_runtime.py publishes: its own events, then those of its execution.
use quantitative_trading.Prelude.{◌≡◌, refl, ◌∙◌, ap, false, List, [], ◌++◌, map, Keeps, >>=-Post}
use quantitative_trading.Float.{Float}
use quantitative_trading.Contracts.Signal.{MarketContext}
use quantitative_trading.Contracts.Event.{EventEnvelope}
use quantitative_trading.Events.Bus.{Bus}
use quantitative_trading.Events.Delivery.{given, publish_many-given}
use quantitative_trading.Features.Store.{FeatureSet}
use quantitative_trading.Runtime.State.{RuntimeConfig, RuntimeState, CycleCtx, Run, CycleResult}
use quantitative_trading.Runtime.Emission.{emit_candle_received, build_features}
use quantitative_trading.Runtime.Portfolio.{
  take, pre_decision_evaluate, maybe_reset_daily_risk, revalue_at_close,
}
use quantitative_trading.Runtime.Signals.{collect_provider_signals}
use quantitative_trading.Runtime.Decide.{decide}
use quantitative_trading.Runtime.Cycle.{
  same_bar_exit_and_execute, finish, prepare, conclude, start, run_cycle,
}
use quantitative_trading.Runtime.Causation.{IsCausal, candle-IsTraced, signals-IsTraced}
use quantitative_trading.Runtime.Traces.{
  Traced, take-Traced, pre_decision_evaluate-Traced, build_features-Traced, maybe_reset-Traced,
  revalue-Traced, decide-Traced, executed-Traced,
}

-- The events of a result and what the bus has been given.
pub record IsPublished {F : Type 0} (config : RuntimeConfig F) (bus : Bus F)
    (r : CycleResult F × RuntimeState F) : Type 0 where
  pub own : List (EventEnvelope F)
  pub split : r.0.events ≡ own ++ r.0.execution_events
  pub causal : IsCausal [] own
  pub silent : config.emit_events ≡ false → own ≡ []
  pub published : r.1.bus.published ≡ bus.published ++ r.0.events
  pub delivered : r.1.bus.handlers ≡ map (given r.0.events) bus.handlers

module _ {F : Type 0} ⦃o : Float F⦄ (config : RuntimeConfig F) (ctx : CycleCtx F)
    (bus : Bus F) where
  conclude-IsPublished :
      (fs : FeatureSet F) (context : MarketContext F) (run : Run F)
      → Traced config ctx bus run
      → Keeps (IsPublished config bus) (conclude config ctx fs context run)
  unfolding conclude finish
  conclude-IsPublished fs context run t =
      >>=-Post false (λ r. Traced config ctx bus r.1) (IsPublished config bus) (take config ctx run)
        _ (take-Traced config ctx bus run t)
        λ (snap, taken) t₁.
          let asked = collect_provider_signals config ctx fs context taken in
          >>=-Post false (λ r. Traced config ctx bus r.1) (IsPublished config bus)
            (decide config ctx asked.0 context snap asked.1) _
            (decide-Traced config ctx bus asked.0 context snap asked.1
              (signals-IsTraced config ctx bus fs context taken t₁))
            λ (d, decided) t₂.
              >>=-Post false (Traced config ctx bus) (IsPublished config bus)
                (same_bar_exit_and_execute config ctx d decided) _
                (executed-Traced config ctx bus d decided t₂)
                λ executed t₃.
                  let events = executed.events ++ executed.execution_events in
                  let (handled, remembered) = publish_many-given events executed.state.bus in
                  record {
                    own = executed.events;
                    split = refl;
                    causal = t₃.causal;
                    silent = t₃.silent;
                    published = remembered ∙ ap (λ b. b.published ++ events) t₃.unpublished;
                    delivered = handled ∙ ap (λ b. map (given events) b.handlers) t₃.unpublished;
                  }

  prepare-Traced :
      (run : Run F)
      → Traced config ctx bus run
      → Keeps (λ r. Traced config ctx bus r.2) (prepare config ctx run)
  unfolding prepare
  prepare-Traced run t =
      let End = λ (r : FeatureSet F × MarketContext F × Run F). Traced config ctx bus r.2 in
      >>=-Post false (Traced config ctx bus) End (pre_decision_evaluate config ctx run) _
        (pre_decision_evaluate-Traced config ctx bus run t)
        λ evaluated t₁.
          let seen = emit_candle_received config ctx evaluated in
          >>=-Post false End End (build_features config ctx seen) _
            (build_features-Traced config ctx bus seen
              (candle-IsTraced config ctx bus evaluated t₁))
            λ (fs, context, built) t₂.
              >>=-Post false (Traced config ctx bus) End
                (maybe_reset_daily_risk config ctx built.state.signals_day built) _
                (maybe_reset-Traced config ctx bus built.state.signals_day built t₂)
                λ reset t₃.
                  >>=-Post false (Traced config ctx bus) End (revalue_at_close config ctx reset) _
                    (revalue-Traced config ctx bus reset t₃) λ valued t₄. t₄

module _ {F : Type 0} ⦃o : Float F⦄ (config : RuntimeConfig F) (ctx : CycleCtx F) where
  -- The events of a cycle are its own and then those of its execution. Each of its own names as its cause
  -- none or an event of its own that stands before it, and there are none of its own where events are not
  -- emitted. The bus remembers them after those it had, and each handler is given those it accepts.
  pub run_cycle-IsPublished :
      (state : RuntimeState F) → Keeps (IsPublished config state.bus) (run_cycle config ctx state)
  unfolding run_cycle
  run_cycle-IsPublished state =
      >>=-Post false (λ r. Traced config ctx state.bus r.2) (IsPublished config state.bus)
        (prepare config ctx (start config ctx state)) _
        (prepare-Traced config ctx state.bus (start config ctx state)
          (record { causal = tt; cause = tt; silent = λ _. refl; unpublished = refl }))
        λ (fs, context, run) t. conclude-IsPublished config ctx state.bus fs context run t
