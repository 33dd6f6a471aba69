-- ===== src/Runtime/Signals.antt =====
-- `_collect_provider_signals` of runtime/platform_runtime.py.
use quantitative_trading.Prelude.{List, [], ◌∷◌, ◌++◌, if◌then◌else◌}
use quantitative_trading.Contracts.Signal.{StrategySignal, MarketContext}
use quantitative_trading.Contracts.Event.{EventFamily, EventType, skipped, opinion}
use quantitative_trading.Features.Store.{FeatureSet}
use quantitative_trading.Runtime.State.{Provider, RuntimeConfig, CycleCtx, Run}
use quantitative_trading.Runtime.Emission.{emit_leaf}

module _ {F : Type 0} (config : RuntimeConfig F) (ctx : CycleCtx F) (fs : FeatureSet F)
    (context : MarketContext F) where
  abbrev pub emit_skipped : Provider F → Run F → Run F
  emit_skipped provider run =
      if config.emit_events
      then emit_leaf config ctx EventFamily.signal EventType.provider_skipped
          (skipped provider.provider_id "disabled") run
      else run

  abbrev pub emit_opinion : Provider F → StrategySignal F → Run F → Run F
  emit_opinion provider signal run =
      if config.emit_events
      then emit_leaf config ctx EventFamily.signal EventType.provider_opinion
          (opinion provider.provider_id signal.side signal.confidence signal.rationale) run
      else run

  -- one round of the loop
  unfoldable pub ask :
      Provider F → List (StrategySignal F) × Run F → List (StrategySignal F) × Run F
  unfolding emit_leaf
  ask provider (signals, run) =
      let signal = provider.analyze fs context in
      if provider.enabled
      then (signals ++ (signal ∷ []), emit_opinion provider signal run)
      else (signals, emit_skipped provider run)

  unfoldable pub ask_all :
      List (Provider F) → List (StrategySignal F) × Run F → List (StrategySignal F) × Run F
  unfolding ask
  ask_all [] so_far = so_far
  ask_all (provider ∷ rest) so_far = ask_all rest (ask provider so_far)

  unfoldable pub collect_provider_signals : Run F → List (StrategySignal F) × Run F
  unfolding ask_all
  collect_provider_signals run = ask_all config.providers ([], run)
