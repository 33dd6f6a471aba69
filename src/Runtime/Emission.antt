-- ===== src/Runtime/Emission.antt =====
-- `_emit_candle_received` and `_build_features` of runtime/platform_runtime.py, and the envelopes that
-- the runtime builds (`build_envelope` of events/envelopes.py).
use quantitative_trading.Prelude.{
  Bool, Option, none, some, [], ◌∷◌, ◌++◌, String, if◌then◌else◌, ◌>>=◌,
}
use quantitative_trading.Float.{Float}
use quantitative_trading.Contracts.Signal.{MarketContext}
use quantitative_trading.Contracts.Event.{
  EventEnvelope, EventFamily, EventType, Payload, candle, features, market_context,
}
use quantitative_trading.Features.Store.{FeatureSet, FeatureStore, get}
use quantitative_trading.Features.Builder.{build}
use quantitative_trading.Runtime.State.{RuntimeConfig, CycleCtx, Run, tick}

module _ {F : Type 0} (config : RuntimeConfig F) (ctx : CycleCtx F) where
  abbrev pub build_envelope :
      EventFamily → EventType → Payload F → Option String → Run F → EventEnvelope F
  build_envelope family type payload causation_id run = record {
    event_id = config.draw "evt_" run.state.drawn;
    event_family = family;
    event_type = type;
    event_time = ctx.event_time;
    processing_time = ctx.processing_time;
    correlation_id = ctx.cycle_id;
    causation_id = causation_id;
    cycle_id = ctx.cycle_id;
    symbol = ctx.symbol;
    timeframe = ctx.timeframe;
    mode = config.mode;
    experiment_id = ctx.experiment_id;
    revision_id = ctx.revision_id;
    payload = payload;
  }

  -- an event that names the last cause and is not one: `ctx.events.append(event)`
  unfoldable pub emit_leaf : EventFamily → EventType → Payload F → Run F → Run F
  emit_leaf family type payload run = record (tick run) {
    events = run.events ++ (build_envelope family type payload run.causation_id run ∷ []);
  }

  -- an event that is the cause of what follows: `ctx.causation_id = event.event_id`
  unfoldable pub emit_cause : EventFamily → EventType → Payload F → Option String → Run F → Run F
  emit_cause family type payload causation_id run =
      let event = build_envelope family type payload causation_id run in
      record (tick run) { events = run.events ++ (event ∷ []); causation_id = some event.event_id }

  unfoldable pub emit_candle_received : Run F → Run F
  unfolding emit_cause
  emit_candle_received run =
      if config.emit_events
      then emit_cause EventFamily.market EventType.candle_received (candle ctx.bar) none run
      else run

  -- the events of `_build_features`
  unfoldable pub emit_features : FeatureSet F → MarketContext F → Run F → Run F
  unfolding emit_cause
  emit_features fs context run =
      let built =
        emit_cause EventFamily.market EventType.feature_set_built
          (features fs.feature_set_id fs.feature_version fs.config_hash fs.indicators fs.flags)
          run.causation_id run in
      if config.emit_events
      then emit_cause EventFamily.market EventType.market_context_derived (market_context context)
          built.causation_id built
      else run

  abbrev pub matches : MarketContext F → Option (MarketContext F) → Bool
  matches context none = Bool.false
  matches context (some stored) = config.same stored context

  -- the comparison with the stored record: a missing record or another context raises an error
  unfoldable pub check_stored : FeatureSet F → MarketContext F → Run F → Option (Run F)
  unfolding get
  check_stored fs context run = do
    stored ← get fs.feature_set_id run.state.feature_store
    if matches context stored.market_context then some run else none

module _ {F : Type 0} ⦃o : Float F⦄ (config : RuntimeConfig F) (ctx : CycleCtx F) where
  abbrev pub set_features : FeatureStore F → Run F → Run F
  set_features store run = record run { state = record run.state { feature_store = store } }

  unfoldable pub build_features : Run F → Option (FeatureSet F × MarketContext F × Run F)
  unfolding build check_stored emit_features
  build_features run = do
    (fs, context, store) ←
        build config.features config.features_hash ctx.frame ctx.symbol ctx.timeframe
          ctx.processing_time config.persist_features (config.draw "fs_" run.state.drawn)
          run.state.feature_store
    let built = set_features store (tick run)
    checked ←
        (if config.persist_features then check_stored config ctx fs context built else some built)
    some (fs, context, emit_features config ctx fs context checked)
