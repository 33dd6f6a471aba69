-- ===== src/Runtime/Causation.antt =====
-- The events of runtime/platform_runtime.py and the causes that they name.
use mathlib.Core.Path.{subst}
use quantitative_trading.Prelude.{
  ◌≡◌, refl, sym, Bool, true, false, ◌||◌, Option, none, some, List, [], ◌∷◌, ◌++◌, String, str_eq,
  eq_refl, any, if-intro, arith, append-nil, append_assoc,
}
use quantitative_trading.Contracts.State.{StateSnapshot}
use quantitative_trading.Contracts.Signal.{StrategySignal, FinalSignal, MarketContext}
use quantitative_trading.Contracts.Decision.{Decision, is_approved}
use quantitative_trading.Contracts.Event.{EventEnvelope, EventFamily, EventType, Payload}
use quantitative_trading.Events.Bus.{Bus}
use quantitative_trading.Features.Store.{FeatureSet}
use quantitative_trading.Runtime.State.{Provider, RuntimeConfig, CycleCtx, Run}
use quantitative_trading.Runtime.Emission.{
  build_envelope, emit_leaf, emit_cause, emit_candle_received, emit_features,
}
use quantitative_trading.Runtime.Signals.{ask, ask_all, collect_provider_signals}
use quantitative_trading.Runtime.Decide.{emit_published, emit_decision}

module _ {F : Type 0} where
  -- an event with this id stands in the list
  abbrev pub names : String → List (EventEnvelope F) → Bool
  names i es = any (λ e. str_eq e.event_id i) es

  -- there is no cause, or it is one of these events
  abbrev pub IsKnown : List (EventEnvelope F) → Option String → Type 0
  IsKnown earlier none = Unit
  IsKnown earlier (some i) = names i earlier ≡ true

  -- Every event names no cause or one that stands before it.
  abbrev pub IsCausal : (earlier events : List (EventEnvelope F)) → Type 0
  IsCausal earlier [] = Unit
  IsCausal earlier (e ∷ es) = IsKnown earlier e.causation_id × IsCausal (earlier ++ (e ∷ [])) es

  names-append :
      (i : String) (es fs : List (EventEnvelope F))
      → names i (es ++ fs) ≡ (names i es || names i fs)
  names-append i [] fs = refl
  names-append i (e ∷ es) fs = ground (arith, names-append i es fs)

  IsKnown-append :
      (es fs : List (EventEnvelope F)) (c : Option String) → IsKnown es c → IsKnown (es ++ fs) c
  IsKnown-append es fs none h = tt
  IsKnown-append es fs (some i) h = ground (arith, names-append i es fs)

  IsKnown-last :
      (es : List (EventEnvelope F)) (e : EventEnvelope F)
      → IsKnown (es ++ (e ∷ [])) (some e.event_id)
  IsKnown-last es e = ground (arith, names-append e.event_id es (e ∷ []), eq_refl e.event_id)

  IsCausal-last :
      (earlier es : List (EventEnvelope F)) (e : EventEnvelope F)
      → IsCausal earlier es
      → IsKnown (earlier ++ es) e.causation_id
      → IsCausal earlier (es ++ (e ∷ []))
  IsCausal-last earlier [] e h k = (rw (← append-nil earlier) k, tt)
  IsCausal-last earlier (d ∷ es) e (h, hs) k = (
    h,
    IsCausal-last (earlier ++ (d ∷ [])) es e hs
        (subst (λ ds. IsKnown ds e.causation_id) (sym (append_assoc earlier (d ∷ []) es)) k),
  )

module _ {F : Type 0} (config : RuntimeConfig F) (ctx : CycleCtx F) (bus : Bus F) where
  -- The events so far, the cause of the next one, and a bus that has not been given any of them.
  pub record IsTraced (run : Run F) : Type 0 where
    pub causal : IsCausal [] run.events
    pub cause : IsKnown run.events run.causation_id
    pub silent : config.emit_events ≡ false → run.events ≡ []
    pub unpublished : run.state.bus ≡ bus

  leaf-IsTraced :
      (on : config.emit_events ≡ true) (family : EventFamily) (type : EventType)
      (payload : Payload F) (run : Run F)
      → IsTraced run
      → IsTraced (emit_leaf config ctx family type payload run)
  unfolding emit_leaf
  leaf-IsTraced on family type payload run t = record {
    causal = IsCausal-last [] run.events _ t.causal t.cause;
    cause = IsKnown-append run.events _ run.causation_id t.cause;
    silent = λ off. cc;
    unpublished = t.unpublished;
  }

  cause-IsTraced :
      (on : config.emit_events ≡ true) (family : EventFamily) (type : EventType)
      (payload : Payload F) (c : Option String) (run : Run F)
      → IsKnown run.events c
      → IsTraced run
      → IsTraced (emit_cause config ctx family type payload c run)
  unfolding emit_cause
  cause-IsTraced on family type payload c run k t = record {
    causal = IsCausal-last [] run.events _ t.causal k;
    cause = IsKnown-last run.events (build_envelope config ctx family type payload c run);
    silent = λ off. cc;
    unpublished = t.unpublished;
  }

  pub candle-IsTraced :
      (run : Run F) → IsTraced run → IsTraced (emit_candle_received config ctx run)
  unfolding emit_candle_received
  candle-IsTraced run t =
      if-intro IsTraced config.emit_events (λ on. cause-IsTraced on _ _ _ none run tt t) (λ _. t)

  pub features-IsTraced :
      (fs : FeatureSet F) (context : MarketContext F) (run : Run F)
      → IsTraced run
      → IsTraced (emit_features config ctx fs context run)
  unfolding emit_features
  features-IsTraced fs context run t =
      if-intro IsTraced config.emit_events
        (λ on.
          let first =
            cause-IsTraced on EventFamily.market EventType.feature_set_built
              (Payload.features fs.feature_set_id fs.feature_version fs.config_hash fs.indicators
                fs.flags)
              run.causation_id run t.cause t in
          cause-IsTraced on _ _ _ _ _ first.cause first)
        (λ _. t)

  ask_all-IsTraced :
      (fs : FeatureSet F) (context : MarketContext F) (ps : List (Provider F))
      (ss : List (StrategySignal F)) (run : Run F)
      → IsTraced run
      → IsTraced (ask_all config ctx fs context ps (ss, run)).1
  unfolding ask_all ask
  ask_all-IsTraced fs context [] ss run t = t
  ask_all-IsTraced fs context (p ∷ ps) ss run t =
      ask_all-IsTraced fs context ps _ (ask config ctx fs context p (ss, run)).1 (
        if-intro (λ (x : List (StrategySignal F) × Run F). IsTraced x.1) p.enabled
          (λ _. if-intro IsTraced config.emit_events (λ on. leaf-IsTraced on _ _ _ run t) (λ _. t))
          (λ _. if-intro IsTraced config.emit_events (λ on. leaf-IsTraced on _ _ _ run t) (λ _. t)))

  pub signals-IsTraced :
      (fs : FeatureSet F) (context : MarketContext F) (run : Run F)
      → IsTraced run
      → IsTraced (collect_provider_signals config ctx fs context run).1
  unfolding collect_provider_signals
  signals-IsTraced fs context run t = ask_all-IsTraced fs context config.providers [] run t

  published-IsTraced :
      (on : config.emit_events ≡ true) (d : Decision F) (signal : Option (FinalSignal F))
      (run : Run F)
      → IsTraced run
      → IsTraced (emit_published config ctx d signal run)
  published-IsTraced on d none run t = t
  published-IsTraced on d (some signal) run t =
      if-intro IsTraced (is_approved d) (λ _. leaf-IsTraced on _ _ _ run t) (λ _. t)

  pub decision-IsTraced :
      (d : Decision F) (snap : StateSnapshot F) (run : Run F)
      → IsTraced run
      → IsTraced (emit_decision config ctx d snap run)
  unfolding emit_decision
  decision-IsTraced d snap run t =
      if-intro IsTraced config.emit_events
        (λ on.
          let made =
            cause-IsTraced on EventFamily.decision EventType.decision_made
              (Payload.decision_made d.decision_id d.result.value snap.snapshot_id d.decision_log)
              run.causation_id run t.cause t in
          published-IsTraced on d d.final_signal _ (cause-IsTraced on _ _ _ _ _ made.cause made))
        (λ _. t)
