-- ===== src/Runtime/Steps.antt =====
-- The other steps of a cycle of runtime/platform_runtime.py under the view of Counts: the events, the
-- features, the day's reset and the decision.
use quantitative_trading.Prelude.{
  ◌≡◌, refl, sym, ap, ◌∙◌, ℕ, ◌+◌, ◌<◌, ◌==◌, Bool, true, false, Option, none, some, List, [], ◌∷◌,
  String, if-intro, if◌then◌else◌, Post, Keeps, Defined, >>=-Post, Bool-cases, Option-cases, inl,
  inr, arith, ltb→lt, ltb, Post-Keeps, Defined-lax, eqb→eq,
}
use quantitative_trading.Float.{Float}
use quantitative_trading.Contracts.State.{StateSnapshot, RiskState}
use quantitative_trading.Contracts.Signal.{StrategySignal, FinalSignal, MarketContext}
use quantitative_trading.Contracts.Decision.{Decision, is_approved}
use quantitative_trading.Contracts.Event.{EventFamily, EventType, Payload}
use quantitative_trading.State.Transitions.{RiskUpdate, risk_updated}
use quantitative_trading.State.Updates.{update_risk_all, update_risk}
use quantitative_trading.State.Store.{get_portfolio, get_risk}
use quantitative_trading.Engine.Aggregator.{AggregatorSuccess}
use quantitative_trading.Engine.Config.{RiskConfig}
use quantitative_trading.Engine.RiskManager.{evaluate}
use quantitative_trading.Engine.DecisionEngine.{process}
use quantitative_trading.Engine.Approval.{process_iff}
use mathlib.Core.Path.{subst}
use quantitative_trading.Engine.Verdict
use quantitative_trading.Engine.Verdict.{IsConsistent, process-Returns}
use quantitative_trading.Features.Store.{FeatureSet, get}
use quantitative_trading.Features.Builder.{build}
use quantitative_trading.Runtime.State.{Provider, RuntimeConfig, CycleCtx, Run, tick}
use quantitative_trading.Runtime.Emission.{
  emit_leaf, emit_cause, emit_candle_received, emit_features, matches, check_stored, build_features,
  set_features,
}
use quantitative_trading.Runtime.Portfolio.{
  runtime_transition, day_of, is_reset, reset_updates, reset_daily_risk, maybe_reset_daily_risk,
  set_day,
}
use quantitative_trading.Runtime.Signals.{ask, ask_all, collect_provider_signals}
use quantitative_trading.Runtime.Decide.{
  request_of, emit_published, emit_decision, count_signal, decide,
}
use quantitative_trading.Runtime.Counts.{same, IsAt, apply-IsAt, counted-Holds}

module _ {F : Type 0} ⦃o : Float F⦄ (config : RuntimeConfig F) (ctx : CycleCtx F) (day : Option ℕ)
    (n : ℕ) where
  tick-IsAt : (run : Run F) → IsAt config day n run → IsAt config day n (tick run)
  tick-IsAt run k = record { holds = k.holds; on_day = k.on_day }

  leaf-IsAt :
      (family : EventFamily) (type : EventType) (payload : Payload F) (run : Run F)
      → IsAt config day n run
      → IsAt config day n (emit_leaf config ctx family type payload run)
  unfolding emit_leaf
  leaf-IsAt family type payload run k = record { holds = k.holds; on_day = k.on_day }

  cause-IsAt :
      (family : EventFamily) (type : EventType) (payload : Payload F) (c : Option String)
      (run : Run F)
      → IsAt config day n run
      → IsAt config day n (emit_cause config ctx family type payload c run)
  unfolding emit_cause
  cause-IsAt family type payload c run k = record { holds = k.holds; on_day = k.on_day }

  pub candle-IsAt :
      (run : Run F)
      → IsAt config day n run
      → IsAt config day n (emit_candle_received config ctx run)
  unfolding emit_candle_received
  candle-IsAt run k =
      if-intro (IsAt config day n) config.emit_events (λ _. cause-IsAt _ _ _ none run k) (λ _. k)

  features-IsAt :
      (fs : FeatureSet F) (context : MarketContext F) (run : Run F)
      → IsAt config day n run
      → IsAt config day n (emit_features config ctx fs context run)
  unfolding emit_features
  features-IsAt fs context run k =
      if-intro (IsAt config day n) config.emit_events
        (λ _. cause-IsAt _ _ _ _ _ (cause-IsAt _ _ _ run.causation_id run k)) (λ _. k)

  ask_all-IsAt :
      (fs : FeatureSet F) (context : MarketContext F) (ps : List (Provider F))
      (ss : List (StrategySignal F)) (run : Run F)
      → IsAt config day n run
      → IsAt config day n (ask_all config ctx fs context ps (ss, run)).1
  unfolding ask_all ask
  ask_all-IsAt fs context [] ss run k = k
  ask_all-IsAt fs context (p ∷ ps) ss run k =
      ask_all-IsAt fs context ps _ (ask config ctx fs context p (ss, run)).1 (
        if-intro (λ (x : List (StrategySignal F) × Run F). IsAt config day n x.1) p.enabled
          (λ _.
            if-intro (IsAt config day n) config.emit_events (λ _. leaf-IsAt _ _ _ run k) (λ _. k))
          (λ _.
            if-intro (IsAt config day n) config.emit_events (λ _. leaf-IsAt _ _ _ run k) (λ _. k)))

  pub signals-IsAt :
      (fs : FeatureSet F) (context : MarketContext F) (run : Run F)
      → IsAt config day n run
      → IsAt config day n (collect_provider_signals config ctx fs context run).1
  unfolding collect_provider_signals
  signals-IsAt fs context run k = ask_all-IsAt fs context config.providers [] run k

  published-IsAt :
      (d : Decision F) (signal : Option (FinalSignal F)) (run : Run F)
      → IsAt config day n run
      → IsAt config day n (emit_published config ctx d signal run)
  published-IsAt d none run k = k
  published-IsAt d (some signal) run k =
      if-intro (IsAt config day n) (is_approved d) (λ _. leaf-IsAt _ _ _ run k) (λ _. k)

  decision-IsAt :
      (d : Decision F) (snap : StateSnapshot F) (run : Run F)
      → IsAt config day n run
      → IsAt config day n (emit_decision config ctx d snap run)
  unfolding emit_decision
  decision-IsAt d snap run k =
      if-intro (IsAt config day n) config.emit_events
        (λ _. published-IsAt d d.final_signal _ (cause-IsAt _ _ _ _ _ (cause-IsAt _ _ _ _ run k)))
        (λ _. k)

-- the signals of today once the day of a cycle is known
abbrev pub carried : (day : Option ℕ) (today n : ℕ) → ℕ
carried none today n = n
carried (some day) today n = if today == day then n else 0

module _ {F : Type 0} ⦃o : Float F⦄ (strict : Bool) (config : RuntimeConfig F)
    (ctx : CycleCtx F) where
  zero_signals :
      (r : RiskState F) (equity : F) → is_reset config ctx r equity ≡ true → r.signals_today ≡ 0
  zero_signals r equity h = ground arith

  reset-IsAt :
      (day : Option ℕ) (n : ℕ) (run : Run F)
      → IsAt config day n run
      → Post strict (IsAt config day 0) (reset_daily_risk config ctx run)
  unfolding reset_daily_risk get_risk get_portfolio update_risk_all update_risk
  reset-IsAt day n run k =
      let r = run.state.store.risk in
      let equity = run.state.store.portfolio.equity in
      rw (same (sym k.holds.same_id)) (
        if-intro (Post strict (IsAt config day 0)) (is_reset config ctx r equity)
          (λ e. record {
            holds = record {
              same_id = k.holds.same_id;
              own_id = k.holds.own_id;
              signals = zero_signals r equity e;
            };
            on_day = k.on_day;
          })
          λ _.
            apply-IsAt strict config ctx day n 0
              (runtime_transition config ctx (risk_updated (reset_updates config ctx equity)) run)
              (tick run) refl
              (counted-Holds config n 0 (reset_updates config ctx equity) ctx.event_time
                run.state.store (λ _. refl) k.holds)
              (tick-IsAt config ctx day n run k))

  pub maybe_reset-IsAt :
      (day : Option ℕ) (n : ℕ) (run : Run F)
      → IsAt config day n run
      → Post strict
          (IsAt config
            (some (day_of config ctx ctx.event_time))
            (carried day (day_of config ctx ctx.event_time) n))
          (maybe_reset_daily_risk config ctx day run)
  unfolding maybe_reset_daily_risk
  maybe_reset-IsAt none n run k = record { holds = k.holds; on_day = refl }
  maybe_reset-IsAt (some day) n run k =
      let today = day_of config ctx ctx.event_time in
      elim (Bool-cases (today == day)) [
        | inl e ↦
            rw (maybe_reset_daily_risk, e)
              (record { holds = k.holds; on_day = k.on_day ∙ ap some (sym (eqb→eq today day e)) })
        | inr e ↦
            rw (maybe_reset_daily_risk, e)
              (reset-IsAt (some today) n (set_day config ctx today run)
                (record { holds = k.holds; on_day = refl }))
      ]

  stored-IsAt :
      (day : Option ℕ) (n : ℕ) (fs : FeatureSet F) (context : MarketContext F) (run : Run F)
      → IsAt config day n run
      → Keeps (IsAt config day n) (check_stored config ctx fs context run)
  unfolding check_stored
  stored-IsAt day n fs context run k =
      elim (Option-cases (get fs.feature_set_id run.state.feature_store)) [
        | inl e ↦ rw (check_stored, e) tt
        | inr (r, e) ↦
            rw (check_stored, e)
              (if-intro (Keeps (IsAt config day n)) (matches config ctx context r.market_context)
                (λ _. k) (λ _. tt))
      ]

  -- the features are there, if they have to be
  pub build_features-IsAt :
      (day : Option ℕ) (n : ℕ) (run : Run F)
      → Defined strict (build_features config ctx run)
      → IsAt config day n run
      → Post strict (λ r. IsAt config day n r.2) (build_features config ctx run)
  unfolding build_features
  build_features-IsAt day n run defined k =
      Post-Keeps strict (λ r. IsAt config day n r.2) (build_features config ctx run) defined
        (>>=-Post false (λ _. Unit) (λ r. IsAt config day n r.2)
          (build config.features config.features_hash ctx.frame ctx.symbol ctx.timeframe
            ctx.processing_time config.persist_features (config.draw "fs_" run.state.drawn)
            run.state.feature_store)
          _ (Defined-lax _)
          λ (fs, context, store) _.
            let built = set_features config ctx store (tick run) in
            let at : IsAt config day n built = record { holds = k.holds; on_day = k.on_day } in
            >>=-Post false (IsAt config day n) (λ r. IsAt config day n r.2)
              (if config.persist_features
                then check_stored config ctx fs context built
                else some built)
              _
              (if-intro (Keeps (IsAt config day n)) config.persist_features
                (λ _. stored-IsAt day n fs context built at) (λ _. at))
              λ run' k'. features-IsAt config ctx day n fs context run' k')

-- the check of the signals of today, under a verdict that passes
within :
    {F : Type 0} ⦃o : Float F⦄ (config : RiskConfig F) (a : AggregatorSuccess F)
    (snap : StateSnapshot F)
    → (evaluate config a snap).passed ≡ true
    → ltb snap.risk.signals_today config.max_signals_per_day ≡ true
unfolding evaluate
within config a snap h = ground arith

-- an approved decision is counted
abbrev pub counted : {F : Type 0} → Decision F → ℕ → ℕ
counted d n = if is_approved d then n + 1 else n

module _ {F : Type 0} ⦃o : Float F⦄ (strict : Bool) (config : RuntimeConfig F) (ctx : CycleCtx F)
    (day : Option ℕ) (n : ℕ) (snap : StateSnapshot F) where
  -- What a decision says, and where it leaves the run.
  pub record IsDecided (r : Decision F × Run F) : Type 0 where
    pub at : IsAt config day (counted r.0 n) r.1
    pub consistent : IsConsistent snap r.0
    pub allowed : is_approved r.0 ≡ true → n < config.engine.risk.max_signals_per_day

  count_signal-IsAt :
      (d : Decision F) (run : Run F)
      → snap.risk.signals_today ≡ n
      → IsAt config day n run
      → Post strict (IsAt config day (counted d n)) (count_signal config ctx d snap run)
  unfolding count_signal update_risk_all update_risk
  count_signal-IsAt d run sn k =
      let us = RiskUpdate.signals_today (snap.risk.signals_today + 1) ∷ [] in
      elim (Bool-cases (is_approved d)) [
        | inl e ↦
            rw (count_signal, e)
              (apply-IsAt strict config ctx day n (n + 1)
                (runtime_transition config ctx (risk_updated us) run) (tick run) refl
                (counted-Holds config n (n + 1) us ctx.event_time run.state.store
                  (λ _. omega (arith, sn)) k.holds)
                (tick-IsAt config ctx day n run k))
        | inr e ↦ rw (count_signal, e) k
      ]

  allowed_lem :
      (signals : List (StrategySignal F)) (context : MarketContext F) (run : Run F) (d : Decision F)
      → process config.engine signals context snap (request_of config ctx run) ≡ some d
      → snap.risk.signals_today ≡ n
      → is_approved d ≡ true
      → n < config.engine.risk.max_signals_per_day
  allowed_lem signals context run d e sn yes_ =
      let ok =
        (process_iff config.engine signals context snap (request_of config ctx run)).0
          (rw e yes_) in
      let (a, _, passes) = ok.1 in
      let h = ltb→lt _ _ (within config.engine.risk a snap passes.verdict) in omega (arith, sn, h)

  pub decide-IsDecided :
      (signals : List (StrategySignal F)) (context : MarketContext F) (run : Run F)
      → snap.risk.signals_today ≡ n
      → IsAt config day n run
      → Post strict IsDecided (decide config ctx signals context snap run)
  unfolding decide
  decide-IsDecided signals context run sn k =
      let q = request_of config ctx run in
      elim (Option-cases (process config.engine signals context snap q)) [
        | inl e ↦ absurd (
            subst (Verdict.Returns (IsConsistent snap)) e
              (process-Returns config.engine context snap q signals))
        | inr (d, e) ↦
            let told = emit_decision config ctx d snap (tick (tick run)) in
            rw (decide, e)
              (>>=-Post strict (IsAt config day (counted d n)) IsDecided
                (count_signal config ctx d snap told) _
                (count_signal-IsAt d told sn (
                  decision-IsAt config ctx day n d snap (tick (tick run))
                    (tick-IsAt config ctx day n (tick run) (tick-IsAt config ctx day n run k))))
                λ run' k'. record {
                  at = k';
                  consistent =
                      subst (Verdict.Returns (IsConsistent snap)) e
                        (process-Returns config.engine context snap q signals);
                  allowed = allowed_lem signals context run d e sn;
                })
      ]
