-- ===== src/Runtime/Returning.antt =====
-- `run_cycle` of runtime/platform_runtime.py raises no error in exact arithmetic.
use mathlib.Core.Path.{subst}
use quantitative_trading.Prelude.{
  ◌≡◌, ℕ, true, none, some, String, eq_refl, Returns, Defined, Option-cases, Bool-cases, inl, inr,
  >>=-Post,
}
use quantitative_trading.Prelude.Int.{ℤ}
use quantitative_trading.Dict.{Dict, lookup, contains, lookup-insert}
use quantitative_trading.Float.{Float}
use quantitative_trading.Float.Exact.{int_float}
use quantitative_trading.Contracts.Signal.{MarketContext}
use quantitative_trading.Features.Config.{FeaturesConfig}
use quantitative_trading.Features.Context.{derive, derive_trend, derive_atr_metrics}
use quantitative_trading.Features.Store.{FeatureSet, FeatureStore, get, put}
use quantitative_trading.Features.Builder.{build, record_of, feature_set_of}
use quantitative_trading.Execution.Returning.{execute-Returns}
use quantitative_trading.Runtime.State.{RuntimeConfig, RuntimeState, CycleCtx, Run, tick}
use quantitative_trading.Runtime.Emission.{check_stored, build_features, set_features}
use quantitative_trading.Runtime.Portfolio.{day_of}
use quantitative_trading.Runtime.Cycle.{run_cycle}
use quantitative_trading.Runtime.Counts.{Holds}
use quantitative_trading.Runtime.Steps.{carried}
use quantitative_trading.Runtime.DailySignals.{IsCounted, run_cycle-IsCounted}

contains-some {ℓ} :
    {V : Type ℓ} (k : String) (d : Dict V) → contains k d ≡ true → (v : V) × (lookup k d ≡ some v)
contains-some k d h = elim (Option-cases (lookup k d)) [
  | inl e ↦ absurd (absurd_of e)
  | inr found ↦ found
]
  where
    absurd_of : lookup k d ≡ none → ⊥
    absurd_of e = cc (rw (contains, e) at h)

-- The indicators that the context is derived from were computed.
pub record HasIndicators {F : Type 0} (config : FeaturesConfig F) (indicators : Dict F)
    : Type 0 where
  pub fast : contains config.context.trend.fast indicators ≡ true
  pub slow : contains config.context.trend.slow indicators ≡ true
  pub atr : contains config.context.volatility.atr indicators ≡ true

module _ {F : Type 0} ⦃o : Float F⦄ where
  derive-Defined :
      (config : FeaturesConfig F) (symbol timeframe : String) (close : F) (indicators : Dict F)
      (t : ℕ)
      → HasIndicators config indicators
      → Defined true (derive config.context symbol timeframe close indicators t)
  unfolding derive derive_trend derive_atr_metrics
  derive-Defined config symbol timeframe close indicators t h =
      let (fast, f) = contains-some config.context.trend.fast indicators h.fast in
      let (slow, s) = contains-some config.context.trend.slow indicators h.slow in
      let (atr, a) = contains-some config.context.volatility.atr indicators h.atr in rw (f, s, a) tt

  module _ (config : RuntimeConfig F) (ctx : CycleCtx F) where
    -- what was just put is found, with its context
    stored-Defined :
        (fs : FeatureSet F) (context : MarketContext F) (store : FeatureStore F) (run : Run F)
        → config.same context context ≡ true
        → Defined true (
            check_stored config ctx fs context
              (set_features config ctx (put (record_of fs context) store) run))
    unfolding check_stored get put
    stored-Defined fs context store run reflexive =
        let i = fs.feature_set_id in
        rw (lookup-insert i i (record_of fs context) store.by_id, eq_refl i, reflexive) tt

    pub build_features-Defined :
        HasIndicators config.features ctx.frame.indicators
        → ((c : MarketContext F) → config.same c c ≡ true)
        → (run : Run F) → Defined true (build_features config ctx run)
    unfolding build_features build
    build_features-Defined has reflexive run =
        let made =
          derive config.features.context ctx.symbol ctx.timeframe ctx.frame.close
            ctx.frame.indicators ctx.frame.event_time in
        let defined : Defined true made =
          derive-Defined config.features ctx.symbol ctx.timeframe ctx.frame.close
            ctx.frame.indicators ctx.frame.event_time has in
        elim (Option-cases made) [
          | inl e ↦ absurd (subst (Defined true) e defined)
          | inr (context, e) ↦ elim (Bool-cases config.persist_features) [
            | inl p ↦
                let fs =
                  feature_set_of config.features config.features_hash ctx.frame ctx.symbol
                    ctx.timeframe ctx.processing_time (config.draw "fs_" run.state.drawn) in
                let put_in = put (record_of fs context) run.state.feature_store in
                rw (e, p)
                  (>>=-Post true (λ _. Unit) (λ _. Unit)
                    (check_stored config ctx fs context (set_features config ctx put_in (tick run)))
                    _
                    (stored-Defined fs context run.state.feature_store (tick run)
                      (reflexive context))
                    λ _ _. tt)
            | inr p ↦ rw (e, p) tt
          ]
        ]

module _ (config : RuntimeConfig ℤ) (ctx : CycleCtx ℤ) where
  -- In exact arithmetic a cycle raises no error, where the store holds the runtime's portfolio, the
  -- indicators of the context were computed, and a context equals itself. Its decision names the
  -- snapshot that it returns, an approval was within the day's limit, and the store then counts the
  -- signals of the day: those counted before, or none on a new day, and one for an approval.
  pub run_cycle-Returns :
      (n : ℕ) (state : RuntimeState ℤ)
      → HasIndicators config.features ctx.frame.indicators
      → ((c : MarketContext ℤ) → config.same c c ≡ true)
      → Holds config n state.store
      → Returns
          (IsCounted config ctx (carried state.signals_day (day_of config ctx ctx.event_time) n))
          (run_cycle config ctx state)
  run_cycle-Returns n state has reflexive held =
      run_cycle-IsCounted true config ctx execute-Returns n state
        (build_features-Defined config ctx has reflexive) held
