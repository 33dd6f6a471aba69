-- ===== src/Engine/Approval.antt =====
-- When the engine approves, over the whole pipeline.
use mathlib.Core.Path.{subst}
use quantitative_trading.Prelude.{
  ◌≡◌, ◌↔◌, refl, sym, ap, Bool, true, false, not, Option, some, none, List, arith, if◌then◌else◌,
}
use quantitative_trading.Float.{Float}
use quantitative_trading.Contracts.State.{StateSnapshot}
use quantitative_trading.Contracts.Signal.{StrategySignal, MarketContext}
use quantitative_trading.Contracts.Decision.{
  RiskCheckResult, DecisionLog, Decision, StageResult, is_approved,
}
use quantitative_trading.Engine.Config.{EngineConfig}
use quantitative_trading.Engine.MarketFilter
use quantitative_trading.Engine.Aggregator.{
  AggregatorSuccess, AggregatorOutcome, success, failure, combine,
}
use quantitative_trading.Engine.RiskManager.{evaluate, finalize_verdict}
use quantitative_trading.Engine.SignalBuilder.{build}
use quantitative_trading.Engine.DecisionEngine.{Request, reject_by, conclude, route, process}

gate_iff : (b x : Bool) → ((if not b then false else x) ≡ true) ↔ ((b ≡ true) × (x ≡ true))
gate_iff b x = ground arith

module _ {F : Type 0} where
  -- the value of a success, and another value for a failure
  abbrev success_of : AggregatorSuccess F → AggregatorOutcome F → AggregatorSuccess F
  success_of other (success a) = a
  success_of other (failure _) = other

  abbrev pub approves : Option (Decision F) → Bool
  approves none = false
  approves (some d) = is_approved d

  reject_by-approves :
      (q : Request) (c : Option (RiskCheckResult F)) (log : DecisionLog F)
      → approves (reject_by q c log) ≡ false
  reject_by-approves q none log = refl
  reject_by-approves q (some c) log = refl

  approves_if :
      (b : Bool) (x y : Option (Decision F))
      → approves (if b then x else y) ≡ (if b then approves x else approves y)
  approves_if true x y = refl
  approves_if false x y = refl

module _ {F : Type 0} ⦃o : Float F⦄ (config : EngineConfig F) (signals : List (StrategySignal F))
    (context : MarketContext F) (snapshot : StateSnapshot F) (q : Request) where
  -- The risk checks pass on an aggregation, and so does the risk reward of the signal built from it.
  pub record PassesRisk (a : AggregatorSuccess F) : Type 0 where
    pub verdict : (evaluate config.risk a snapshot).passed ≡ true
    pub risk_reward :
        o.le config.risk.min_risk_reward
          (build a signals context snapshot q.decision_time q.revision_id
            config.risk.vol_target_atr_pct config.risk.vol_target_cap q.signal_id).risk_reward
        ≡ true

  conclude_iff :
      (market : StageResult F) (a : AggregatorSuccess F)
      → (approves (conclude config signals context snapshot q market a) ≡ true) ↔ PassesRisk a
  unfolding conclude finalize_verdict
  conclude_iff market a = simp (approves_if, reject_by-approves) (ground arith)

  route_iff :
      (market : StageResult F) (x : AggregatorOutcome F)
      → (approves (route config signals context snapshot q market x) ≡ true)
        ↔ ((a : AggregatorSuccess F) × (x ≡ success a) × PassesRisk a)
  unfolding route
  route_iff market (failure r) = (λ h. absurd (cc h), λ (a, e, _). absurd (cc e))
  route_iff market (success a) = (
    λ h. (a, refl, (conclude_iff market a).0 h),
    λ (b, e, p). (conclude_iff market a).1 (subst PassesRisk (ap (success_of a) (sym e)) p),
  )

  -- The engine approves exactly where the market filter passes, the providers agree, every risk check
  -- passes on their agreement, and the signal built from it has the risk reward that is asked for.
  pub process_iff : (approves (process config signals context snapshot q) ≡ true) ↔ (
      ((MarketFilter.check config.filter context).passed ≡ true)
      × ((a : AggregatorSuccess F) × (combine config.aggregation signals ≡ success a)
          × PassesRisk a))
  unfolding process
  process_iff =
      let market = MarketFilter.check config.filter context in
      let routed = route_iff market (combine config.aggregation signals) in
      let gate = gate_iff market.passed (
        approves
          (route config signals context snapshot q market (combine config.aggregation signals))) in
      simp approves_if (λ h. ((gate.0 h).0, routed.0 (gate.0 h).1), λ h. gate.1 (h.0, routed.1 h.1))
