-- ===== src/Engine/Verdict.antt =====
-- What every decision of the engine says about itself.
use quantitative_trading.Prelude.{
  ◌≡◌, refl, sym, ◌∙◌, Bool, true, false, not, Option, some, none, List, [], ◌∷◌, arith, all, find,
  inl, inr, Bool-cases, if◌then◌else◌,
}
use quantitative_trading.Float.{Float}
use quantitative_trading.Contracts.State.{StateSnapshot}
use quantitative_trading.Contracts.Signal.{StrategySignal, FinalSignal, MarketContext}
use quantitative_trading.Contracts.Decision.{
  RiskCheckResult, RiskVerdict, DecisionLog, StageResult, AggregationResult, Decision, is_approved,
  approved,
}
use quantitative_trading.Engine.Config.{EngineConfig, RiskConfig, FilterConfig}
use quantitative_trading.Engine.MarketFilter
use quantitative_trading.Engine.Aggregator.{
  AggregatorSuccess, AggregatorOutcome, success, failure, combine,
}
use quantitative_trading.Engine.RiskManager.{evaluate, finalize_verdict, check_passed}
use quantitative_trading.Engine.SignalBuilder.{build}
use quantitative_trading.Engine.DecisionEngine.{
  Request, decide, check_failed, reject_risk, process, route, conclude, log_of, aggregation_of,
}

abbrev pub is_some {ℓ} : {A : Type ℓ} → Option A → Bool
is_some none = false
is_some (some _) = true

module _ {F : Type 0} where
  -- A list of checks that do not all pass has a first that failed.
  find-failed :
      (cs : List (RiskCheckResult F))
      → all check_passed cs ≡ false
      → (c : RiskCheckResult F) × (find check_failed cs ≡ some c) × (c.passed ≡ false)
  find-failed [] h = cc
  find-failed (c ∷ cs) h = elim (Bool-cases c.passed) [
    | inl good ↦ let (d, found, bad) = find-failed cs (rw good at h) in (d, rw good found, bad)
    | inr bad ↦ (c, rw bad, bad)
  ]

  -- What a decision on a snapshot says of itself: its log names the snapshot and its versions, it has
  -- a final signal exactly where it is approved, and a reason and a stage exactly where it is not.
  pub record IsConsistent (snapshot : StateSnapshot F) (d : Decision F) : Type 0 where
    pub snapshot_id : d.decision_log.state_snapshot_id ≡ snapshot.snapshot_id
    pub verdict_id : d.decision_log.risk_check.state_snapshot_id ≡ snapshot.snapshot_id
    pub portfolio_version : d.decision_log.portfolio_version ≡ snapshot.portfolio.version
    pub risk_version : d.decision_log.risk_state_version ≡ snapshot.risk.version
    pub verdict_version : d.decision_log.risk_check.risk_state_version ≡ snapshot.risk.version
    pub signal : is_some d.final_signal ≡ is_approved d
    pub reason : is_some d.result.rejection_reason ≡ not (is_approved d)
    pub stage : is_some d.result.rejection_stage ≡ not (is_approved d)

  -- a value is returned, and it is as stated
  abbrev pub Returns : (Decision F → Type 0) → Option (Decision F) → Type 0
  Returns P none = ⊥
  Returns P (some d) = P d

  -- Both branches return as stated.
  pub Returns-if :
      (P : Decision F → Type 0) (b : Bool) (x y : Option (Decision F))
      → (b ≡ true → Returns P x)
      → (b ≡ false → Returns P y)
      → Returns P (if b then x else y)
  Returns-if P true x y f g = f refl
  Returns-if P false x y f g = g refl

  reject_risk-Returns :
      (q : Request) (snapshot : StateSnapshot F) (verdict : RiskVerdict F) (log : DecisionLog F)
      → all check_passed verdict.checks ≡ false
      → (log.state_snapshot_id ≡ snapshot.snapshot_id)
        × (log.risk_check.state_snapshot_id ≡ snapshot.snapshot_id)
        × (log.portfolio_version ≡ snapshot.portfolio.version)
        × (log.risk_state_version ≡ snapshot.risk.version)
        × (log.risk_check.risk_state_version ≡ snapshot.risk.version)
      → Returns (IsConsistent snapshot) (reject_risk q verdict log)
  reject_risk-Returns q snapshot verdict log failed h =
      let (c, found, _) = find-failed verdict.checks failed in rw found (ground arith)

module _ {F : Type 0} ⦃o : Float F⦄ where
  -- the verdict that `finalize_verdict` gives passes exactly where all its checks do
  pub finalize_verdict-passed :
      (config : RiskConfig F) (a : AggregatorSuccess F) (signal : FinalSignal F)
      (snapshot : StateSnapshot F)
      → let final = finalize_verdict config (evaluate config a snapshot) signal snapshot in
        final.passed ≡ all check_passed final.checks
  unfolding evaluate finalize_verdict
  finalize_verdict-passed config a signal snapshot = ground arith

  rejected-Returns :
      (q : Request) (snapshot : StateSnapshot F) (signals : List (StrategySignal F))
      (market : StageResult F) (aggregation : AggregationResult F) (verdict : RiskVerdict F)
      → verdict.passed ≡ all check_passed verdict.checks
      → verdict.passed ≡ false
      → (verdict.state_snapshot_id ≡ snapshot.snapshot_id)
      → (verdict.risk_state_version ≡ snapshot.risk.version)
      → Returns
          (IsConsistent snapshot)
          (reject_risk q verdict (log_of signals snapshot market aggregation verdict))
  rejected-Returns q snapshot signals market aggregation verdict e h i v =
      reject_risk-Returns q snapshot verdict (log_of signals snapshot market aggregation verdict)
        (sym e ∙ h) (refl, i, refl, refl, v)

  approved-IsConsistent :
      (config : RiskConfig F) (q : Request) (snapshot : StateSnapshot F)
      (signals : List (StrategySignal F)) (market : StageResult F)
      (aggregation : AggregationResult F) (verdict : RiskVerdict F) (signal : FinalSignal F)
      → IsConsistent snapshot (
          decide q approved none none (some signal) (
            log_of signals snapshot market aggregation
              (finalize_verdict config verdict signal snapshot)))
  unfolding finalize_verdict
  approved-IsConsistent config q snapshot signals market aggregation verdict signal = ground arith

  conclude-Returns :
      (config : EngineConfig F) (signals : List (StrategySignal F)) (context : MarketContext F)
      (snapshot : StateSnapshot F) (q : Request) (market : StageResult F) (a : AggregatorSuccess F)
      → Returns (IsConsistent snapshot) (conclude config signals context snapshot q market a)
  unfolding conclude
  conclude-Returns config signals context snapshot q market a =
      let verdict = evaluate config.risk a snapshot in
      let signal =
        build a signals context snapshot q.decision_time q.revision_id
          config.risk.vol_target_atr_pct config.risk.vol_target_cap q.signal_id in
      let final = finalize_verdict config.risk verdict signal snapshot in
      let aggregation = aggregation_of config.aggregation.method a in
      Returns-if _ (not verdict.passed) _ _
        (λ bad.
          rejected-Returns q snapshot signals market aggregation verdict (unfold evaluate in refl)
            (ground arith) (unfold evaluate in refl) (unfold evaluate in refl))
        λ good.
          Returns-if _ (not final.passed) _ _
            (λ bad.
              rejected-Returns q snapshot signals market aggregation final
                (finalize_verdict-passed config.risk a signal snapshot) (ground arith)
                (unfold finalize_verdict in refl) (unfold finalize_verdict in refl))
            λ fine.
              approved-IsConsistent config.risk q snapshot signals market aggregation verdict signal

  route-Returns :
      (config : EngineConfig F) (signals : List (StrategySignal F)) (context : MarketContext F)
      (snapshot : StateSnapshot F) (q : Request) (market : StageResult F) (x : AggregatorOutcome F)
      → Returns (IsConsistent snapshot) (route config signals context snapshot q market x)
  unfolding route
  route-Returns config signals context snapshot q market (failure reason) = ground arith
  route-Returns config signals context snapshot q market (success a) =
      conclude-Returns config signals context snapshot q market a

  check_reason :
      (config : FilterConfig F) (context : MarketContext F)
      → let r = MarketFilter.check config context in is_some r.reason ≡ not r.passed
  unfolding MarketFilter.check
  check_reason config context = ground arith

module _ {F : Type 0} ⦃o : Float F⦄ (config : EngineConfig F) (context : MarketContext F)
    (snapshot : StateSnapshot F) (q : Request) where
  -- The engine never fails to decide: a verdict that does not pass has a check that failed, which
  -- `next` finds. Every decision is consistent with itself and names the snapshot that it rests on.
  pub process-Returns :
      (signals : List (StrategySignal F))
      → Returns (IsConsistent snapshot) (process config signals context snapshot q)
  unfolding process
  process-Returns signals =
      let market = MarketFilter.check config.filter context in
      Returns-if _ (not market.passed) _ _
        (λ bad. ground (arith, check_reason config.filter context))
        λ good.
          route-Returns config signals context snapshot q market
            (combine config.aggregation signals)
