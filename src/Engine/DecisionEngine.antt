-- ===== src/Engine/DecisionEngine.antt =====
-- `DecisionEngine.process` of engine/decision_engine.py. The ids that the call draws are in its
-- request, and `none` is `StopIteration`, which `next` raises where no check has failed.
use quantitative_trading.Prelude.{
  Bool, true, not, Option, none, some, List, [], String, if◌then◌else◌, filter, find,
}
use quantitative_trading.Float.{Float}
use quantitative_trading.Contracts.State.{Instant, StateSnapshot}
use quantitative_trading.Contracts.Signal.{
  Side, Opinion, StrategySignal, FinalSignal, MarketContext,
}
use quantitative_trading.Contracts.Decision.{
  Reason, StageResult, Method, AggregationResult, RiskCheckResult, RiskVerdict, DecisionLog,
  Outcome, Stage, Decision, approved, rejected,
}
use quantitative_trading.Engine.Config.{EngineConfig}
use quantitative_trading.Engine.MarketFilter
use quantitative_trading.Engine.Aggregator.{
  AggregatorSuccess, AggregatorOutcome, success, failure, combine, is_active, provider_ids,
}
use quantitative_trading.Engine.RiskManager.{evaluate, finalize_verdict}
use quantitative_trading.Engine.SignalBuilder.{build}
use quantitative_trading.State.Store.{zero_f}

-- The keyword arguments of a call, with the ids that it draws.
pub record Request : Type 0 where
  pub decision_id : String
  pub signal_id : String
  pub correlation_id : String
  pub event_time : Instant
  pub decision_time : Instant
  pub revision_id : Option String
  pub experiment_id : Option String

abbrev pub opinion_of : Side → Opinion
opinion_of Side.buy = Opinion.buy
opinion_of Side.sell = Opinion.sell

module _ {F : Type 0} where
  abbrev pub check_failed : RiskCheckResult F → Bool
  check_failed c = not c.passed

  -- `next(c for c in verdict.checks if not c.passed)`
  abbrev pub first_failed : RiskVerdict F → Option (RiskCheckResult F)
  first_failed verdict = find check_failed verdict.checks

  -- `_skipped_risk_verdict`
  abbrev pub skipped_risk_verdict : StateSnapshot F → RiskVerdict F
  skipped_risk_verdict snapshot = record {
    passed = true;
    checks = [];
    state_snapshot_id = snapshot.snapshot_id;
    risk_state_version = snapshot.risk.version;
  }

  abbrev pub log_of :
      List (StrategySignal F)
      → StateSnapshot F
      → StageResult F
      → AggregationResult F
      → RiskVerdict F
      → DecisionLog F
  log_of signals snapshot market aggregation verdict = record {
    market_filter = market;
    provider_signals = signals;
    aggregation = aggregation;
    risk_check = verdict;
    state_snapshot_id = snapshot.snapshot_id;
    portfolio_version = snapshot.portfolio.version;
    risk_state_version = snapshot.risk.version;
  }

  abbrev pub decide :
      Request
      → Outcome
      → Option Reason
      → Option Stage
      → Option (FinalSignal F)
      → DecisionLog F
      → Decision F
  decide q value reason stage signal log = record {
    decision_id = q.decision_id;
    result = record { value = value; rejection_reason = reason; rejection_stage = stage };
    final_signal = signal;
    decision_log = log;
    correlation_id = q.correlation_id;
    event_time = q.event_time;
    decision_time = q.decision_time;
    revision_id = q.revision_id;
    experiment_id = q.experiment_id;
  }

  abbrev pub reject_by : Request → Option (RiskCheckResult F) → DecisionLog F → Option (Decision F)
  reject_by q none log = none
  reject_by q (some failed) log =
      some (decide q rejected (some failed.check_name) (some Stage.risk_manager) none log)

  -- the rejection by the risk manager
  abbrev pub reject_risk : Request → RiskVerdict F → DecisionLog F → Option (Decision F)
  reject_risk q verdict log = reject_by q (first_failed verdict) log

module _ {F : Type 0} ⦃o : Float F⦄ where
  -- `_skipped_aggregation`
  abbrev pub skipped_aggregation : Method → List String → AggregationResult F
  skipped_aggregation method dissent = record {
    method = method;
    side = Opinion.hold;
    confidence = zero_f;
    weights = [];
    dissent = dissent;
  }

  abbrev pub aggregation_of : Method → AggregatorSuccess F → AggregationResult F
  aggregation_of method a = record {
    method = method;
    side = opinion_of a.side;
    confidence = a.confidence;
    weights = a.weights;
    dissent = a.dissent;
  }

  -- from a successful aggregation on: the risk checks, the signal, and the check of its risk reward
  unfoldable pub conclude :
      EngineConfig F
      → List (StrategySignal F)
      → MarketContext F
      → StateSnapshot F
      → Request
      → StageResult F
      → AggregatorSuccess F
      → Option (Decision F)
  conclude config signals context snapshot q market aggregated =
      let log =
        log_of signals snapshot market (aggregation_of config.aggregation.method aggregated) in
      let verdict = evaluate config.risk aggregated snapshot in
      let signal =
        build aggregated signals context snapshot q.decision_time q.revision_id
          config.risk.vol_target_atr_pct config.risk.vol_target_cap q.signal_id in
      let final = finalize_verdict config.risk verdict signal snapshot in
      if not verdict.passed
      then reject_risk q verdict (log verdict)
      else if not final.passed
      then reject_risk q final (log final)
      else some (decide q approved none none (some signal) (log final))

  -- from the aggregator's outcome on
  unfoldable pub route :
      EngineConfig F
      → List (StrategySignal F)
      → MarketContext F
      → StateSnapshot F
      → Request
      → StageResult F
      → AggregatorOutcome F
      → Option (Decision F)
  unfolding conclude
  route config signals context snapshot q market (failure reason) = some (
      decide q rejected (some reason) (some Stage.aggregator) none (
        log_of signals snapshot market
          (skipped_aggregation config.aggregation.method (provider_ids (filter is_active signals)))
          (skipped_risk_verdict snapshot)))
  route config signals context snapshot q market (success aggregated) =
      conclude config signals context snapshot q market aggregated

  unfoldable pub process :
      EngineConfig F
      → List (StrategySignal F)
      → MarketContext F
      → StateSnapshot F
      → Request
      → Option (Decision F)
  unfolding route
  process config signals context snapshot q =
      let market = MarketFilter.check config.filter context in
      if not market.passed
      then some (
          decide q rejected market.reason (some Stage.market_filter) none (
            log_of signals snapshot market (skipped_aggregation config.aggregation.method [])
              (skipped_risk_verdict snapshot)))
      else route config signals context snapshot q market (combine config.aggregation signals)
