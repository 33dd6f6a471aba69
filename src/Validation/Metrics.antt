-- ===== src/Validation/Metrics.antt =====
-- Of validation/metrics.py the engine's metrics, the statistics of trades, the drawdown and the scores.
-- `none` of a profit factor is `float("inf")`.
use quantitative_trading.Prelude.{
  ℕ, ◌+◌, ◌-◌, Bool, true, false, not, str_eq, Option, none, some, List, [], ◌∷◌, String, filter,
  length, ltb, if◌then◌else◌,
}
use quantitative_trading.Dict.{Dict, get_or, insert}
use quantitative_trading.Float.{Float, ◌⊕◌, ◌⊖◌, ◌⊗◌, ◌⊘◌, max, min}
use quantitative_trading.Contracts.Signal.{FinalSignal}
use quantitative_trading.Contracts.Decision.{Reason, Stage, is_approved}
use quantitative_trading.Contracts.Event.{EventEnvelope, EventFamily, EventType, Payload}
use quantitative_trading.State.Store.{zero_f}
use quantitative_trading.Runtime.State.{CycleResult}

-- the strings of the reasons and stages
abbrev pub reason_name : Option Reason → String
reason_name none = "unknown"
reason_name (some Reason.session_not_allowed) = "session_not_allowed"
reason_name (some Reason.low_volatility) = "low_volatility"
reason_name (some Reason.atr_below_minimum) = "atr_below_minimum"
reason_name (some Reason.no_active_signals) = "no_active_signals"
reason_name (some Reason.provider_conflict) = "provider_conflict"
reason_name (some Reason.insufficient_consensus) = "insufficient_consensus"
reason_name (some Reason.daily_drawdown) = "daily_drawdown"
reason_name (some Reason.max_signals_per_day) = "max_signals_per_day"
reason_name (some Reason.max_open_positions) = "max_open_positions"
reason_name (some Reason.max_exposure) = "max_exposure"
reason_name (some Reason.min_confidence) = "min_confidence"
reason_name (some Reason.max_consecutive_losses) = "max_consecutive_losses"
reason_name (some Reason.min_risk_reward) = "min_risk_reward"

abbrev pub stage_name : Option Stage → String
stage_name none = "unknown"
stage_name (some Stage.market_filter) = "market_filter"
stage_name (some Stage.aggregator) = "aggregator"
stage_name (some Stage.risk_manager) = "risk_manager"

-- `counter[key] += 1`
abbrev pub count : String → Dict ℕ → Dict ℕ
count key counter = insert key (get_or counter key 0 + 1) counter

abbrev pub count_all : List String → Dict ℕ → Dict ℕ
count_all [] counter = counter
count_all (key ∷ rest) counter = count_all rest (count key counter)

-- The attributes of `EngineMetricsAccumulator`.
pub record Accumulator : Type 0 where
  pub total : ℕ
  pub approved : ℕ
  pub rejection_reasons : Dict ℕ
  pub rejection_stages : Dict ℕ
  pub provider_hits : Dict ℕ

abbrev pub empty : Accumulator
empty = record {
  total = 0;
  approved = 0;
  rejection_reasons = [];
  rejection_stages = [];
  provider_hits = [];
}

module _ {F : Type 0} where
  abbrev pub providers_of : Option (FinalSignal F) → List String
  providers_of none = []
  providers_of (some signal) = signal.contributing_providers

  unfoldable pub observe : CycleResult F → Accumulator → Accumulator
  observe cycle acc =
      let d = cycle.decision in
      if is_approved d
      then record acc {
        total = acc.total + 1;
        approved = acc.approved + 1;
        provider_hits = count_all (providers_of d.final_signal) acc.provider_hits;
      }
      else record acc {
        total = acc.total + 1;
        rejection_reasons = count (reason_name d.result.rejection_reason) acc.rejection_reasons;
        rejection_stages = count (stage_name d.result.rejection_stage) acc.rejection_stages;
      }

  -- the loop of `compute_engine_metrics`, which is that of a run that retains no cycles
  unfoldable pub observe_all : List (CycleResult F) → Accumulator → Accumulator
  unfolding observe
  observe_all [] acc = acc
  observe_all (cycle ∷ cycles) acc = observe_all cycles (observe cycle acc)

  abbrev pub is_decision : EventEnvelope F → Bool
  is_decision e = elim e.event_family [ EventFamily.decision ↦ true | _ ↦ false ]

  -- `e.payload.get("state_snapshot_id")` as a condition
  abbrev pub has_snapshot_id : EventEnvelope F → Bool
  has_snapshot_id e = elim e.payload [
    | Payload.decision_made _ _ i _ ↦ not (str_eq i "")
    | Payload.decision_approved _ i _ ↦ not (str_eq i "")
    | Payload.decision_rejected _ i _ _ _ ↦ not (str_eq i "")
    | _ ↦ false
  ]

  -- `DECISION_MADE` or `DECISION_APPROVED`, with the id of a snapshot
  abbrev pub is_covered : EventEnvelope F → Bool
  is_covered e = elim e.event_type [
    | EventType.decision_made ↦ has_snapshot_id e
    | EventType.decision_approved ↦ has_snapshot_id e
    | _ ↦ false
  ]

pub record EngineMetrics (F : Type 0) : Type 0 where
  pub total_cycles : ℕ
  pub approved : ℕ
  pub rejected : ℕ
  pub approval_rate : F
  pub by_reason : Dict ℕ
  pub by_stage : Dict ℕ
  pub provider_contribution : Dict ℕ
  pub decisions_with_snapshot_id : ℕ
  pub snapshot_coverage : F

-- the entries of an outcome that its score is computed from
pub record Outcome (F : Type 0) : Type 0 where
  pub return_pct : F
  pub sharpe_ratio : F
  pub win_rate : F
  pub profit_factor : Option F
  pub max_drawdown_pct : F
  pub total_trades : ℕ

pub record BucketStats (F : Type 0) : Type 0 where
  pub trades : ℕ
  pub wins : ℕ
  pub losses : ℕ
  pub win_rate : F
  pub pnl : F
  pub gross_profit : F
  pub gross_loss : F

module _ {F : Type 0} ⦃o : Float F⦄ where
  -- `a / b if b else other`, of counts
  abbrev pub rate : ℕ → ℕ → F → F
  rate a b other = if ltb 0 b then o.of_nat a ⊘ o.of_nat b else other

  unfoldable pub finalize : List (EventEnvelope F) → Accumulator → EngineMetrics F
  finalize events acc =
      let decisions = filter is_decision events in
      let covered = length (filter is_covered decisions) in
      record {
        total_cycles = acc.total;
        approved = acc.approved;
        rejected = acc.total - acc.approved;
        approval_rate = rate acc.approved acc.total zero_f;
        by_reason = acc.rejection_reasons;
        by_stage = acc.rejection_stages;
        provider_contribution = acc.provider_hits;
        decisions_with_snapshot_id = covered;
        snapshot_coverage = rate covered (length decisions) (o.of_nat 1);
      }

  unfoldable pub compute_engine_metrics :
      List (CycleResult F) → List (EventEnvelope F) → EngineMetrics F
  unfolding observe_all finalize
  compute_engine_metrics cycles events = finalize events (observe_all cycles empty)

  abbrev pub is_win : F → Bool
  is_win p = o.lt zero_f p

  abbrev pub is_loss : F → Bool
  is_loss p = o.le p zero_f

  unfoldable pub bucket_stats : List F → BucketStats F
  bucket_stats pnls =
      let wins = filter is_win pnls in
      let losses = filter is_loss pnls in
      record {
        trades = length pnls;
        wins = length wins;
        losses = length losses;
        win_rate = rate (length wins) (length pnls) zero_f;
        pnl = o.sum pnls;
        gross_profit = o.sum wins;
        gross_loss = o.abs (o.sum losses);
      }

  -- the loop over the trades of `compute_outcome_metrics` that appends to the curve
  unfoldable pub curve_from : F → List F → List F
  curve_from last [] = []
  curve_from last (pnl ∷ pnls) = (last ⊕ pnl) ∷ curve_from (last ⊕ pnl) pnls

  unfoldable pub equity_curve : F → List F → List F
  unfolding curve_from
  equity_curve initial_capital pnls = initial_capital ∷ curve_from initial_capital pnls

  -- the loop over the curve, with its peak and the two drawdowns so far
  unfoldable pub drawdowns : (peak max_dd max_dd_pct : F) → List F → F × F
  drawdowns peak max_dd max_dd_pct [] = (max_dd, max_dd_pct)
  drawdowns peak max_dd max_dd_pct (value ∷ values) =
      let peak' = max peak value in
      let dd = peak' ⊖ value in
      drawdowns peak' (max max_dd dd)
        (if o.lt zero_f peak' then max max_dd_pct (dd ⊘ peak' ⊗ o.of_nat 100) else max_dd_pct)
        values

  -- `_max_drawdown_pct`, the second of the two with the first value as the peak
  unfoldable pub max_drawdown_pct : List F → F
  unfolding drawdowns
  max_drawdown_pct [] = zero_f
  max_drawdown_pct (value ∷ values) = (drawdowns value zero_f zero_f (value ∷ values)).1

  abbrev pub clamp : F → F → F → F
  clamp value low high = max low (min high value)

  unfoldable pub confidence_band : F → String
  confidence_band confidence =
      if o.le (o.lit 8 1) confidence
      then "0.80-1.00"
      else if o.le (o.lit 7 1) confidence
      then "0.70-0.79"
      else if o.le (o.lit 6 1) confidence
      then "0.60-0.69"
      else "below_0.60"

  abbrev pub minus_one : F
  minus_one = zero_f ⊖ o.of_nat 1

  unfoldable pub compute_strategy_score : Outcome F → F
  compute_strategy_score outcome =
      let one = o.of_nat 1 in
      let pf_term : F = elim outcome.profit_factor [ none ↦ one | some x ↦ x ⊖ one ] in
      let score =
        o.of_nat 100
          ⊗ (o.lit 45 2 ⊗ clamp (outcome.return_pct ⊘ o.of_nat 10) minus_one one
              ⊕ o.lit 20 2 ⊗ clamp (outcome.sharpe_ratio ⊘ o.of_nat 2) minus_one one
              ⊕ o.lit 15 2 ⊗ clamp ((outcome.win_rate ⊖ o.lit 5 1) ⊗ o.of_nat 2) minus_one one
              ⊕ o.lit 20 2 ⊗ clamp pf_term zero_f one)
        ⊖ o.lit 15 1 ⊗ outcome.max_drawdown_pct in
      o.round score 2

  unfoldable pub compute_optimization_score : Outcome F → F
  unfolding compute_strategy_score
  compute_optimization_score outcome =
      let score = compute_strategy_score outcome in
      if ltb outcome.total_trades 10 then min score (zero_f ⊖ o.of_nat 50) else score
