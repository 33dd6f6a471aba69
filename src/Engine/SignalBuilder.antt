-- ===== src/Engine/SignalBuilder.antt =====
-- `FinalSignalBuilder` of engine/final_signal_builder.py. The drawn id is an argument.
use quantitative_trading.Prelude.{
  ◌&&◌, Option, none, some, List, [], ◌∷◌, map, String, if◌then◌else◌, length, filter,
}
use quantitative_trading.Dict.{Dict, get_or, contains, keys}
use quantitative_trading.Float.{Float, ◌⊖◌, ◌⊗◌, ◌⊘◌, min}
use quantitative_trading.Contracts.State.{Instant, StateSnapshot}
use quantitative_trading.Contracts.Signal.{Side, StrategySignal, FinalSignal, MarketContext}
use quantitative_trading.Engine.Aggregator.{AggregatorSuccess}
use quantitative_trading.State.Store.{zero_f}

module _ {F : Type 0} ⦃o : Float F⦄ where
  -- the pairs of a level and its provider's weight, for the signals that have the level
  unfoldable pub levels :
      (StrategySignal F → Option F) → Dict F → List (StrategySignal F) → List (F × F)
  levels level weights [] = []
  levels level weights (s ∷ ss) =
      let rest = levels level weights ss in
      elim (level s) [
        | none ↦ rest
        | some x ↦ (x, get_or weights s.provider_id (o.lit 10 1)) ∷ rest
      ]

  -- `weighted_avg`
  unfoldable pub weighted_avg : List (F × F) → Option F
  weighted_avg [] = none
  weighted_avg (v ∷ vs) =
      let values = v ∷ vs in
      let total_w = o.sum (map (λ x. x.1) values) in
      some (
        if o.le total_w zero_f
        then o.sum (map (λ x. x.0) values) ⊘ o.of_nat (length values)
        else o.sum (map (λ x. x.0 ⊗ x.1) values) ⊘ total_w)

  -- `weighted_avg(levels) if levels else default`: there is no average exactly where there is no level
  abbrev avg_or : List (F × F) → F → F
  avg_or values default = elim (weighted_avg values) [ none ↦ default | some x ↦ x ]

  -- the factors on the entry where no winner has a stop or a target
  abbrev default_stop : Side → F → F
  default_stop Side.buy entry = entry ⊗ o.lit 99 2
  default_stop Side.sell entry = entry ⊗ o.lit 101 2

  abbrev default_target : Side → F → F
  default_target Side.buy entry = entry ⊗ o.lit 102 2
  default_target Side.sell entry = entry ⊗ o.lit 98 2

  unfoldable pub merge_levels : Side → List (StrategySignal F) → F → Dict F → F × F
  unfolding levels weighted_avg
  merge_levels side winners entry weights = (
    avg_or (levels (λ s. s.stop_loss) weights winners) (default_stop side entry),
    avg_or (levels (λ s. s.take_profit) weights winners) (default_target side entry),
  )

  unfoldable pub risk_reward : (entry stop_loss take_profit : F) → F
  risk_reward entry stop_loss take_profit =
      let risk = o.abs (entry ⊖ stop_loss) in
      let reward = o.abs (take_profit ⊖ entry) in
      if o.eq risk zero_f then zero_f else o.round (reward ⊘ risk) 4

  unfoldable pub size_multiplier : (vol_target_atr_pct vol_target_cap atr_pct : F) → F
  size_multiplier target cap atr_pct =
      if o.lt zero_f target && o.lt zero_f atr_pct then min cap (target ⊘ atr_pct) else o.lit 10 1

  unfoldable pub build :
      AggregatorSuccess F
      → List (StrategySignal F)
      → MarketContext F
      → StateSnapshot F
      → (decision_time : Instant) (revision_id : Option String)
        (vol_target_atr_pct vol_target_cap : F) (signal_id : String)
      → FinalSignal F
  unfolding merge_levels risk_reward size_multiplier
  build aggregated signals context snapshot decision_time revision_id target cap signal_id =
      let winners = filter (λ s. contains s.provider_id aggregated.weights) signals in
      let entry = context.current_price in
      let (stop_loss, take_profit) =
        merge_levels aggregated.side winners entry aggregated.weights in
      record {
        id = signal_id;
        symbol = context.symbol;
        side = aggregated.side;
        entry_price = entry;
        stop_loss = stop_loss;
        take_profit = take_profit;
        confidence = aggregated.confidence;
        risk_reward = risk_reward entry stop_loss take_profit;
        timeframe = context.timeframe;
        event_time = context.event_time;
        decision_time = decision_time;
        contributing_providers = keys aggregated.weights;
        state_snapshot_id = snapshot.snapshot_id;
        revision_id = revision_id;
        size_multiplier = size_multiplier target cap context.atr_pct;
      }
