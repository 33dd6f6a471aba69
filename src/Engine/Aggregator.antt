-- ===== src/Engine/Aggregator.antt =====
-- `Aggregator` of engine/aggregator.py and the outcomes of engine/models.py.
use quantitative_trading.Prelude.{
  ℕ, ◌+◌, Bool, true, false, not, ◌&&◌, none, some, List, [], ◌∷◌, map, String, ltb, leb, ◌==◌,
  if◌then◌else◌, length, filter, any,
}
use quantitative_trading.Dict.{Dict, insert}
use quantitative_trading.Float.{Float, ◌⊕◌, ◌⊗◌, ◌⊘◌}
use quantitative_trading.Contracts.Signal.{Side, Opinion, StrategySignal}
use quantitative_trading.Contracts.Decision.{Reason, Method}
use quantitative_trading.Engine.Config.{AggregationConfig}
use quantitative_trading.State.Store.{truthy, zero_f}

pub record AggregatorSuccess (F : Type 0) : Type 0 where
  pub side : Side
  pub confidence : F
  pub weights : Dict F
  pub dissent : List String

pub data AggregatorOutcome (F : Type 0) : Type 0 where
  success : AggregatorSuccess F → AggregatorOutcome F
  failure : Reason → AggregatorOutcome F

abbrev pub is_buy_opinion : Opinion → Bool
is_buy_opinion Opinion.buy = true
is_buy_opinion Opinion.sell = false
is_buy_opinion Opinion.hold = false

abbrev pub is_sell_opinion : Opinion → Bool
is_sell_opinion Opinion.buy = false
is_sell_opinion Opinion.sell = true
is_sell_opinion Opinion.hold = false

abbrev pub is_hold_opinion : Opinion → Bool
is_hold_opinion Opinion.buy = false
is_hold_opinion Opinion.sell = false
is_hold_opinion Opinion.hold = true

module _ {F : Type 0} where
  abbrev pub is_buy : StrategySignal F → Bool
  is_buy s = is_buy_opinion s.side

  abbrev pub is_sell : StrategySignal F → Bool
  is_sell s = is_sell_opinion s.side

  -- `s.side != "HOLD"`
  abbrev pub is_active : StrategySignal F → Bool
  is_active s = not (is_hold_opinion s.side)

  abbrev pub is_hold : StrategySignal F → Bool
  is_hold s = is_hold_opinion s.side

  abbrev pub is_empty : List (StrategySignal F) → Bool
  is_empty [] = true
  is_empty (_ ∷ _) = false

  -- the size of the set of the sides
  abbrev pub side_count : List (StrategySignal F) → ℕ
  side_count active =
      (if any is_buy active then 1 else 0)
      + (if any is_sell active then 1 else 0)
      + (if any is_hold active then 1 else 0)

  abbrev pub first_side : List (StrategySignal F) → Opinion
  first_side [] = Opinion.hold
  first_side (s ∷ _) = s.side

  abbrev pub provider_ids : List (StrategySignal F) → List String
  provider_ids signals = map (λ s. s.provider_id) signals

module _ {F : Type 0} ⦃o : Float F⦄ where
  -- `_provider_weight`
  abbrev pub provider_weight : StrategySignal F → F
  provider_weight s = elim s.rationale.weight [ none ↦ o.lit 10 1 | some w ↦ w ]

  -- the loop over the winners: weights, weighted sum and total of the weights
  unfoldable pub weigh : Dict F → F → F → List (StrategySignal F) → Dict F × F × F
  weigh weights weighted_sum weight_total [] = (weights, weighted_sum, weight_total)
  weigh weights weighted_sum weight_total (s ∷ ss) =
      let w = provider_weight s in
      weigh (insert s.provider_id w weights) (weighted_sum ⊕ s.confidence ⊗ w) (weight_total ⊕ w) ss

  unfoldable pub weigh_equally : Dict F → List (StrategySignal F) → Dict F
  weigh_equally weights [] = weights
  weigh_equally weights (s ∷ ss) = weigh_equally (insert s.provider_id (o.lit 10 1) weights) ss

  -- `_success`
  unfoldable pub make_success :
      (winners losers : List (StrategySignal F)) → Side → (weighted : Bool) → AggregatorSuccess F
  unfolding weigh weigh_equally
  make_success winners losers side true =
      let (weights, weighted_sum, weight_total) = weigh [] zero_f zero_f winners in
      record {
        side = side;
        confidence = if truthy weight_total then weighted_sum ⊘ weight_total else zero_f;
        weights = weights;
        dissent = provider_ids losers;
      }
  make_success winners losers side false = record {
    side = side;
    confidence = o.sum (map (λ s. s.confidence) winners) ⊘ o.of_nat (length winners);
    weights = weigh_equally [] winners;
    dissent = provider_ids losers;
  }

  -- the end of `_combine_unanimous`, for the side of the first active signal
  unfoldable pub enough_agree :
      AggregationConfig → List (StrategySignal F) → Opinion → AggregatorOutcome F
  enough_agree config active Opinion.hold = failure Reason.insufficient_consensus
  enough_agree config active Opinion.buy =
      if ltb (length active) config.min_agreeing_providers
      then failure Reason.insufficient_consensus
      else success (make_success active [] Side.buy true)
  enough_agree config active Opinion.sell =
      if ltb (length active) config.min_agreeing_providers
      then failure Reason.insufficient_consensus
      else success (make_success active [] Side.sell true)

  unfoldable pub combine_unanimous :
      AggregationConfig → List (StrategySignal F) → AggregatorOutcome F
  unfolding enough_agree
  combine_unanimous config signals =
      let active = filter is_active signals in
      if is_empty active
      then failure Reason.no_active_signals
      else if not (side_count active == 1)
      then failure Reason.provider_conflict
      else enough_agree config active (first_side active)

  unfoldable pub combine_majority :
      AggregationConfig → (weighted : Bool) → List (StrategySignal F) → AggregatorOutcome F
  combine_majority config weighted signals =
      let active = filter is_active signals in
      let buys = filter is_buy active in
      let sells = filter is_sell active in
      let min_agree = config.min_agreeing_providers in
      if is_empty active
      then failure Reason.no_active_signals
      else if leb min_agree (length buys) && ltb (length sells) (length buys)
      then success (make_success buys sells Side.buy weighted)
      else if leb min_agree (length sells) && ltb (length buys) (length sells)
      then success (make_success sells buys Side.sell weighted)
      else if not (is_empty buys) && not (is_empty sells)
      then failure Reason.provider_conflict
      else failure Reason.insufficient_consensus

  unfoldable pub combine : AggregationConfig → List (StrategySignal F) → AggregatorOutcome F
  unfolding combine_unanimous combine_majority
  combine config signals = elim config.method [
    | Method.unanimous ↦ combine_unanimous config signals
    | Method.weighted_majority ↦ combine_majority config true signals
    | Method.majority ↦ combine_majority config false signals
  ]
