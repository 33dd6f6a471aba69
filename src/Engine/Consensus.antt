-- ===== src/Engine/Consensus.antt =====
-- What the majority methods of the aggregator elect, told by the numbers of buyers and sellers.
use quantitative_trading.Prelude.{
  ℕ, ◌+◌, ◌≤◌, ◌<◌, ◌≡◌, ◌⊎◌, refl, Bool, true, false, List, [], ◌∷◌, arith, length, filter,
}
use quantitative_trading.Float.{Float}
use quantitative_trading.Contracts.Signal.{Side, StrategySignal}
use quantitative_trading.Contracts.Decision.{Reason}
use quantitative_trading.Engine.Config.{AggregationConfig}
use quantitative_trading.Engine.Aggregator.{
  AggregatorOutcome, success, failure, is_buy, is_sell, is_active, provider_ids, make_success,
  combine_majority,
}

-- enough providers on this side, and more than on the other
abbrev pub Wins : ℕ → ℕ → ℕ → Type 0
Wins min_agree mine theirs = (min_agree ≤ mine) × (theirs < mine)

module _ {F : Type 0} where
  filter-buys :
      (ss : List (StrategySignal F)) → filter is_buy (filter is_active ss) ≡ filter is_buy ss
  filter-buys [] = refl
  filter-buys (s ∷ ss) = ground (arith, filter-buys ss)

  filter-sells :
      (ss : List (StrategySignal F)) → filter is_sell (filter is_active ss) ≡ filter is_sell ss
  filter-sells [] = refl
  filter-sells (s ∷ ss) = ground (arith, filter-sells ss)

  length-active :
      (ss : List (StrategySignal F))
      → length (filter is_active ss) ≡ length (filter is_buy ss) + length (filter is_sell ss)
  length-active [] = omega arith
  length-active (s ∷ ss) = ground (arith, length-active ss)

  abbrev pub Elects :
      ℕ → List (StrategySignal F) → List (StrategySignal F) → AggregatorOutcome F → Type 0
  Elects k buys sells (success a) =
      ((a.side ≡ Side.buy) × Wins k (length buys) (length sells) × (a.dissent ≡ provider_ids sells))
      ⊎ ((a.side ≡ Side.sell)
          × Wins k (length sells) (length buys)
          × (a.dissent ≡ provider_ids buys))
  Elects k buys sells (failure Reason.no_active_signals) = (length buys ≡ 0) × (length sells ≡ 0)
  Elects k buys sells (failure Reason.provider_conflict) =
      (0 < length buys)
      × (0 < length sells)
      × ¬ (Wins k (length buys) (length sells))
      × ¬ (Wins k (length sells) (length buys))
  Elects k buys sells (failure Reason.insufficient_consensus) =
      (0 < length buys + length sells)
      × (length buys + length sells < k)
      × ((length buys ≡ 0) ⊎ (length sells ≡ 0))
  Elects k buys sells (failure _) = ⊥

module _ {F : Type 0} ⦃o : Float F⦄ where
  side-make_success :
      (winners losers : List (StrategySignal F)) (side : Side) (weighted : Bool)
      → ((make_success winners losers side weighted).side ≡ side)
        × ((make_success winners losers side weighted).dissent ≡ provider_ids losers)
  unfolding make_success
  side-make_success winners losers side true = (refl, refl)
  side-make_success winners losers side false = (refl, refl)

  -- The majority methods, where at least one provider has to agree. A success is for the side that has
  -- enough providers and more than the other, and the other side dissents. No active signal, a
  -- conflict and a lack of consensus are reported exactly where there is no buyer and no seller, where
  -- there are both and neither side wins, and where one side alone has too few.
  pub combine_majority-Elects :
      (config : AggregationConfig) (weighted : Bool) (ss : List (StrategySignal F))
      → 1 ≤ config.min_agreeing_providers
      → Elects config.min_agreeing_providers
          (filter is_buy ss)
          (filter is_sell ss)
          (combine_majority config weighted ss)
  unfolding combine_majority
  combine_majority-Elects config weighted ss h =
      rw (filter-buys ss, filter-sells ss)
        (ground (
          arith,
          length-active ss,
          side-make_success (filter is_buy ss) (filter is_sell ss) Side.buy weighted,
          side-make_success (filter is_sell ss) (filter is_buy ss) Side.sell weighted,
        ))
