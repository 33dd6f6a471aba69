-- ===== src/Engine/Weights.antt =====
-- The weights that `_success` of engine/aggregator.py gathers.
use quantitative_trading.Prelude.{
  ◌≡◌, Bool, true, false, ◌||◌, List, [], ◌∷◌, String, arith, str_eq, any,
}
use quantitative_trading.Dict.{Dict, contains, insert, contains-insert}
use quantitative_trading.Float.{Float, ◌⊕◌, ◌⊗◌}
use quantitative_trading.Contracts.Signal.{Side, StrategySignal}
use quantitative_trading.Engine.Aggregator.{provider_weight, weigh, weigh_equally, make_success}

module _ {F : Type 0} where
  -- some signal of the list is this provider's
  abbrev pub is_provider : String → List (StrategySignal F) → Bool
  is_provider i ss = any (λ s. str_eq s.provider_id i) ss

module _ {F : Type 0} ⦃o : Float F⦄ where
  contains-weigh :
      (i : String) (d : Dict F) (x y : F) (ss : List (StrategySignal F))
      → contains i (weigh d x y ss).0 ≡ (contains i d || is_provider i ss)
  unfolding weigh
  contains-weigh i d x y [] = ground arith
  contains-weigh i d x y (s ∷ ss) = ground (
    arith,
    contains-insert s.provider_id i (provider_weight s) d,
    contains-weigh i (insert s.provider_id (provider_weight s) d)
        (x ⊕ s.confidence ⊗ provider_weight s) (y ⊕ provider_weight s) ss,
  )

  contains-weigh_equally :
      (i : String) (d : Dict F) (ss : List (StrategySignal F))
      → contains i (weigh_equally d ss) ≡ (contains i d || is_provider i ss)
  unfolding weigh_equally
  contains-weigh_equally i d [] = ground arith
  contains-weigh_equally i d (s ∷ ss) = ground (
    arith,
    contains-insert s.provider_id i (o.lit 10 1) d,
    contains-weigh_equally i (insert s.provider_id (o.lit 10 1) d) ss,
  )

  -- A success carries a weight for exactly the providers of the winning signals, weighted or not.
  pub contains-make_success :
      (i : String) (winners losers : List (StrategySignal F)) (side : Side) (weighted : Bool)
      → contains i (make_success winners losers side weighted).weights ≡ is_provider i winners
  unfolding make_success
  contains-make_success i winners losers side true = contains-weigh i [] _ _ winners
  contains-make_success i winners losers side false = contains-weigh_equally i [] winners
