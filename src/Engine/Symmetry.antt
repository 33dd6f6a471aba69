-- ===== src/Engine/Symmetry.antt =====
-- `Aggregator.combine` of engine/aggregator.py on signals turned from buying to selling and back.
use quantitative_trading.Prelude.{
  ◌≡◌, refl, Bool, true, false, List, [], ◌∷◌, map, arith, length, filter, any, Bool-cases, inl,
  inr,
}
use quantitative_trading.Dict.{Dict, insert}
use quantitative_trading.Float.{Float, ◌⊕◌, ◌⊗◌}
use quantitative_trading.Contracts.Signal.{Side, Opinion, StrategySignal}
use quantitative_trading.Contracts.Decision.{Method}
use quantitative_trading.Engine.Config.{AggregationConfig}
use quantitative_trading.Engine.Aggregator.{
  AggregatorSuccess, AggregatorOutcome, success, failure, is_buy, is_sell, is_hold, is_active,
  is_empty, provider_ids, provider_weight, weigh, weigh_equally, make_success, enough_agree,
  first_side, combine_unanimous, combine_majority, combine,
}

abbrev pub flip_side : Side → Side
flip_side Side.buy = Side.sell
flip_side Side.sell = Side.buy

abbrev pub flip_opinion : Opinion → Opinion
flip_opinion Opinion.buy = Opinion.sell
flip_opinion Opinion.sell = Opinion.buy
flip_opinion Opinion.hold = Opinion.hold

module _ {F : Type 0} where
  -- the same signal for the other side
  abbrev pub flip : StrategySignal F → StrategySignal F
  flip s = record s { side = flip_opinion s.side }

  abbrev pub flip_success : AggregatorSuccess F → AggregatorSuccess F
  flip_success a = record a { side = flip_side a.side }

  abbrev pub flip_outcome : AggregatorOutcome F → AggregatorOutcome F
  flip_outcome (success a) = success (flip_success a)
  flip_outcome (failure r) = failure r

  is_active-flip : (s : StrategySignal F) → is_active (flip s) ≡ is_active s
  is_active-flip s = ground arith

  is_buy-flip : (s : StrategySignal F) → is_buy (flip s) ≡ is_sell s
  is_buy-flip s = ground arith

  is_sell-flip : (s : StrategySignal F) → is_sell (flip s) ≡ is_buy s
  is_sell-flip s = ground arith

  is_hold-flip : (s : StrategySignal F) → is_hold (flip s) ≡ is_hold s
  is_hold-flip s = ground arith

  -- A comprehension over flipped signals is the flipped comprehension by the flipped test.
  filter-flip :
      (p q : StrategySignal F → Bool)
      → ((s : StrategySignal F) → p (flip s) ≡ q s)
      → (ss : List (StrategySignal F)) → filter p (map flip ss) ≡ map flip (filter q ss)
  filter-flip p q h [] = refl
  filter-flip p q h (s ∷ ss) = rw (h s) (elim (Bool-cases (q s)) [
    | inl t ↦ rw (t, filter-flip p q h ss)
    | inr t ↦ rw (t, filter-flip p q h ss)
  ])

  any-flip :
      (p q : StrategySignal F → Bool)
      → ((s : StrategySignal F) → p (flip s) ≡ q s)
      → (ss : List (StrategySignal F)) → any p (map flip ss) ≡ any q ss
  any-flip p q h [] = refl
  any-flip p q h (s ∷ ss) = rw (h s, any-flip p q h ss)

  length-flip : (ss : List (StrategySignal F)) → length (map flip ss) ≡ length ss
  length-flip [] = refl
  length-flip (s ∷ ss) = rw (length-flip ss)

  is_empty-flip : (ss : List (StrategySignal F)) → is_empty (map flip ss) ≡ is_empty ss
  is_empty-flip [] = refl
  is_empty-flip (s ∷ ss) = refl

  provider_ids-flip : (ss : List (StrategySignal F)) → provider_ids (map flip ss) ≡ provider_ids ss
  provider_ids-flip [] = refl
  provider_ids-flip (s ∷ ss) = rw (provider_ids-flip ss)

  confidences-flip :
      (ss : List (StrategySignal F))
      → map (λ s. s.confidence) (map flip ss) ≡ map (λ s. s.confidence) ss
  confidences-flip [] = refl
  confidences-flip (s ∷ ss) = rw (confidences-flip ss)

  first_side-flip :
      (ss : List (StrategySignal F)) → first_side (map flip ss) ≡ flip_opinion (first_side ss)
  first_side-flip [] = refl
  first_side-flip (s ∷ ss) = refl

module _ {F : Type 0} ⦃o : Float F⦄ where
  weigh-flip :
      (weights : Dict F) (x y : F) (ss : List (StrategySignal F))
      → weigh weights x y (map flip ss) ≡ weigh weights x y ss
  unfolding weigh
  weigh-flip weights x y [] = refl
  weigh-flip weights x y (s ∷ ss) =
      let w = provider_weight s in
      weigh-flip (insert s.provider_id w weights) (x ⊕ s.confidence ⊗ w) (y ⊕ w) ss

  weigh_equally-flip :
      (weights : Dict F) (ss : List (StrategySignal F))
      → weigh_equally weights (map flip ss) ≡ weigh_equally weights ss
  unfolding weigh_equally
  weigh_equally-flip weights [] = refl
  weigh_equally-flip weights (s ∷ ss) =
      weigh_equally-flip (insert s.provider_id (o.lit 10 1) weights) ss

  make_success-flip :
      (winners losers : List (StrategySignal F)) (side : Side) (weighted : Bool)
      → make_success (map flip winners) (map flip losers) (flip_side side) weighted
        ≡ flip_success (make_success winners losers side weighted)
  unfolding make_success
  make_success-flip winners losers side true = rw (weigh-flip, provider_ids-flip)
  make_success-flip winners losers side false =
      rw (weigh_equally-flip, provider_ids-flip, confidences-flip, length-flip)

  enough_agree-flip :
      (config : AggregationConfig) (active : List (StrategySignal F)) (side : Opinion)
      → enough_agree config (map flip active) (flip_opinion side)
        ≡ flip_outcome (enough_agree config active side)
  unfolding enough_agree
  enough_agree-flip config active Opinion.hold = refl
  enough_agree-flip config active Opinion.buy =
      rw (length-flip active, make_success-flip active [] Side.buy true) (ground arith)
  enough_agree-flip config active Opinion.sell =
      rw (length-flip active, make_success-flip active [] Side.sell true) (ground arith)

  combine_unanimous-flip :
      (config : AggregationConfig) (ss : List (StrategySignal F))
      → combine_unanimous config (map flip ss) ≡ flip_outcome (combine_unanimous config ss)
  unfolding combine_unanimous
  combine_unanimous-flip config ss =
      let active = filter is_active ss in
      rw
        (
          filter-flip is_active is_active is_active-flip ss,
          is_empty-flip active,
          any-flip is_buy is_sell is_buy-flip active,
          any-flip is_sell is_buy is_sell-flip active,
          any-flip is_hold is_hold is_hold-flip active,
          first_side-flip active,
          enough_agree-flip config active (first_side active),
        )
        (ground arith)

  combine_majority-flip :
      (config : AggregationConfig) (weighted : Bool) (ss : List (StrategySignal F))
      → combine_majority config weighted (map flip ss)
        ≡ flip_outcome (combine_majority config weighted ss)
  unfolding combine_majority
  combine_majority-flip config weighted ss =
      let active = filter is_active ss in
      let buys = filter is_buy active in
      let sells = filter is_sell active in
      rw
        (
          filter-flip is_active is_active is_active-flip ss,
          filter-flip is_buy is_sell is_buy-flip active,
          filter-flip is_sell is_buy is_sell-flip active,
          is_empty-flip active,
          is_empty-flip buys,
          is_empty-flip sells,
          length-flip buys,
          length-flip sells,
          make_success-flip buys sells Side.buy weighted,
          make_success-flip sells buys Side.sell weighted,
        )
        (ground arith)

  -- Turning every signal into one for the other side turns the outcome into the same outcome for the
  -- other side, by every method: same confidence, weights and dissent, or the same failure.
  pub combine-flip :
      (config : AggregationConfig) (ss : List (StrategySignal F))
      → combine config (map flip ss) ≡ flip_outcome (combine config ss)
  unfolding combine
  combine-flip config ss = by_method config.method refl
    where
      by_method :
          (m : Method)
          → config.method ≡ m
          → combine config (map flip ss) ≡ flip_outcome (combine config ss)
      by_method Method.unanimous e = rw (e, combine) (combine_unanimous-flip config ss)
      by_method Method.weighted_majority e = rw (e, combine) (combine_majority-flip config true ss)
      by_method Method.majority e = rw (e, combine) (combine_majority-flip config false ss)
