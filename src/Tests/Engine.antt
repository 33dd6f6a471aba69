-- ===== src/Tests/Engine.antt =====
-- The decision engine's theorems at the data.
use quantitative_trading.Prelude.{◌≡◌, ◌↔◌, ◌⊎◌, true, map, arith, filter, [], ◌∷◌}
use quantitative_trading.Prelude.Int.{ℤ, pos}
use quantitative_trading.Dict.{contains}
use quantitative_trading.Float.Exact.{int_float}
use quantitative_trading.Contracts.Signal.{Side}
use quantitative_trading.Engine.MarketFilter
use quantitative_trading.Engine.Aggregator.{
  AggregatorSuccess, success, combine, combine_majority, make_success, is_buy, is_sell,
}
use quantitative_trading.Engine.RiskManager.{evaluate}
use quantitative_trading.Engine.DecisionEngine.{process}
use quantitative_trading.Engine.Exits.{IsWithinLimits, IsExit, HasRoom, evaluate_iff}
use quantitative_trading.Engine.Verdict.{IsConsistent, Returns, process-Returns}
use quantitative_trading.Engine.Approval.{approves, PassesRisk, process_iff}
use quantitative_trading.Engine.Symmetry.{flip, flip_outcome, combine-flip}
use quantitative_trading.Engine.Consensus.{Elects, combine_majority-Elects}
use quantitative_trading.Engine.Weights.{is_provider, contains-make_success}
use quantitative_trading.Tests.Data.{signals, context, config, request, snap}

abbrev elected : AggregatorSuccess ℤ
elected = record {
  side = Side.buy;
  confidence = pos 75;
  weights = ("trend", pos 2) ∷ ("momentum", pos 2) ∷ [];
  dissent = "mean_reversion" ∷ [];
}

process-Returns_example : Returns (IsConsistent snap) (process config signals context snap request)
process-Returns_example = process-Returns config context snap request signals

process_iff_example : (approves (process config signals context snap request) ≡ true) ↔ (
    ((MarketFilter.check config.filter context).passed ≡ true)
    × ((a : AggregatorSuccess ℤ) × (combine config.aggregation signals ≡ success a)
        × PassesRisk config signals context snap request a))
process_iff_example = process_iff config signals context snap request

evaluate_iff_example : ((evaluate config.risk elected snap).passed ≡ true) ↔ (
    IsWithinLimits config.risk elected snap
    × (IsExit config.risk elected snap ⊎ HasRoom config.risk elected snap))
evaluate_iff_example = evaluate_iff config.risk elected snap

combine_majority-Elects_example :
    Elects 2
      (filter is_buy signals)
      (filter is_sell signals)
      (combine_majority config.aggregation true signals)
combine_majority-Elects_example =
    combine_majority-Elects config.aggregation true signals (omega arith)

combine-flip_example :
    combine config.aggregation (map flip signals)
    ≡ flip_outcome (combine config.aggregation signals)
combine-flip_example = combine-flip config.aggregation signals

contains-make_success_example :
    contains "momentum"
      (make_success (filter is_buy signals) (filter is_sell signals) Side.buy true).weights
    ≡ is_provider "momentum" (filter is_buy signals)
contains-make_success_example =
    contains-make_success "momentum" (filter is_buy signals) (filter is_sell signals) Side.buy true
