-- ===== src/Tests/Scoring.antt =====
-- The ledger of trades and the selection of trials at concrete events and finalists.
use quantitative_trading.Prelude.{All, Option, ◌≡◌, refl, none, some, List, [], ◌∷◌, String, map}
use quantitative_trading.Prelude.Int.{ℤ, pos, ◌-ℤ◌}
use quantitative_trading.Float.Exact.{int_float}
use quantitative_trading.Contracts.Event.{EventEnvelope, EventType, ExitReason, opened, closed}
use quantitative_trading.Contracts.State.{PositionSide}
use quantitative_trading.Validation.Metrics.{Outcome}
use quantitative_trading.Validation.Trades.{Trade, field, build_trade_ledger}
use quantitative_trading.Validation.Ledger.{closings, last_opening, build_trade_ledger_lem}
use quantitative_trading.Validation.Selection.{TrialResult, select_best}
use quantitative_trading.Tests.Data.{btc}
use quantitative_trading.Tests.Analysis.{first_event}

-- a position that opens at 10 and closes at 20 with a profit, among the other events
abbrev ledger_events : List (EventEnvelope ℤ)
ledger_events =
    record first_event {
      event_type = EventType.position_opened;
      payload = opened "pos_1" "fill_1" btc;
    }
    ∷ first_event
    ∷ record first_event {
      event_type = EventType.position_closed;
      event_time = 20;
      payload = closed (record {
        position_id = "pos_1";
        exit_reason = ExitReason.take_profit;
        exit_price = pos 130;
        pnl = pos 60;
        fill_id = "fill_2";
        entry_price = pos 100;
        side = PositionSide.long;
        quantity = pos 2;
        stop_loss = none;
        take_profit = none;
        bars_held = 3;
      });
    }
    ∷ []

is_entered_at_10 :
    map (λ (t : Trade ℤ). t.entry_time) (build_trade_ledger ledger_events) ≡ some 10 ∷ []
unfolding build_trade_ledger
is_entered_at_10 = refl

build_trade_ledger_lem_example :
    (map
        (λ (t : Trade ℤ). (t.position_id, t.pnl, t.exit_reason, t.exit_time))
        (build_trade_ledger ledger_events)
      ≡ closings ledger_events)
    × All
        (λ t. t.entry_time ≡ field (λ i. i.entry_time) (last_opening t.position_id ledger_events))
        (build_trade_ledger ledger_events)
build_trade_ledger_lem_example = build_trade_ledger_lem ledger_events

-- three finalists: one that wins, one that it dominates, and one without a test
abbrev outcome_with : ℤ → Outcome ℤ
outcome_with return_pct = record {
  return_pct = return_pct;
  sharpe_ratio = pos 1;
  win_rate = pos 1;
  profit_factor = some (pos 2);
  max_drawdown_pct = pos 5;
  total_trades = 30;
}

abbrev finalist : String → Option (Outcome ℤ) → TrialResult ℤ
finalist trial_id test_outcome = record {
  trial_id = trial_id;
  train_outcome = outcome_with (pos 10);
  test_score = some (pos 40);
  test_outcome = test_outcome;
  stability = some (pos 1);
  composite_score = none;
  fold_std = none;
  pareto_rank = none;
}

abbrev finalists : List (TrialResult ℤ)
finalists =
    record (finalist "a" (some (outcome_with (pos 10)))) { fold_std = some (pos 1) }
    ∷ record (finalist "b" (some (outcome_with (pos 20)))) { fold_std = some (pos 2) }
    ∷ finalist "c" none
    ∷ []

abbrev best_id : List (TrialResult ℤ) → String
unfolding select_best
best_id trials = elim (select_best 20 (pos 0) trials).1 [ none ↦ "" | some t ↦ t.trial_id ]

best_is_b : best_id finalists ≡ "b"
unfolding best_id ◌-ℤ◌
best_is_b = refl
