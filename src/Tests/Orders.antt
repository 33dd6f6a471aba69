-- ===== src/Tests/Orders.antt =====
-- A decision to buy, and an execution engine with two entries that wait.
use quantitative_trading.Prelude.{true, none, some, [], ◌∷◌}
use quantitative_trading.Prelude.Int.{ℤ, pos}
use quantitative_trading.Float.Exact.{int_float}
use quantitative_trading.Contracts.State.{Mode, PositionSide}
use quantitative_trading.Contracts.Signal.{Side, FinalSignal}
use quantitative_trading.Contracts.Decision.{Method, Decision, approved}
use quantitative_trading.Contracts.Execution.{
  FillAt, Bar, Order, OrderIntent, OrderType, OrderStatus, Venue,
}
use quantitative_trading.Engine.MarketFilter
use quantitative_trading.Engine.DecisionEngine.{
  decide, log_of, skipped_aggregation, skipped_risk_verdict,
}
use quantitative_trading.Execution.Simulator.{Engine, Cycle, PendingEntry}
use quantitative_trading.Tests.Data.{request, signals, snap, config, context}

-- a decision to buy, approved
abbrev pub final_signal : FinalSignal ℤ
final_signal = record {
  id = "sig_1";
  symbol = "BTC";
  side = Side.buy;
  entry_price = pos 100;
  stop_loss = pos 90;
  take_profit = pos 130;
  confidence = pos 75;
  risk_reward = pos 3;
  timeframe = "1h";
  event_time = 10;
  decision_time = 11;
  contributing_providers = "trend" ∷ "momentum" ∷ [];
  state_snapshot_id = "snap_1";
  revision_id = none;
  size_multiplier = pos 1;
}

abbrev pub decision : Decision ℤ
decision = decide request approved none none (some final_signal) (
    log_of signals snap (MarketFilter.check config.filter context)
      (skipped_aggregation Method.weighted_majority []) (skipped_risk_verdict snap))

-- the engine, the bar and the cycle
abbrev pub order : Order
order = record {
  order_id = "ord_2";
  intent_id = "intent_2";
  status = OrderStatus.submitted;
  submitted_at = 9;
  venue = Venue.simulator;
}

abbrev pub wanted : OrderIntent ℤ
wanted = record {
  intent_id = "intent_2";
  decision_id = "dec_1";
  correlation_id = "cor_1";
  symbol = "BTC";
  side = Side.buy;
  quantity = pos 2;
  order_type = OrderType.market;
  limit_price = some (pos 100);
  stop_loss = pos 90;
  take_profit = pos 130;
  state_snapshot_id = "snap_1";
  experiment_id = none;
  revision_id = none;
}

abbrev pub waiting : PendingEntry ℤ
waiting = record {
  order = order;
  intent = wanted;
  quantity = pos 2;
  side = Side.buy;
  position_side = PositionSide.long;
  symbol = "BTC";
  stop_loss = pos 90;
  take_profit = pos 130;
  decision_event_time = 9;
  portfolio_id = "main";
}

abbrev pub engine : Engine ℤ
engine = record {
  fill_model = record {
    model_id = "exact";
    slippage_bps = pos 0;
    fee_bps = pos 0;
    fill_at = FillAt.next_open;
  };
  config = record {
    max_bars_in_trade = 3;
    risk_pct_per_trade = pos 1;
    long_only = true;
    exposure_pct_per_trade = pos 0;
  };
  mode = Mode.paper;
  emit_events = true;
  position_bars = ("pos_1", 2) ∷ ("pos_2", 0) ∷ [];
  pending_entries = waiting ∷ record waiting { symbol = "ETH" } ∷ [];
  position_orders = ("pos_1", "ord_1") ∷ [];
  ids = record {
    draw = λ prefix n. prefix;
    events = 0;
    orders = 0;
    intents = 0;
    fills = 0;
    positions = 0;
    transitions = 0;
  };
}

abbrev pub bar : Bar ℤ
bar = record { open_ = pos 101; high = pos 110; low = pos 95; close = pos 105; volume = pos 7 }

abbrev pub cycle : Cycle
cycle = record {
  symbol = "BTC";
  timeframe = "1h";
  correlation_id = "cor_1";
  event_time = 12;
  processing_time = 13;
}
