-- ===== src/Tests/Data.antt =====
-- A store with two open positions, and the signals of three providers.
use quantitative_trading.Prelude.{ℕ, String, false, none, some, List, [], ◌∷◌}
use quantitative_trading.Prelude.Int.{ℤ, pos}
use quantitative_trading.Float.Exact.{int_float}
use quantitative_trading.Contracts.State.{
  Instant, Mode, PositionState, PositionSide, PositionStatus, StateSnapshot,
}
use quantitative_trading.Contracts.Signal.{
  Opinion, StrategySignal, MarketContext, Trend, Volatility,
}
use quantitative_trading.Contracts.Decision.{Method}
use quantitative_trading.Contracts.Execution.{Fill}
use quantitative_trading.Contracts.Event.{ExitReason}
use quantitative_trading.State.Transitions.{
  Transition, StateTransitionEvent, RiskUpdate, position_opened, position_closed, mark_to_market,
  risk_updated,
}
use quantitative_trading.State.Store.{Store, take_snapshot}
use quantitative_trading.Engine.Config.{EngineConfig}
use quantitative_trading.Engine.DecisionEngine.{Request}

abbrev pub a_fill : Fill ℤ
a_fill = record {
  fill_id = "fill_1";
  order_id = "ord_1";
  price = pos 100;
  quantity = pos 2;
  fee = pos 1;
  slippage_bps = pos 0;
  fill_time = 5;
  is_partial = false;
}

abbrev pub btc : PositionState ℤ
btc = record {
  position_id = "pos_1";
  symbol = "BTC";
  side = PositionSide.long;
  quantity = pos 2;
  entry_price = pos 100;
  entry_time = 5;
  stop_loss = some (pos 90);
  take_profit = some (pos 130);
  unrealized_pnl = pos 20;
  status = PositionStatus.open_;
}

abbrev pub eth : PositionState ℤ
eth = record btc {
  position_id = "pos_2";
  symbol = "ETH";
  side = PositionSide.short;
  quantity = pos 3;
  entry_price = pos 50;
  unrealized_pnl = pos 0;
}

abbrev pub sol : PositionState ℤ
sol = record btc { position_id = "pos_3"; symbol = "SOL"; quantity = pos 4; entry_price = pos 10 }

-- 650 in cash, 350 locked and 20 of unrealized profit
abbrev pub store : Store ℤ
store = record {
  portfolio_id = "main";
  portfolio = record {
    portfolio_id = "main";
    mode = Mode.paper;
    cash = pos 650;
    equity = pos 1_020;
    open_positions = btc ∷ eth ∷ [];
    realized_pnl = pos 0;
    version = 3;
    as_of_event_time = 6;
    as_of_processing_time = 6;
  };
  risk = record {
    risk_state_id = "risk_main";
    portfolio_id = "main";
    daily_pnl = pos 0;
    daily_drawdown_pct = pos 0;
    daily_start_equity = pos 1_000;
    open_exposure_pct = pos 35;
    consecutive_losses = 1;
    signals_today = 2;
    limits = record {
      max_daily_drawdown_pct = pos 5;
      max_open_positions = 3;
      max_exposure_pct = pos 50;
      max_consecutive_losses = 5;
    };
    breached_limits = [];
    version = 3;
    as_of_event_time = 6;
  };
  snapshots = [];
}

abbrev pub snap : StateSnapshot ℤ
snap = take_snapshot "snap_1" 7 none store

abbrev pub closing : Transition ℤ
closing = position_closed "pos_1" a_fill (pos 20) ExitReason.take_profit

abbrev pub trading : List (Transition ℤ × Instant)
trading =
    (position_opened sol a_fill (pos 41), 8)
    ∷ (mark_to_market (("BTC", pos 110) ∷ ("ETH", pos 49) ∷ []), 9)
    ∷ (closing, 10)
    ∷ (risk_updated (RiskUpdate.signals_today 3 ∷ []), 11)
    ∷ []

abbrev pub event : StateTransitionEvent ℤ
event = record {
  transition_id = "trans_1";
  portfolio_id = "main";
  transition = closing;
  event_time = 10;
  correlation_id = "cor_1";
}

abbrev pub strange_event : StateTransitionEvent ℤ
strange_event = record event { portfolio_id = "other" }

-- the signals, the context and the configuration of the decision engine
abbrev pub signal_of : String → Opinion → ℕ → StrategySignal ℤ
signal_of provider side confidence = record {
  provider_id = provider;
  symbol = "BTC";
  side = side;
  confidence = pos confidence;
  rationale = record { summary = "trend"; weight = some (pos 2) };
  feature_set_id = "fs_1";
  entry_price = some (pos 100);
  stop_loss = some (pos 90);
  take_profit = some (pos 130);
  timeframe = "1h";
  event_time = 10;
  valid_until_event_time = none;
}

abbrev pub signals : List (StrategySignal ℤ)
signals =
    signal_of "trend" Opinion.buy 80
    ∷ signal_of "momentum" Opinion.buy 70
    ∷ signal_of "mean_reversion" Opinion.sell 60
    ∷ []

abbrev pub context : MarketContext ℤ
context = record {
  symbol = "BTC";
  timeframe = "1h";
  current_price = pos 100;
  trend = Trend.up;
  volatility = Volatility.normal;
  atr = pos 5;
  atr_pct = pos 5;
  session = "london";
  event_time = 10;
}

abbrev pub config : EngineConfig ℤ
config = record {
  aggregation = record { min_agreeing_providers = 2; method = Method.weighted_majority };
  filter = record { min_atr_pct = pos 1; allowed_sessions = "london" ∷ "new_york" ∷ [] };
  risk = record {
    max_daily_drawdown_pct = pos 5;
    max_signals_per_day = 10;
    min_confidence = pos 60;
    min_risk_reward = pos 1;
    max_open_positions = 3;
    max_exposure_pct = pos 50;
    vol_target_atr_pct = pos 0;
    vol_target_cap = pos 2;
  };
}

abbrev pub request : Request
request = record {
  decision_id = "dec_1";
  signal_id = "sig_1";
  correlation_id = "cor_1";
  event_time = 10;
  decision_time = 11;
  revision_id = none;
  experiment_id = none;
}
