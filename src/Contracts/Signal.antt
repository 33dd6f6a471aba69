-- ===== src/Contracts/Signal.antt =====
-- core/contracts/signal.py, context.py, and of rationale.py what the engine reads: a rationale keeps
-- its summary and the entry "weight" of its metadata.
use quantitative_trading.Prelude.{String, List, Option}
use quantitative_trading.Contracts.State.{Instant}

-- `Literal["BUY", "SELL"]`
pub data Side : Type 0 where
  buy sell : Side

-- `Literal["BUY", "SELL", "HOLD"]`
pub data Opinion : Type 0 where
  buy sell hold : Opinion

pub record ProviderRationale (F : Type 0) : Type 0 where
  pub summary : String
  pub weight : Option F

pub record StrategySignal (F : Type 0) : Type 0 where
  pub provider_id : String
  pub symbol : String
  pub side : Opinion
  pub confidence : F
  pub rationale : ProviderRationale F
  pub feature_set_id : String
  pub entry_price : Option F
  pub stop_loss : Option F
  pub take_profit : Option F
  pub timeframe : String
  pub event_time : Instant
  pub valid_until_event_time : Option Instant

pub record FinalSignal (F : Type 0) : Type 0 where
  pub id : String
  pub symbol : String
  pub side : Side
  pub entry_price : F
  pub stop_loss : F
  pub take_profit : F
  pub confidence : F
  pub risk_reward : F
  pub timeframe : String
  pub event_time : Instant
  pub decision_time : Instant
  pub contributing_providers : List String
  pub state_snapshot_id : String
  pub revision_id : Option String
  pub size_multiplier : F

pub data Trend : Type 0 where
  up down sideways : Trend

pub data Volatility : Type 0 where
  low normal high : Volatility

pub record MarketContext (F : Type 0) : Type 0 where
  pub symbol : String
  pub timeframe : String
  pub current_price : F
  pub trend : Trend
  pub volatility : Volatility
  pub atr : F
  pub atr_pct : F
  pub session : String
  pub event_time : Instant
