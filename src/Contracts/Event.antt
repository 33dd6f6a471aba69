-- ===== src/Contracts/Event.antt =====
-- core/contracts/event.py and events/envelopes.py. A payload is a constructor for each dictionary
-- that the execution engine and the runtime write.
use quantitative_trading.Prelude.{ℕ, Bool, String, Option, List}
use quantitative_trading.Dict.{Dict}
use quantitative_trading.Contracts.State.{Instant, Mode, PositionState, PositionSide}
use quantitative_trading.Contracts.Signal.{
  Side, Opinion, ProviderRationale, FinalSignal, MarketContext,
}
use quantitative_trading.Contracts.Decision.{Outcome, Reason, Stage, DecisionLog}
use quantitative_trading.Contracts.Execution.{OrderIntent, Order, Fill, Venue, Bar}

pub data EventFamily : Type 0 where
  market signal decision execution operational : EventFamily

-- The constants of `MarketEventType`, `SignalEventType`, `DecisionEventType` and
-- `ExecutionEventType`.
pub data EventType : Type 0 where
  candle_received feature_set_built market_context_derived : EventType
  provider_opinion provider_skipped : EventType
  decision_made decision_approved decision_rejected : EventType
  order_intent_created order_submitted order_acknowledged fill_received : EventType
  position_opened position_closed signal_published order_rejected execution_failed : EventType

pub data ExitReason : Type 0 where
  signal stop_loss take_profit timeout end_of_run : ExitReason

pub record ClosedPosition (F : Type 0) : Type 0 where
  pub position_id : String
  pub exit_reason : ExitReason
  pub exit_price : F
  pub pnl : F
  pub fill_id : String
  pub entry_price : F
  pub side : PositionSide
  pub quantity : F
  pub stop_loss : Option F
  pub take_profit : Option F
  pub bars_held : ℕ

pub data Payload (F : Type 0) : Type 0 where
  intent : OrderIntent F → Payload F
  rejection : (reason stage : String) → Payload F
  failure : (error stage : String) → Payload F
  submitted : (order : Order) (venue : Venue) (decision_id : String) → Payload F
  acknowledged : (order_id : String) (venue : Venue) → Payload F
  -- the last argument is the entry "exit", which only a closing fill has
  fill : (fill : Fill F) (fill_model_id : String) (exit : Bool) → Payload F
  opened : (position_id entry_fill_id : String) (position : PositionState F) → Payload F
  closed : ClosedPosition F → Payload F
  candle : Bar F → Payload F
  features :
      (feature_set_id feature_version config_hash : String) (indicators : Dict F)
      (flags : Dict Bool)
      → Payload F
  market_context : MarketContext F → Payload F
  skipped : (provider_id reason : String) → Payload F
  opinion :
      (provider_id : String) (side : Opinion) (confidence : F) (rationale : ProviderRationale F)
      → Payload F
  decision_made :
      (decision_id : String) (result : Outcome) (state_snapshot_id : String) (log : DecisionLog F)
      → Payload F
  decision_approved :
      (decision_id state_snapshot_id : String) (final_signal : Option (FinalSignal F)) → Payload F
  decision_rejected :
      (decision_id state_snapshot_id : String) (rejection_stage : Option Stage)
      (rejection_reason : Option Reason) (log : DecisionLog F)
      → Payload F
  signal_published :
      (decision_id : String) (side : Side)
      (entry_price stop_loss take_profit confidence risk_reward : F) (provider_ids : List String)
      → Payload F

pub record EventEnvelope (F : Type 0) : Type 0 where
  pub event_id : String
  pub event_family : EventFamily
  pub event_type : EventType
  pub event_time : Instant
  pub processing_time : Instant
  pub correlation_id : String
  pub causation_id : Option String
  pub cycle_id : String
  pub symbol : String
  pub timeframe : String
  pub mode : Mode
  pub experiment_id : Option String
  pub revision_id : Option String
  pub payload : Payload F

-- The string of an event type, the value of its constant.
abbrev pub type_name : EventType → String
type_name EventType.candle_received = "CandleReceived"
type_name EventType.feature_set_built = "FeatureSetBuilt"
type_name EventType.market_context_derived = "MarketContextDerived"
type_name EventType.provider_opinion = "ProviderOpinion"
type_name EventType.provider_skipped = "ProviderSkipped"
type_name EventType.decision_made = "DecisionMade"
type_name EventType.decision_approved = "DecisionApproved"
type_name EventType.decision_rejected = "DecisionRejected"
type_name EventType.order_intent_created = "OrderIntentCreated"
type_name EventType.order_submitted = "OrderSubmitted"
type_name EventType.order_acknowledged = "OrderAcknowledged"
type_name EventType.fill_received = "FillReceived"
type_name EventType.position_opened = "PositionOpened"
type_name EventType.position_closed = "PositionClosed"
type_name EventType.signal_published = "SignalPublished"
type_name EventType.order_rejected = "OrderRejected"
type_name EventType.execution_failed = "ExecutionFailed"
