-- ===== src/Execution/Simulator.antt =====
-- The state of `SimulatedExecutionEngine` of execution/simulated.py, its configuration, the results of
-- its methods, and the events that it emits (simulated_events.py).
use quantitative_trading.Prelude.{
  ℕ, ◌+◌, Bool, true, false, Option, none, List, [], String, if◌then◌else◌, filter,
}
use quantitative_trading.Dict.{Dict}
use quantitative_trading.Contracts.State.{Instant, Mode, PositionSide}
use quantitative_trading.Contracts.Signal.{Side}
use quantitative_trading.Contracts.Execution.{FillModel, Order, OrderIntent}
use quantitative_trading.Contracts.Event.{EventEnvelope, EventFamily, EventType, Payload, failure}
use quantitative_trading.State.Transitions.{StateTransitionEvent}

-- `ValidationExecutionConfig` of execution/config.py
pub record ExecutionConfig (F : Type 0) : Type 0 where
  pub max_bars_in_trade : ℕ
  pub risk_pct_per_trade : F
  pub long_only : Bool
  pub exposure_pct_per_trade : F

-- `PendingEntry` of simulated_pending.py
pub record PendingEntry (F : Type 0) : Type 0 where
  pub order : Order
  pub intent : OrderIntent F
  pub quantity : F
  pub side : Side
  pub position_side : PositionSide
  pub symbol : String
  pub stop_loss : F
  pub take_profit : F
  pub decision_event_time : Instant
  pub portfolio_id : String

-- The draws of `uuid.uuid4()`: `draw prefix n` is the id from the n-th draw under the prefix, and the
-- numbers count the draws made so far.
pub record Ids : Type 0 where
  pub draw : String → ℕ → String
  pub events : ℕ
  pub orders : ℕ
  pub intents : ℕ
  pub fills : ℕ
  pub positions : ℕ
  pub transitions : ℕ

pub record Engine (F : Type 0) : Type 0 where
  pub fill_model : FillModel F
  pub config : ExecutionConfig F
  pub mode : Mode
  pub emit_events : Bool
  pub position_bars : Dict ℕ
  pub pending_entries : List (PendingEntry F)
  pub position_orders : Dict String
  pub ids : Ids

-- `ExecutionResult` of execution/engine.py
pub record ExecutionResult (F : Type 0) : Type 0 where
  pub events : List (EventEnvelope F)
  pub transitions : List (StateTransitionEvent F)

-- What the methods are told of the bar that they handle.
pub record Cycle : Type 0 where
  pub symbol : String
  pub timeframe : String
  pub correlation_id : String
  pub event_time : Instant
  pub processing_time : Instant

-- an event type of `_SCORE_OUTCOME_TYPES`
abbrev pub is_outcome : EventType → Bool
is_outcome EventType.order_rejected = true
is_outcome EventType.position_opened = true
is_outcome EventType.position_closed = true
is_outcome _ = false

module _ {F : Type 0} where
  abbrev pub no_result : ExecutionResult F
  no_result = record { events = []; transitions = [] }

  -- `build_envelope` for an execution event of the engine, with the draw of its id
  abbrev pub emit :
      Cycle → EventType → Payload F → Option String → Engine F → EventEnvelope F × Engine F
  emit cycle type payload causation_id engine = (
    record {
      event_id = engine.ids.draw "evt_" engine.ids.events;
      event_family = EventFamily.execution;
      event_type = type;
      event_time = cycle.event_time;
      processing_time = cycle.processing_time;
      correlation_id = cycle.correlation_id;
      causation_id = causation_id;
      cycle_id = cycle.correlation_id;
      symbol = cycle.symbol;
      timeframe = cycle.timeframe;
      mode = engine.mode;
      experiment_id = none;
      revision_id = none;
      payload = payload;
    },
    record engine { ids = record engine.ids { events = engine.ids.events + 1 } },
  )

  -- `filter_events`
  unfoldable pub filter_events : Engine F → List (EventEnvelope F) → List (EventEnvelope F)
  filter_events engine events =
      if engine.emit_events then events else filter (λ e. is_outcome e.event_type) events

  -- `execution_failed`
  abbrev pub execution_failed :
      Cycle → (error stage : String) → Engine F → EventEnvelope F × Engine F
  execution_failed cycle error stage engine =
      emit cycle EventType.execution_failed (failure error stage) none engine
