-- ===== src/Execution/Orders.antt =====
-- `execute` of execution/simulated.py: the intent, the gate, the order and what follows. It returns the
-- engine as it leaves it.
use quantitative_trading.Prelude.{
  ◌+◌, Bool, true, false, ◌&&◌, Option, none, some, List, [], ◌∷◌, ◌++◌, String, if◌then◌else◌,
}
use quantitative_trading.Float.{Float}
use quantitative_trading.Contracts.State.{PositionSide, StateSnapshot}
use quantitative_trading.Contracts.Signal.{Side, FinalSignal}
use quantitative_trading.Contracts.Decision.{Decision, is_approved}
use quantitative_trading.Contracts.Execution.{
  OrderIntent, Order, OrderType, OrderStatus, Venue, Bar,
}
use quantitative_trading.Contracts.Event.{
  EventEnvelope, EventType, Payload, intent, rejection, submitted, acknowledged,
}
use quantitative_trading.State.Transitions.{StateTransitionEvent}
use quantitative_trading.State.Store.{zero_f}
use quantitative_trading.Execution.Simulator.{
  Engine, PendingEntry, ExecutionResult, Cycle, no_result, emit, filter_events, execution_failed,
}
use quantitative_trading.Execution.Pricing.{position_size, is_next_open}
use quantitative_trading.Execution.Gate.{
  GateResult, passed, refused, zero_division, reason_text, check,
}
use quantitative_trading.Execution.Positions.{Entry, open_position}

abbrev pub is_sell : Side → Bool
is_sell Side.sell = true
is_sell Side.buy = false

abbrev pub position_side_of : Side → PositionSide
position_side_of Side.buy = PositionSide.long
position_side_of Side.sell = PositionSide.short

module _ {F : Type 0} where
  abbrev pub intent_of :
      Engine F → Decision F → FinalSignal F → StateSnapshot F → Cycle → F → OrderIntent F
  intent_of engine decision signal snapshot cycle quantity = record {
    intent_id = engine.ids.draw "intent_" engine.ids.intents;
    decision_id = decision.decision_id;
    correlation_id = cycle.correlation_id;
    symbol = cycle.symbol;
    side = signal.side;
    quantity = quantity;
    order_type = OrderType.market;
    limit_price = some signal.entry_price;
    stop_loss = signal.stop_loss;
    take_profit = signal.take_profit;
    state_snapshot_id = snapshot.snapshot_id;
    experiment_id = decision.experiment_id;
    revision_id = decision.revision_id;
  }

  abbrev pub draw_intent : Engine F → Engine F
  draw_intent engine = record engine {
    ids = record engine.ids { intents = engine.ids.intents + 1 };
  }

  abbrev draw_order : Engine F → Engine F
  draw_order engine = record engine { ids = record engine.ids { orders = engine.ids.orders + 1 } }

  abbrev order_of : Engine F → OrderIntent F → Cycle → Order
  order_of engine wanted cycle = record {
    order_id = engine.ids.draw "ord_" engine.ids.orders;
    intent_id = wanted.intent_id;
    status = OrderStatus.submitted;
    submitted_at = cycle.processing_time;
    venue = Venue.simulator;
  }

  -- An event that is made only where events are emitted: the list with it, the id that the next event
  -- names as its cause, and the engine.
  abbrev pub emit_if :
      Cycle
      → EventType
      → Payload F
      → List (EventEnvelope F) × Option String × Engine F
      → List (EventEnvelope F) × Option String × Engine F
  emit_if cycle type payload (events, causation_id, engine) =
      let (e, engine') = emit cycle type payload causation_id engine in
      if engine.emit_events
      then (events ++ (e ∷ []), some e.event_id, engine')
      else (events, causation_id, engine)

  abbrev pending_of :
      Order
      → OrderIntent F
      → Decision F
      → FinalSignal F
      → StateSnapshot F
      → Cycle
      → F
      → PendingEntry F
  pending_of order wanted decision signal snapshot cycle quantity = record {
    order = order;
    intent = wanted;
    quantity = quantity;
    side = signal.side;
    position_side = position_side_of signal.side;
    symbol = cycle.symbol;
    stop_loss = signal.stop_loss;
    take_profit = signal.take_profit;
    decision_event_time = decision.event_time;
    portfolio_id = snapshot.portfolio.portfolio_id;
  }

  abbrev pub result_of :
      Engine F
      → List (EventEnvelope F)
      → List (StateTransitionEvent F)
      → ExecutionResult F × Engine F
  result_of engine events transitions =
      (record { events = filter_events engine events; transitions = transitions }, engine)

module _ {F : Type 0} ⦃o : Float F⦄ (decision : Decision F) (snapshot : StateSnapshot F)
    (bar : Bar F) where
  abbrev pub entry_for : FinalSignal F → Cycle → F → Order → Entry F
  entry_for signal cycle quantity order = record {
    order = order;
    quantity = quantity;
    side = signal.side;
    position_side = position_side_of signal.side;
    symbol = cycle.symbol;
    stop_loss = signal.stop_loss;
    take_profit = signal.take_profit;
  }

  -- the order waits for the next bar, or it is filled
  unfoldable pub enter :
      FinalSignal F
      → Cycle
      → F
      → OrderIntent F
      → Order
      → List (EventEnvelope F)
      → Option String
      → Engine F
      → ExecutionResult F × Engine F
  enter signal cycle quantity wanted order events cause engine =
      let done =
        open_position engine (entry_for signal cycle quantity order) bar snapshot cycle cause
          false in
      if is_next_open engine.fill_model.fill_at
      then result_of
          (record engine {
            pending_entries =
                engine.pending_entries
                ++ (pending_of order wanted decision signal snapshot cycle quantity ∷ []);
          })
          events []
      else result_of done.engine (events ++ done.events) (done.transition ∷ [])

  -- the events that an order is submitted and acknowledged
  unfoldable pub announce :
      Cycle
      → Order
      → List (EventEnvelope F) × Option String × Engine F
      → List (EventEnvelope F) × Option String × Engine F
  announce cycle order so_far =
      emit_if cycle EventType.order_acknowledged (acknowledged order.order_id Venue.simulator) (
        emit_if cycle EventType.order_submitted
          (submitted order Venue.simulator decision.decision_id) so_far)

  -- the order has passed the gate
  unfoldable pub place :
      FinalSignal F
      → Cycle
      → F
      → OrderIntent F
      → List (EventEnvelope F)
      → Option String
      → Engine F
      → ExecutionResult F × Engine F
  unfolding enter announce
  place signal cycle quantity wanted events₀ cause₀ engine₀ =
      let order = order_of engine₀ wanted cycle in
      let (events, cause, engine) = announce cycle order (events₀, cause₀, draw_order engine₀) in
      enter signal cycle quantity wanted order events cause engine

  -- what follows the gate; `none` is the error that the gate may raise
  unfoldable pub settle :
      GateResult
      → FinalSignal F
      → Cycle
      → F
      → OrderIntent F
      → List (EventEnvelope F)
      → Option String
      → Engine F
      → Option (ExecutionResult F × Engine F)
  unfolding place
  settle zero_division signal cycle quantity wanted events cause engine = none
  settle (refused reason) signal cycle quantity wanted events cause engine =
      let (e, engine') =
        emit cycle EventType.order_rejected (rejection (reason_text reason) "pre_trade") cause
          engine in
      some (result_of engine' (events ++ (e ∷ [])) [])
  settle passed signal cycle quantity wanted events cause engine =
      some (place signal cycle quantity wanted events cause engine)

  -- the intent and the gate
  unfoldable pub submit :
      FinalSignal F → Cycle → F → Engine F → Option (ExecutionResult F × Engine F)
  unfolding settle
  submit signal cycle quantity engine =
      let wanted = intent_of engine decision signal snapshot cycle quantity in
      let (events, cause, engine') =
        emit_if cycle EventType.order_intent_created (intent wanted)
          ([], none, draw_intent engine) in
      settle (check wanted snapshot) signal cycle quantity wanted events cause engine'

  unfoldable pub execute_signal :
      FinalSignal F → Cycle → Engine F → Option (ExecutionResult F × Engine F)
  unfolding submit
  execute_signal signal cycle engine =
      let quantity =
        position_size engine snapshot signal.entry_price signal.stop_loss signal.size_multiplier in
      if engine.config.long_only && is_sell signal.side
      then some (no_result, engine)
      else if o.le quantity zero_f
      then (let (e, engine') = execution_failed cycle "invalid_position_size" "sizing" engine in
          some (result_of engine' (e ∷ []) []))
      else submit signal cycle quantity engine

  -- an approved decision with a signal goes on; the events bear the decision's time
  unfoldable pub execute : Cycle → Engine F → Option (ExecutionResult F × Engine F)
  unfolding execute_signal
  execute cycle engine = elim decision.final_signal [
    | none ↦ some (no_result, engine)
    | some signal ↦
        if is_approved decision
        then execute_signal signal (record cycle { event_time = decision.event_time }) engine
        else some (no_result, engine)
  ]
