-- ===== src/Execution/Positions.antt =====
-- `open_position` and `close_position` of execution/simulated_positions.py. Each returns its events, its
-- transition and the engine as it leaves it.
use Prim.Native.String.{◌++◌ as str_append}
use quantitative_trading.Prelude.{
  ◌+◌, Bool, true, false, Option, none, some, List, [], ◌∷◌, ◌++◌, String, if◌then◌else◌,
}
use quantitative_trading.Dict.{get_or, insert, erase}
use quantitative_trading.Float.{Float, ◌⊕◌, ◌⊖◌, ◌⊗◌, ◌⊘◌}
use quantitative_trading.Contracts.State.{
  PositionState, PositionSide, PositionStatus, StateSnapshot,
}
use quantitative_trading.Contracts.Signal.{Side}
use quantitative_trading.Contracts.Execution.{Order, Fill, Bar}
use quantitative_trading.Contracts.Event.{
  EventEnvelope, EventType, ExitReason, Payload, fill, opened, closed,
}
use quantitative_trading.State.Transitions.{StateTransitionEvent, position_opened, position_closed}
use quantitative_trading.State.Store.{zero_f, pnl_at}
use quantitative_trading.Execution.Simulator.{Engine, Cycle, emit}
use quantitative_trading.Execution.Pricing.{fill_price}

-- What one opening or closing gives back.
pub record Effect (F : Type 0) : Type 0 where
  pub events : List (EventEnvelope F)
  pub transition : StateTransitionEvent F
  pub engine : Engine F

-- The arguments of `open_position` that a pending entry keeps.
pub record Entry (F : Type 0) : Type 0 where
  pub order : Order
  pub quantity : F
  pub side : Side
  pub position_side : PositionSide
  pub symbol : String
  pub stop_loss : F
  pub take_profit : F

module _ {F : Type 0} where
  -- the fill event, where events are emitted, with its id and the engine after it
  abbrev pub emit_fill :
      Cycle
      → Payload F
      → Option String
      → Engine F
      → List (EventEnvelope F) × Option String × Engine F
  emit_fill cycle payload causation_id engine =
      let (e, engine') = emit cycle EventType.fill_received payload causation_id engine in
      if engine.emit_events then (e ∷ [], some e.event_id, engine') else ([], none, engine)

  -- the draws of a fill, a position and a transition
  abbrev pub draw_fill : Engine F → Engine F
  draw_fill engine = record engine { ids = record engine.ids { fills = engine.ids.fills + 1 } }

  abbrev pub draw_position : Engine F → Engine F
  draw_position engine = record engine {
    ids = record engine.ids { positions = engine.ids.positions + 1 };
  }

  abbrev pub draw_transition : Engine F → Engine F
  draw_transition engine = record engine {
    ids = record engine.ids { transitions = engine.ids.transitions + 1 };
  }

module _ {F : Type 0} ⦃o : Float F⦄ where
  -- `price * quantity * fee_bps / 10_000`
  abbrev pub fee_of : Engine F → F → F → F
  fee_of engine price quantity = price ⊗ quantity ⊗ engine.fill_model.fee_bps ⊘ o.of_nat 10_000

  abbrev pub fill_of : Engine F → Cycle → (order_id : String) (price quantity : F) → Fill F
  fill_of engine cycle order_id price quantity = record {
    fill_id = engine.ids.draw "fill_" engine.ids.fills;
    order_id = order_id;
    price = price;
    quantity = quantity;
    fee = fee_of engine price quantity;
    slippage_bps = engine.fill_model.slippage_bps;
    fill_time = cycle.event_time;
    is_partial = false;
  }

  -- the position that an entry opens
  abbrev pub position_of : Engine F → Cycle → Entry F → F → PositionState F
  position_of engine cycle entry price = record {
    position_id = engine.ids.draw "pos_" engine.ids.positions;
    symbol = entry.symbol;
    side = entry.position_side;
    quantity = entry.quantity;
    entry_price = price;
    entry_time = cycle.event_time;
    stop_loss = some entry.stop_loss;
    take_profit = some entry.take_profit;
    unrealized_pnl = zero_f;
    status = PositionStatus.open_;
  }

  unfoldable pub open_position :
      Engine F
      → Entry F
      → Bar F
      → StateSnapshot F
      → Cycle
      → (causation_id : Option String) → (use_next_open : Bool) → Effect F
  open_position engine entry bar snapshot cycle causation_id use_next_open =
      let price = fill_price engine bar entry.side use_next_open in
      let filled = fill_of engine cycle entry.order.order_id price entry.quantity in
      let position = position_of engine cycle entry price in
      let (fill_events, fill_event_id, engine₁) =
        emit_fill cycle (fill filled engine.fill_model.model_id false) causation_id engine in
      let engine₂ = record engine₁ {
        position_bars = insert position.position_id 0 engine₁.position_bars;
        position_orders = insert position.position_id entry.order.order_id engine₁.position_orders;
      } in
      let (open_event, engine₃) =
        emit cycle EventType.position_opened (opened position.position_id filled.fill_id position)
          fill_event_id engine₂ in
      record {
        events = fill_events ++ (open_event ∷ []);
        transition = record {
          transition_id = engine.ids.draw "trans_" engine.ids.transitions;
          portfolio_id = snapshot.portfolio.portfolio_id;
          transition =
              position_opened position filled
                (price ⊗ entry.quantity ⊕ fee_of engine price entry.quantity);
          event_time = cycle.event_time;
          correlation_id = cycle.correlation_id;
        };
        engine = draw_transition (draw_position (draw_fill engine₃));
      }

  unfoldable pub close_position :
      Engine F
      → PositionState F
      → (exit_price : F) → ExitReason
      → StateSnapshot F
      → Cycle
      → Effect F
  close_position engine position exit_price exit_reason snapshot cycle =
      let order_id =
        get_or engine.position_orders position.position_id
          (str_append "ord_" position.position_id) in
      let filled = fill_of engine cycle order_id exit_price position.quantity in
      let pnl = pnl_at exit_price position ⊖ fee_of engine exit_price position.quantity in
      let (fill_events, fill_event_id, engine₁) =
        emit_fill cycle (fill filled engine.fill_model.model_id true) none engine in
      let (close_event, engine₂) =
        emit cycle EventType.position_closed
          (closed (record {
            position_id = position.position_id;
            exit_reason = exit_reason;
            exit_price = exit_price;
            pnl = pnl;
            fill_id = filled.fill_id;
            entry_price = position.entry_price;
            side = position.side;
            quantity = position.quantity;
            stop_loss = position.stop_loss;
            take_profit = position.take_profit;
            bars_held = get_or engine.position_bars position.position_id 0;
          }))
          fill_event_id engine₁ in
      record {
        events = fill_events ++ (close_event ∷ []);
        transition = record {
          transition_id = engine.ids.draw "trans_" engine.ids.transitions;
          portfolio_id = snapshot.portfolio.portfolio_id;
          transition = position_closed position.position_id filled pnl exit_reason;
          event_time = cycle.event_time;
          correlation_id = cycle.correlation_id;
        };
        engine = record (draw_transition (draw_fill engine₂)) {
          position_bars = erase position.position_id engine₂.position_bars;
          position_orders = erase position.position_id engine₂.position_orders;
        };
      }
