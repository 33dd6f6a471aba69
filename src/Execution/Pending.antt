-- ===== src/Execution/Pending.antt =====
-- `process_pending_entries` of execution/simulated_pending.py.
use quantitative_trading.Prelude.{
  Bool, true, none, List, [], ◌∷◌, ◌++◌, String, str_eq, if◌then◌else◌,
}
use quantitative_trading.Float.{Float}
use quantitative_trading.Contracts.State.{StateSnapshot}
use quantitative_trading.Contracts.Execution.{Bar}
use quantitative_trading.Contracts.Event.{EventEnvelope}
use quantitative_trading.State.Transitions.{StateTransitionEvent}
use quantitative_trading.Execution.Simulator.{
  Engine, PendingEntry, ExecutionResult, Cycle, filter_events,
}
use quantitative_trading.Execution.Positions.{Entry, open_position}

module _ {F : Type 0} where
  abbrev pub is_for : String → PendingEntry F → Bool
  is_for symbol pending = str_eq pending.symbol symbol

  abbrev pub entry_of : PendingEntry F → Entry F
  entry_of pending = record {
    order = pending.order;
    quantity = pending.quantity;
    side = pending.side;
    position_side = pending.position_side;
    symbol = pending.symbol;
    stop_loss = pending.stop_loss;
    take_profit = pending.take_profit;
  }

-- The variables of the loop.
pub record Progress (F : Type 0) : Type 0 where
  pub events : List (EventEnvelope F)
  pub transitions : List (StateTransitionEvent F)
  pub remaining : List (PendingEntry F)
  pub engine : Engine F

module _ {F : Type 0} ⦃o : Float F⦄ (bar : Bar F) (snapshot : StateSnapshot F) (cycle : Cycle) where
  -- one round
  unfoldable pub fill_pending : PendingEntry F → Progress F → Progress F
  fill_pending pending g =
      let done = open_position g.engine (entry_of pending) bar snapshot cycle none true in
      if is_for cycle.symbol pending
      then record {
        events = g.events ++ done.events;
        transitions = g.transitions ++ (done.transition ∷ []);
        remaining = g.remaining;
        engine = done.engine;
      }
      else record g { remaining = g.remaining ++ (pending ∷ []) }

  unfoldable pub fill_all : List (PendingEntry F) → Progress F → Progress F
  unfolding fill_pending
  fill_all [] g = g
  fill_all (pending ∷ rest) g = fill_all rest (fill_pending pending g)

  unfoldable pub process_pending_entries : Engine F → ExecutionResult F × Engine F
  unfolding fill_all
  process_pending_entries engine =
      let g =
        fill_all engine.pending_entries
          (record { events = []; transitions = []; remaining = []; engine = engine }) in
      let engine' = record g.engine { pending_entries = g.remaining } in
      (record { events = filter_events engine' g.events; transitions = g.transitions }, engine')
