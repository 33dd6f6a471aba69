-- ===== src/Execution/Simulated.antt =====
-- `evaluate_bar` and `liquidate_open_positions` of execution/simulated.py. Each returns the engine as it
-- leaves it.
use quantitative_trading.Prelude.{
  ℕ, ◌+◌, Bool, true, false, Option, none, some, List, [], ◌∷◌, ◌++◌, str_eq, if◌then◌else◌,
}
use quantitative_trading.Dict.{get_or, insert}
use quantitative_trading.Float.{Float}
use quantitative_trading.Contracts.State.{PositionState, StateSnapshot}
use quantitative_trading.Contracts.Signal.{Side}
use quantitative_trading.Contracts.Execution.{Bar}
use quantitative_trading.Contracts.Event.{EventEnvelope, ExitReason}
use quantitative_trading.State.Transitions.{StateTransitionEvent}
use quantitative_trading.Execution.Simulator.{Engine, ExecutionResult, Cycle, no_result}
use quantitative_trading.Execution.Positions.{close_position}
use quantitative_trading.Execution.Pending.{process_pending_entries}
use quantitative_trading.Execution.Exits.{check_exit}
use quantitative_trading.Execution.Orders.{result_of}

-- The variables of the loops over the open positions.
pub record Sweep (F : Type 0) : Type 0 where
  pub events : List (EventEnvelope F)
  pub transitions : List (StateTransitionEvent F)
  pub engine : Engine F

module _ {F : Type 0} ⦃o : Float F⦄ (bar : Bar F) (snapshot : StateSnapshot F) (cycle : Cycle) where
  -- the position is closed and what that gives is appended
  abbrev pub close_in : PositionState F → F → ExitReason → Sweep F → Sweep F
  close_in position price reason s =
      let done = close_position s.engine position price reason snapshot cycle in
      record {
        events = s.events ++ done.events;
        transitions = s.transitions ++ (done.transition ∷ []);
        engine = done.engine;
      }

  abbrev pub bars_of : PositionState F → Engine F → ℕ
  bars_of position engine = get_or engine.position_bars position.position_id 0

  -- `bars_held` of the round
  abbrev pub bars_after : Bool → PositionState F → Engine F → ℕ
  bars_after increment_bars position engine =
      if increment_bars then bars_of position engine + 1 else bars_of position engine

  -- the engine with the bar counted
  abbrev pub count_bar : Bool → PositionState F → Engine F → Engine F
  count_bar increment_bars position engine =
      if increment_bars
      then record engine {
        position_bars =
            insert position.position_id (bars_of position engine + 1) engine.position_bars;
      }
      else engine

  -- the exit that is due is taken, if there is one
  abbrev pub take_exit : PositionState F → Option (ExitReason × F) → Sweep F → Sweep F
  take_exit position none s = s
  take_exit position (some (reason, price)) s = close_in position price reason s

  -- one round of `evaluate_bar`
  unfoldable pub evaluate_position : Option Side → Bool → PositionState F → Sweep F → Sweep F
  evaluate_position approved_side increment_bars position s =
      let counted = count_bar increment_bars position s.engine in
      if str_eq position.symbol cycle.symbol
      then take_exit position
          (check_exit counted position bar (bars_after increment_bars position s.engine)
            approved_side increment_bars)
          (record s { engine = counted })
      else s

  unfoldable pub evaluate_all : Option Side → Bool → List (PositionState F) → Sweep F → Sweep F
  unfolding evaluate_position
  evaluate_all approved_side increment_bars [] s = s
  evaluate_all approved_side increment_bars (position ∷ rest) s =
      evaluate_all approved_side increment_bars rest
        (evaluate_position approved_side increment_bars position s)

  abbrev pub pending_first : Bool → Engine F → ExecutionResult F × Engine F
  pending_first true engine = process_pending_entries bar snapshot cycle engine
  pending_first false engine = (no_result, engine)

  unfoldable pub evaluate_bar : Option Side → Bool → Engine F → ExecutionResult F × Engine F
  unfolding evaluate_all
  evaluate_bar approved_side increment_bars engine =
      let (pending, engine') = pending_first increment_bars engine in
      let s =
        evaluate_all approved_side increment_bars snapshot.portfolio.open_positions (record {
          events = pending.events;
          transitions = pending.transitions;
          engine = engine';
        }) in
      result_of s.engine s.events s.transitions

  -- one round of `liquidate_open_positions`
  unfoldable pub liquidate_all : List (PositionState F) → Sweep F → Sweep F
  liquidate_all [] s = s
  liquidate_all (position ∷ rest) s = liquidate_all rest (
      if str_eq position.symbol cycle.symbol
      then close_in position bar.close ExitReason.end_of_run s
      else s)

  -- the events of a liquidation are not filtered
  unfoldable pub liquidate_open_positions : Engine F → ExecutionResult F × Engine F
  unfolding liquidate_all
  liquidate_open_positions engine =
      let s =
        liquidate_all snapshot.portfolio.open_positions
          (record { events = []; transitions = []; engine = engine }) in
      (record { events = s.events; transitions = s.transitions }, s.engine)
