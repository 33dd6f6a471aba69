-- ===== src/Execution/Frame.antt =====
-- What opening and closing a position do to the engine of execution/simulated.py, whether or not
-- events are emitted.
use quantitative_trading.Prelude.{◌≡◌, refl, Bool, Option, String, Bool-cases, inl, inr}
use quantitative_trading.Dict.{erase}
use quantitative_trading.Float.{Float}
use quantitative_trading.Contracts.State.{PositionState, StateSnapshot}
use quantitative_trading.Contracts.Execution.{Bar}
use quantitative_trading.Contracts.Event.{ExitReason}
use quantitative_trading.Execution.Simulator.{Engine, Cycle}
use quantitative_trading.Execution.Positions.{Entry, open_position, close_position}

module _ {F : Type 0} ⦃o : Float F⦄ (engine : Engine F) (p : PositionState F) (price : F)
    (reason : ExitReason) (snapshot : StateSnapshot F) (cycle : Cycle) where
  pub close_position-config :
      (close_position engine p price reason snapshot cycle).engine.config ≡ engine.config
  unfolding close_position
  close_position-config = elim (Bool-cases engine.emit_events) [
    | inl e ↦ rw e refl
    | inr e ↦ rw e refl
  ]

  pub close_position-position_bars :
      (close_position engine p price reason snapshot cycle).engine.position_bars
      ≡ erase p.position_id engine.position_bars
  unfolding close_position
  close_position-position_bars = elim (Bool-cases engine.emit_events) [
    | inl e ↦ rw e refl
    | inr e ↦ rw e refl
  ]

  pub close_position-pending_entries :
      (close_position engine p price reason snapshot cycle).engine.pending_entries
      ≡ engine.pending_entries
  unfolding close_position
  close_position-pending_entries = elim (Bool-cases engine.emit_events) [
    | inl e ↦ rw e refl
    | inr e ↦ rw e refl
  ]

module _ {F : Type 0} ⦃o : Float F⦄ (engine : Engine F) (entry : Entry F) (bar : Bar F)
    (snapshot : StateSnapshot F) (cycle : Cycle) (cause : Option String) (at_open : Bool) where
  pub open_position-config :
      (open_position engine entry bar snapshot cycle cause at_open).engine.config ≡ engine.config
  unfolding open_position
  open_position-config = elim (Bool-cases engine.emit_events) [
    | inl e ↦ rw e refl
    | inr e ↦ rw e refl
  ]

  pub open_position-pending_entries :
      (open_position engine entry bar snapshot cycle cause at_open).engine.pending_entries
      ≡ engine.pending_entries
  unfolding open_position
  open_position-pending_entries = elim (Bool-cases engine.emit_events) [
    | inl e ↦ rw e refl
    | inr e ↦ rw e refl
  ]

  pub open_position-fill_model :
      (open_position engine entry bar snapshot cycle cause at_open).engine.fill_model
      ≡ engine.fill_model
  unfolding open_position
  open_position-fill_model = elim (Bool-cases engine.emit_events) [
    | inl e ↦ rw e refl
    | inr e ↦ rw e refl
  ]
