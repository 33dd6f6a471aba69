-- ===== src/Execution/Quiet.antt =====
-- The flag `emit_events` of execution/simulated.py and what `evaluate_bar` does with and without it.
use quantitative_trading.Prelude.{
  ◌≡◌, refl, ap, ◌∙◌, sym, Bool, true, false, none, some, Option, List, [], ◌∷◌, str_eq, Bool-cases,
  inl, inr,
}
use quantitative_trading.Float.{Float}
use quantitative_trading.Contracts.State.{PositionState, StateSnapshot}
use quantitative_trading.Contracts.Signal.{Side}
use quantitative_trading.Contracts.Execution.{Bar}
use quantitative_trading.Contracts.Event.{ExitReason}
use quantitative_trading.State.Transitions.{StateTransitionEvent}
use quantitative_trading.Execution.Simulator.{Engine, Cycle, PendingEntry, ExecutionResult}
use quantitative_trading.Execution.Positions.{close_position, open_position}
use quantitative_trading.Execution.Pricing.{fill_price}
use quantitative_trading.Execution.Exits.{check_exit}
use quantitative_trading.Execution.Pending.{
  Progress, is_for, fill_pending, fill_all, process_pending_entries,
}
use quantitative_trading.Execution.Simulated.{
  Sweep, bars_of, bars_after, count_bar, pending_first, take_exit, close_in, evaluate_position,
  evaluate_all, evaluate_bar,
}

module _ {F : Type 0} where
  -- the engine with its events turned off and the draws of their ids undone
  abbrev pub quiet : Engine F → Engine F
  quiet engine = record engine { emit_events = false; ids = record engine.ids { events = 0 } }

  -- a result without its events
  abbrev pub trades : ExecutionResult F × Engine F → List (StateTransitionEvent F) × Engine F
  trades (result, engine) = (result.transitions, quiet engine)

  abbrev still : Sweep F → Sweep F
  still s = record { events = []; transitions = s.transitions; engine = quiet s.engine }

  abbrev still_progress : Progress F → Progress F
  still_progress g = record {
    events = [];
    transitions = g.transitions;
    remaining = g.remaining;
    engine = quiet g.engine;
  }

module _ {F : Type 0} ⦃o : Float F⦄ (bar : Bar F) (snapshot : StateSnapshot F) (cycle : Cycle) where
  close_in-still :
      (p : PositionState F) (price : F) (reason : ExitReason) (s : Sweep F)
      → still (close_in bar snapshot cycle p price reason s)
        ≡ still (close_in bar snapshot cycle p price reason (still s))
  unfolding close_position
  close_in-still p price reason s = elim (Bool-cases s.engine.emit_events) [
    | inl e ↦ rw e refl
    | inr e ↦ rw e refl
  ]

  take_exit-still :
      (p : PositionState F) (exit : Option (ExitReason × F)) (s : Sweep F)
      → still (take_exit bar snapshot cycle p exit s)
        ≡ still (take_exit bar snapshot cycle p exit (still s))
  take_exit-still p none s = refl
  take_exit-still p (some (reason, price)) s = close_in-still p price reason s

  -- the exit of a round that counts the bar, or does not
  abbrev counted_exit : PositionState F → Option Side → Bool → Sweep F → Sweep F
  counted_exit p side counts z =
      take_exit bar snapshot cycle p
        (check_exit (count_bar bar snapshot cycle counts p z.engine) p bar
          (bars_after bar snapshot cycle counts p z.engine) side counts)
        (record z { engine = count_bar bar snapshot cycle counts p z.engine })

  counted_exit-still :
      (p : PositionState F) (s : Sweep F) (side : Option Side) (counts : Bool)
      → still (counted_exit p side counts s) ≡ still (counted_exit p side counts (still s))
  unfolding check_exit
  counted_exit-still p s none true =
      take_exit-still p
        (check_exit (count_bar bar snapshot cycle true p s.engine) p bar
          (bars_after bar snapshot cycle true p s.engine) none true)
        (record s { engine = count_bar bar snapshot cycle true p s.engine })
  counted_exit-still p s none false =
      take_exit-still p
        (check_exit s.engine p bar (bars_of bar snapshot cycle p s.engine) none false) s
  counted_exit-still p s (some side) true =
      take_exit-still p
        (check_exit (count_bar bar snapshot cycle true p s.engine) p bar
          (bars_after bar snapshot cycle true p s.engine) (some side) true)
        (record s { engine = count_bar bar snapshot cycle true p s.engine })
  counted_exit-still p s (some side) false =
      take_exit-still p
        (check_exit s.engine p bar (bars_of bar snapshot cycle p s.engine) (some side) false) s

  evaluate_position-still :
      (side : Option Side) (counts : Bool) (p : PositionState F) (s : Sweep F)
      → still (evaluate_position bar snapshot cycle side counts p s)
        ≡ still (evaluate_position bar snapshot cycle side counts p (still s))
  unfolding evaluate_position check_exit
  evaluate_position-still side counts p s = elim (Bool-cases (str_eq p.symbol cycle.symbol)) [
    | inl e ↦ rw (evaluate_position, e) (counted_exit-still p s side counts)
    | inr e ↦ rw (evaluate_position, e) refl
  ]

  evaluate_all-still :
      (side : Option Side) (counts : Bool) (ps : List (PositionState F)) (s : Sweep F)
      → still (evaluate_all bar snapshot cycle side counts ps s)
        ≡ still (evaluate_all bar snapshot cycle side counts ps (still s))
  unfolding evaluate_all
  evaluate_all-still side counts [] s = refl
  evaluate_all-still side counts (p ∷ ps) s =
      evaluate_all-still side counts ps (evaluate_position bar snapshot cycle side counts p s)
      ∙ (ap (λ z. still (evaluate_all bar snapshot cycle side counts ps z))
            (evaluate_position-still side counts p s)
          ∙ sym (
              evaluate_all-still side counts ps
                (evaluate_position bar snapshot cycle side counts p (still s))))

  fill_pending-still :
      (pending : PendingEntry F) (g : Progress F)
      → still_progress (fill_pending bar snapshot cycle pending g)
        ≡ still_progress (fill_pending bar snapshot cycle pending (still_progress g))
  unfolding fill_pending open_position fill_price
  fill_pending-still pending g = elim (Bool-cases (is_for cycle.symbol pending)) [
    | inl e ↦ elim (Bool-cases g.engine.emit_events) [
      | inl e' ↦ rw (fill_pending, e, e') refl
      | inr e' ↦ rw (fill_pending, e, e') refl
    ]
    | inr e ↦ rw (fill_pending, e) refl
  ]

  fill_all-still :
      (ps : List (PendingEntry F)) (g : Progress F)
      → still_progress (fill_all bar snapshot cycle ps g)
        ≡ still_progress (fill_all bar snapshot cycle ps (still_progress g))
  unfolding fill_all
  fill_all-still [] g = refl
  fill_all-still (p ∷ ps) g =
      fill_all-still ps (fill_pending bar snapshot cycle p g)
      ∙ (ap (λ z. still_progress (fill_all bar snapshot cycle ps z)) (fill_pending-still p g)
          ∙ sym (fill_all-still ps (fill_pending bar snapshot cycle p (still_progress g))))

  pending_first-quiet :
      (counts : Bool) (engine : Engine F)
      → trades (pending_first bar snapshot cycle counts engine)
        ≡ trades (pending_first bar snapshot cycle counts (quiet engine))
  unfolding process_pending_entries
  pending_first-quiet false engine = refl
  pending_first-quiet true engine =
      ap (λ z. (z.transitions, record z.engine { pending_entries = z.remaining }))
        (fill_all-still engine.pending_entries
          (record { events = []; transitions = []; remaining = []; engine = engine }))

  -- the loop's variables as `evaluate_bar` starts it, and what it then returns
  abbrev start : Bool → Engine F → Sweep F
  start counts engine =
      let (pending, engine') = pending_first bar snapshot cycle counts engine in
      record { events = pending.events; transitions = pending.transitions; engine = engine' }

  abbrev finish : Option Side → Bool → Sweep F → List (StateTransitionEvent F) × Engine F
  finish side counts s =
      let z =
        still (evaluate_all bar snapshot cycle side counts snapshot.portfolio.open_positions s) in
      (z.transitions, z.engine)

  finish-still :
      (side : Option Side) (counts : Bool) (s : Sweep F)
      → finish side counts s ≡ finish side counts (still s)
  finish-still side counts s =
      ap (λ z. (z.transitions, z.engine))
        (evaluate_all-still side counts snapshot.portfolio.open_positions s)

  -- Whether the engine emits its events makes no difference to what `evaluate_bar` does: the
  -- transitions are the same, and so is the engine after it but for the flag and for the number of
  -- event ids drawn.
  pub evaluate_bar-quiet :
      (side : Option Side) (counts : Bool) (engine : Engine F)
      → trades (evaluate_bar bar snapshot cycle side counts engine)
        ≡ trades (evaluate_bar bar snapshot cycle side counts (quiet engine))
  unfolding evaluate_bar
  evaluate_bar-quiet side counts engine =
      finish-still side counts (start counts engine)
      ∙ (ap (λ (ts, e). finish side counts (record { events = []; transitions = ts; engine = e }))
            (pending_first-quiet counts engine)
          ∙ sym (finish-still side counts (start counts (quiet engine))))
