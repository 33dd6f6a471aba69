-- ===== src/Execution/Trades.antt =====
-- The transitions that execution/simulated.py returns open and close positions of the snapshot's
-- portfolio, and are of no other type.
use quantitative_trading.Prelude.{
  ◌≡◌, refl, Bool, true, false, none, some, Option, List, [], ◌∷◌, String, str_eq, All, All-append,
  if-intro, Keeps, Bool-cases, Option-cases, inl, inr, ◌&&◌,
}
use quantitative_trading.Float.{Float}
use quantitative_trading.Contracts.State.{PositionState, StateSnapshot}
use quantitative_trading.Contracts.Signal.{Side, FinalSignal}
use quantitative_trading.Contracts.Decision.{Decision, is_approved}
use quantitative_trading.Contracts.Execution.{Bar, OrderIntent, Order}
use quantitative_trading.Contracts.Event.{ExitReason, EventEnvelope}
use quantitative_trading.State.Transitions.{
  Transition, StateTransitionEvent, position_opened, position_closed, risk_updated,
  portfolio_updated, mark_to_market,
}
use quantitative_trading.State.Store.{zero_f}
use quantitative_trading.Execution.Simulator.{Engine, ExecutionResult, Cycle, PendingEntry}
use quantitative_trading.Execution.Pricing.{position_size, is_next_open}
use quantitative_trading.Execution.Gate.{GateResult, passed, refused, zero_division, check}
use quantitative_trading.Execution.Positions.{Entry, open_position, close_position}
use quantitative_trading.Execution.Pending.{
  Progress, is_for, fill_pending, fill_all, process_pending_entries,
}
use quantitative_trading.Execution.Simulated.{
  Sweep, take_exit, evaluate_position, evaluate_all, evaluate_bar, pending_first, liquidate_all,
  liquidate_open_positions,
}
use quantitative_trading.Execution.Orders.{
  is_sell, entry_for, enter, place, settle, submit, execute_signal, execute, intent_of,
}

module _ {F : Type 0} where
  abbrev pub IsTrade : Transition F → Type 0
  IsTrade (position_opened _ _ _) = Unit
  IsTrade (position_closed _ _ _ _) = Unit
  IsTrade (risk_updated _) = ⊥
  IsTrade (portfolio_updated _) = ⊥
  IsTrade (mark_to_market _) = ⊥

  -- a transition that opens or closes a position of this portfolio
  abbrev pub IsTradeOf : String → StateTransitionEvent F → Type 0
  IsTradeOf i e = (e.portfolio_id ≡ i) × IsTrade e.transition

  abbrev pub AreTrades : StateSnapshot F → List (StateTransitionEvent F) → Type 0
  AreTrades snapshot es = All (IsTradeOf snapshot.portfolio.portfolio_id) es

  abbrev pub Trades : StateSnapshot F → ExecutionResult F × Engine F → Type 0
  Trades snapshot r = AreTrades snapshot r.0.transitions

module _ {F : Type 0} ⦃o : Float F⦄ (bar : Bar F) (snapshot : StateSnapshot F) (cycle : Cycle) where
  opened-IsTradeOf :
      (engine : Engine F) (entry : Entry F) (cause : Option String) (at_open : Bool)
      → IsTradeOf snapshot.portfolio.portfolio_id
          (open_position engine entry bar snapshot cycle cause at_open).transition
  unfolding open_position
  opened-IsTradeOf engine entry cause at_open = (refl, tt)

  closed-IsTradeOf :
      (engine : Engine F) (p : PositionState F) (price : F) (reason : ExitReason)
      → IsTradeOf snapshot.portfolio.portfolio_id
          (close_position engine p price reason snapshot cycle).transition
  unfolding close_position
  closed-IsTradeOf engine p price reason = (refl, tt)

  take_exit-AreTrades :
      (p : PositionState F) (exit : Option (ExitReason × F)) (s : Sweep F)
      → AreTrades snapshot s.transitions
      → AreTrades snapshot (take_exit bar snapshot cycle p exit s).transitions
  take_exit-AreTrades p none s h = h
  take_exit-AreTrades p (some (reason, price)) s h =
      All-append _ s.transitions _ h (closed-IsTradeOf s.engine p price reason, tt)

  evaluate_all-AreTrades :
      (side : Option Side) (counts : Bool) (ps : List (PositionState F)) (s : Sweep F)
      → AreTrades snapshot s.transitions
      → AreTrades snapshot (evaluate_all bar snapshot cycle side counts ps s).transitions
  unfolding evaluate_all evaluate_position
  evaluate_all-AreTrades side counts [] s h = h
  evaluate_all-AreTrades side counts (p ∷ ps) s h =
      evaluate_all-AreTrades side counts ps (evaluate_position bar snapshot cycle side counts p s) (
        if-intro (λ (s' : Sweep F). AreTrades snapshot s'.transitions)
          (str_eq p.symbol cycle.symbol) (λ _. take_exit-AreTrades p _ _ h) (λ _. h))

  fill_all-AreTrades :
      (es : List (PendingEntry F)) (g : Progress F)
      → AreTrades snapshot g.transitions
      → AreTrades snapshot (fill_all bar snapshot cycle es g).transitions
  unfolding fill_all fill_pending
  fill_all-AreTrades [] g h = h
  fill_all-AreTrades (e ∷ es) g h = fill_all-AreTrades es (fill_pending bar snapshot cycle e g) (
      if-intro (λ (g' : Progress F). AreTrades snapshot g'.transitions) (is_for cycle.symbol e)
        (λ _. All-append _ g.transitions _ h (opened-IsTradeOf g.engine _ none true, tt)) (λ _. h))

  pending_first-AreTrades :
      (counts : Bool) (engine : Engine F)
      → Trades snapshot (pending_first bar snapshot cycle counts engine)
  unfolding process_pending_entries
  pending_first-AreTrades true engine = fill_all-AreTrades engine.pending_entries _ tt
  pending_first-AreTrades false engine = tt

  pub evaluate_bar-AreTrades :
      (side : Option Side) (counts : Bool) (engine : Engine F)
      → Trades snapshot (evaluate_bar bar snapshot cycle side counts engine)
  unfolding evaluate_bar
  evaluate_bar-AreTrades side counts engine =
      evaluate_all-AreTrades side counts snapshot.portfolio.open_positions _
        (pending_first-AreTrades counts engine)

  liquidate_all-AreTrades :
      (ps : List (PositionState F)) (s : Sweep F)
      → AreTrades snapshot s.transitions
      → AreTrades snapshot (liquidate_all bar snapshot cycle ps s).transitions
  unfolding liquidate_all
  liquidate_all-AreTrades [] s h = h
  liquidate_all-AreTrades (p ∷ ps) s h = liquidate_all-AreTrades ps _ (
      if-intro (λ (s' : Sweep F). AreTrades snapshot s'.transitions) (str_eq p.symbol cycle.symbol)
        (λ _. take_exit-AreTrades p (some (ExitReason.end_of_run, bar.close)) s h) (λ _. h))

  pub liquidate-AreTrades :
      (engine : Engine F) → Trades snapshot (liquidate_open_positions bar snapshot cycle engine)
  unfolding liquidate_open_positions
  liquidate-AreTrades engine = liquidate_all-AreTrades snapshot.portfolio.open_positions _ tt

module _ {F : Type 0} ⦃o : Float F⦄ (decision : Decision F) (snapshot : StateSnapshot F)
    (bar : Bar F) where
  enter-AreTrades :
      (signal : FinalSignal F) (cycle : Cycle) (quantity : F) (wanted : OrderIntent F)
      (order : Order) (events : List (EventEnvelope F)) (cause : Option String) (engine : Engine F)
      → Trades snapshot
          (enter decision snapshot bar signal cycle quantity wanted order events cause engine)
  unfolding enter
  enter-AreTrades signal cycle quantity wanted order events cause engine =
      elim (Bool-cases (is_next_open engine.fill_model.fill_at)) [
        | inl n ↦ rw (enter, n) tt
        | inr n ↦
            rw (enter, n)
              (
                opened-IsTradeOf bar snapshot cycle engine
                    (entry_for decision snapshot bar signal cycle quantity order) cause false,
                tt,
              )
      ]

  settle-AreTrades :
      (gate : GateResult) (signal : FinalSignal F) (cycle : Cycle) (quantity : F)
      (wanted : OrderIntent F) (events : List (EventEnvelope F)) (cause : Option String)
      (engine : Engine F)
      → Keeps
          (Trades snapshot)
          (settle decision snapshot bar gate signal cycle quantity wanted events cause engine)
  unfolding settle place
  settle-AreTrades zero_division signal cycle quantity wanted events cause engine = tt
  settle-AreTrades (refused reason) signal cycle quantity wanted events cause engine = tt
  settle-AreTrades passed signal cycle quantity wanted events cause engine =
      enter-AreTrades signal cycle quantity wanted _ _ _ _

  submit-AreTrades :
      (signal : FinalSignal F) (cycle : Cycle) (quantity : F) (engine : Engine F)
      → Keeps (Trades snapshot) (submit decision snapshot bar signal cycle quantity engine)
  unfolding submit
  submit-AreTrades signal cycle quantity engine =
      let wanted = intent_of engine decision signal snapshot cycle quantity in
      settle-AreTrades (check wanted snapshot) signal cycle quantity wanted _ _ _

  execute_signal-AreTrades :
      (signal : FinalSignal F) (cycle : Cycle) (engine : Engine F)
      → Keeps (Trades snapshot) (execute_signal decision snapshot bar signal cycle engine)
  unfolding execute_signal
  execute_signal-AreTrades signal cycle engine =
      let quantity =
        position_size engine snapshot signal.entry_price signal.stop_loss signal.size_multiplier in
      if-intro (Keeps (Trades snapshot)) (engine.config.long_only && is_sell signal.side) (λ _. tt)
        λ _.
          if-intro (Keeps (Trades snapshot)) (o.le quantity zero_f) (λ _. tt)
            λ _. submit-AreTrades signal cycle quantity engine

  pub execute-AreTrades :
      (cycle : Cycle) (engine : Engine F)
      → Keeps (Trades snapshot) (execute decision snapshot bar cycle engine)
  unfolding execute
  execute-AreTrades cycle engine = elim (Option-cases decision.final_signal) [
    | inl e ↦ rw e tt
    | inr (signal, e) ↦
        rw (execute, e)
          (if-intro (Keeps (Trades snapshot)) (is_approved decision)
            (λ _. execute_signal-AreTrades signal _ engine) (λ _. tt))
  ]
