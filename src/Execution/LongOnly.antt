-- ===== src/Execution/LongOnly.antt =====
-- `long_only` of execution/config.py and the sides of the positions that `execute` opens.
use quantitative_trading.Prelude.{
  ◌≡◌, refl, Bool, true, false, String, none, some, Option, List, [], Bool-cases, inl, inr, All,
  All-append, if-intro, Bool, ◌&&◌, Option-cases,
}
use quantitative_trading.Float.{Float}
use quantitative_trading.Contracts.State.{PositionSide, StateSnapshot}
use quantitative_trading.Contracts.Signal.{Side, FinalSignal}
use quantitative_trading.Contracts.Decision.{Decision, is_approved}
use quantitative_trading.Contracts.Execution.{Bar, Order, OrderIntent}
use quantitative_trading.Contracts.Event.{EventEnvelope, EventType, Payload, intent}
use quantitative_trading.State.Store.{zero_f}
use quantitative_trading.State.Transitions.{
  Transition, position_opened, position_closed, risk_updated, portfolio_updated, mark_to_market,
}
use quantitative_trading.Execution.Simulator.{Engine, Cycle, PendingEntry, ExecutionResult}
use quantitative_trading.Execution.Frame.{open_position-pending_entries}
use quantitative_trading.Execution.Gate.{passed, refused, zero_division, GateResult, check}
use quantitative_trading.Execution.Positions.{Entry, open_position}
use quantitative_trading.Execution.Pricing.{position_size, is_next_open}
use quantitative_trading.Execution.Orders.{
  position_side_of, is_sell, emit_if, intent_of, draw_intent, entry_for, enter, announce, place,
  settle, submit, execute_signal, execute,
}

module _ {F : Type 0} where
  abbrev pub IsLong : PendingEntry F → Type 0
  IsLong pending = pending.position_side ≡ PositionSide.long

  abbrev pub OpensLong : Transition F → Type 0
  OpensLong (position_opened position _ _) = position.side ≡ PositionSide.long
  OpensLong (position_closed _ _ _ _) = Unit
  OpensLong (mark_to_market _) = Unit
  OpensLong (risk_updated _) = Unit
  OpensLong (portfolio_updated _) = Unit

  -- the transitions open long positions only, and only long ones wait
  abbrev pub OnlyLong : ExecutionResult F × Engine F → Type 0
  OnlyLong (result, engine) =
      All (λ t. OpensLong t.transition) result.transitions × All IsLong engine.pending_entries

  -- and so it is where there is a result
  abbrev pub OnlyLongIf : Option (ExecutionResult F × Engine F) → Type 0
  OnlyLongIf none = Unit
  OnlyLongIf (some r) = OnlyLong r

module _ {F : Type 0} ⦃o : Float F⦄ (decision : Decision F) (snapshot : StateSnapshot F)
    (bar : Bar F) where
  emit_if-pending_entries :
      (cycle : Cycle) (type : EventType) (payload : Payload F) (events : List (EventEnvelope F))
      (cause : Option String) (engine : Engine F)
      → (emit_if cycle type payload (events, cause, engine)).2.pending_entries
        ≡ engine.pending_entries
  emit_if-pending_entries cycle type payload events cause engine =
      elim (Bool-cases engine.emit_events) [ inl e ↦ rw e refl | inr e ↦ rw e refl ]

  announce-pending_entries :
      (cycle : Cycle) (order : Order) (events : List (EventEnvelope F)) (cause : Option String)
      (engine : Engine F)
      → (announce decision snapshot bar cycle order (events, cause, engine)).2.pending_entries
        ≡ engine.pending_entries
  unfolding announce
  announce-pending_entries cycle order events cause engine = elim (Bool-cases engine.emit_events) [
    | inl e ↦ rw e refl
    | inr e ↦ rw e refl
  ]

  opened-OpensLong :
      (engine : Engine F) (entry : Entry F) (cycle : Cycle) (cause : Option String) (at_open : Bool)
      → entry.position_side ≡ PositionSide.long
      → OpensLong
          (open_position engine entry bar snapshot cycle cause at_open).transition.transition
  unfolding open_position
  opened-OpensLong engine entry cycle cause at_open h = h

  module _ (signal : FinalSignal F) (buys : signal.side ≡ Side.buy) (cycle : Cycle) (quantity : F)
      (wanted : OrderIntent F) where
    is_long : position_side_of signal.side ≡ PositionSide.long
    is_long = rw buys refl

    enter-OnlyLong :
        (order : Order) (events : List (EventEnvelope F)) (cause : Option String)
        (engine : Engine F)
        → All IsLong engine.pending_entries
        → OnlyLong
            (enter decision snapshot bar signal cycle quantity wanted order events cause engine)
    unfolding enter
    enter-OnlyLong order events cause engine long =
        elim (Bool-cases (is_next_open engine.fill_model.fill_at)) [
          | inl n ↦
              rw (enter, n) (tt, All-append IsLong engine.pending_entries _ long (is_long, tt))
          | inr n ↦
              let entry = entry_for decision snapshot bar signal cycle quantity order in
              rw (enter, n)
                (
                  (opened-OpensLong engine entry cycle cause false is_long, tt),
                  rw (open_position-pending_entries engine entry bar snapshot cycle cause false)
                      long,
                )
        ]

    place-OnlyLong :
        (events : List (EventEnvelope F)) (cause : Option String) (engine : Engine F)
        → All IsLong engine.pending_entries
        → OnlyLong (place decision snapshot bar signal cycle quantity wanted events cause engine)
    unfolding place
    place-OnlyLong events cause engine long =
        enter-OnlyLong _ _ _ _ (rw (announce-pending_entries cycle _ events cause _) long)

    settle-OnlyLong :
        (gate : GateResult) (events : List (EventEnvelope F)) (cause : Option String)
        (engine : Engine F)
        → All IsLong engine.pending_entries
        → OnlyLongIf
            (settle decision snapshot bar gate signal cycle quantity wanted events cause engine)
    unfolding settle
    settle-OnlyLong zero_division events cause engine long = tt
    settle-OnlyLong (refused reason) events cause engine long = (tt, long)
    settle-OnlyLong passed events cause engine long = place-OnlyLong events cause engine long

  submit-OnlyLong :
      (signal : FinalSignal F) (cycle : Cycle) (quantity : F) (engine : Engine F)
      → signal.side ≡ Side.buy
      → All IsLong engine.pending_entries
      → OnlyLongIf (submit decision snapshot bar signal cycle quantity engine)
  unfolding submit
  submit-OnlyLong signal cycle quantity engine buys long =
      let wanted = intent_of engine decision signal snapshot cycle quantity in
      let drawn = draw_intent engine in
      settle-OnlyLong signal buys cycle quantity wanted (check wanted snapshot) _ _ _ (
        rw
          (emit_if-pending_entries cycle EventType.order_intent_created (intent wanted) [] none
            drawn)
          long)

  not_sold :
      (long_only : Bool) (side : Side)
      → long_only ≡ true
      → (long_only && is_sell side) ≡ false
      → side ≡ Side.buy
  not_sold long_only Side.buy on e = refl
  not_sold true Side.sell on e = cc
  not_sold false Side.sell on e = cc

  execute_signal-OnlyLong :
      (signal : FinalSignal F) (cycle : Cycle) (engine : Engine F)
      → engine.config.long_only ≡ true
      → All IsLong engine.pending_entries
      → OnlyLongIf (execute_signal decision snapshot bar signal cycle engine)
  unfolding execute_signal
  execute_signal-OnlyLong signal cycle engine on long =
      if-intro OnlyLongIf (engine.config.long_only && is_sell signal.side) (λ _. (tt, long))
        (λ bought.
          if-intro OnlyLongIf
            (o.le
              (position_size engine snapshot signal.entry_price signal.stop_loss
                signal.size_multiplier)
              zero_f)
            (λ _. (tt, long))
            (λ _.
              submit-OnlyLong signal cycle _ engine
                (not_sold engine.config.long_only signal.side on bought) long))

  -- With `long_only` no call of `execute` that returns opens a short position or leaves a short entry
  -- waiting, if none was waiting before.
  pub execute-OnlyLong :
      (cycle : Cycle) (engine : Engine F)
      → engine.config.long_only ≡ true
      → All IsLong engine.pending_entries
      → OnlyLongIf (execute decision snapshot bar cycle engine)
  unfolding execute
  execute-OnlyLong cycle engine on long = elim (Option-cases decision.final_signal) [
    | inl e ↦ rw e (tt, long)
    | inr (signal, e) ↦ elim (Bool-cases (is_approved decision)) [
      | inl ok ↦ rw (execute, e, ok) (execute_signal-OnlyLong signal _ engine on long)
      | inr no_ok ↦ rw (execute, e, no_ok) (tt, long)
    ]
  ]
