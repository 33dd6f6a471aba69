-- ===== src/Validation/Trades.antt =====
-- validation/trades.py. An event of a position that opens or closes has the payload that
-- execution/simulated_positions.py writes.
use quantitative_trading.Prelude.{
  ℕ, Bool, Option, none, some, List, [], ◌∷◌, String, str_eq, if◌then◌else◌,
}
use quantitative_trading.Dict.{Dict, lookup, insert}
use quantitative_trading.Float.{Float, ◌⊗◌, ◌⊘◌}
use quantitative_trading.Contracts.State.{Instant, PositionSide, PositionState}
use quantitative_trading.Contracts.Event.{
  EventEnvelope, EventType, ExitReason, Payload, ClosedPosition, opened, closed,
}
use quantitative_trading.State.Store.{zero_f, truthy}

-- what is kept of an opening
pub record OpenInfo (F : Type 0) : Type 0 where
  pub symbol : String
  pub side : PositionSide
  pub entry_price : F
  pub stop_loss : Option F
  pub take_profit : Option F
  pub quantity : F
  pub entry_time : Instant

-- a row of the ledger
pub record Trade (F : Type 0) : Type 0 where
  pub position_id : String
  pub symbol : String
  pub side : PositionSide
  pub entry_price : F
  pub exit_price : F
  pub stop_loss : Option F
  pub take_profit : Option F
  pub quantity : F
  pub exit_reason : ExitReason
  pub pnl : F
  pub return_pct : F
  pub bars_held : ℕ
  pub entry_time : Option Instant
  pub exit_time : Instant
  pub win : Bool

-- `a or b`, of texts
abbrev pub id_or : String → String → String
id_or a b = if str_eq a "" then b else a

module _ {F : Type 0} where
  abbrev pub info_of : EventEnvelope F → PositionState F → OpenInfo F
  info_of event position = record {
    symbol = event.symbol;
    side = position.side;
    entry_price = position.entry_price;
    stop_loss = position.stop_loss;
    take_profit = position.take_profit;
    quantity = position.quantity;
    entry_time = event.event_time;
  }

  -- the id and what is kept of the event, if it opens a position that has an id
  abbrev pub opening_as : EventEnvelope F → EventType → Payload F → Option (String × OpenInfo F)
  opening_as event EventType.position_opened (opened position_id _ position) =
      let i = id_or position_id position.position_id in
      if str_eq i "" then none else some (i, info_of event position)
  opening_as event _ _ = none

  unfoldable pub opening : EventEnvelope F → Option (String × OpenInfo F)
  opening event = opening_as event event.event_type event.payload

  abbrev pub closing_as : EventType → Payload F → Option (ClosedPosition F)
  closing_as EventType.position_closed (closed position) = some position
  closing_as _ _ = none

  unfoldable pub closing : EventEnvelope F → Option (ClosedPosition F)
  closing event = closing_as event.event_type event.payload

  abbrev pub keep_opened : Option (String × OpenInfo F) → Dict (OpenInfo F) → Dict (OpenInfo F)
  keep_opened none infos = infos
  keep_opened (some (i, info)) infos = insert i info infos

  -- the first loop
  unfoldable pub collect_opened : List (EventEnvelope F) → Dict (OpenInfo F) → Dict (OpenInfo F)
  unfolding opening
  collect_opened [] infos = infos
  collect_opened (event ∷ events) infos = collect_opened events (keep_opened (opening event) infos)

module _ {F : Type 0} ⦃o : Float F⦄ where
  -- `float(x or y or 0)`
  abbrev pub float_or : F → Option F → F
  float_or x none = if truthy x then x else zero_f
  float_or x (some y) = if truthy x then x else if truthy y then y else zero_f

  -- `x or y`, of levels
  abbrev pub level_or : Option F → Option F → Option F
  level_or none y = y
  level_or (some x) y = if truthy x then some x else y

  abbrev pub field {ℓ} : {A : Type ℓ} → (OpenInfo F → A) → Option (OpenInfo F) → Option A
  field f none = none
  field f (some info) = some (f info)

  abbrev pub level_of : (OpenInfo F → Option F) → Option (OpenInfo F) → Option F
  level_of f none = none
  level_of f (some info) = f info

  unfoldable pub trade_of : Dict (OpenInfo F) → EventEnvelope F → ClosedPosition F → Trade F
  trade_of infos event position =
      let info = lookup position.position_id infos in
      let entry_price = float_or position.entry_price (field (λ i. i.entry_price) info) in
      let quantity = float_or position.quantity (field (λ i. i.quantity) info) in
      let notional = entry_price ⊗ quantity in
      record {
        position_id = position.position_id;
        symbol = event.symbol;
        side = position.side;
        entry_price = entry_price;
        exit_price = float_or position.exit_price none;
        stop_loss = level_or position.stop_loss (level_of (λ i. i.stop_loss) info);
        take_profit = level_or position.take_profit (level_of (λ i. i.take_profit) info);
        quantity = quantity;
        exit_reason = position.exit_reason;
        pnl = position.pnl;
        return_pct =
            if o.lt zero_f notional then position.pnl ⊘ notional ⊗ o.of_nat 100 else zero_f;
        bars_held = position.bars_held;
        entry_time = field (λ i. i.entry_time) info;
        exit_time = event.event_time;
        win = o.lt zero_f position.pnl;
      }

  abbrev pub add_trade :
      Dict (OpenInfo F)
      → EventEnvelope F
      → Option (ClosedPosition F)
      → List (Trade F)
      → List (Trade F)
  add_trade infos event none rest = rest
  add_trade infos event (some position) rest = trade_of infos event position ∷ rest

  -- the second loop
  unfoldable pub trades_of : Dict (OpenInfo F) → List (EventEnvelope F) → List (Trade F)
  unfolding closing trade_of
  trades_of infos [] = []
  trades_of infos (event ∷ events) = add_trade infos event (closing event) (trades_of infos events)

  unfoldable pub build_trade_ledger : List (EventEnvelope F) → List (Trade F)
  unfolding collect_opened trades_of
  build_trade_ledger events = trades_of (collect_opened events []) events
