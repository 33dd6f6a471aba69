-- ===== src/State/Store.antt =====
-- `InMemoryStateStore` of state/store.py. A method returns its result and the new store, and `none`
-- where it raises `KeyError` and nothing was changed. The clock's reading and the drawn `snapshot_id` are arguments.
use Prim.Native.String.{◌++◌ as str_append}
use quantitative_trading.Prelude.{
  ◌+◌, Bool, not, Option, none, some, List, [], ◌∷◌, ◌++◌, String, str_eq, if◌then◌else◌, filter,
  find,
}
use quantitative_trading.Dict.{Dict, lookup, insert}
use quantitative_trading.Float.{Float, ◌⊕◌, ◌⊖◌, ◌⊗◌, ◌⊘◌, max}
use quantitative_trading.Contracts.State.{
  Instant, Mode, PositionState, PositionSide, RiskLimits, PortfolioState, RiskState, StateSnapshot,
}
use quantitative_trading.State.Transitions.{
  PortfolioUpdate, RiskUpdate, Transition, StateTransitionEvent, position_opened, position_closed,
  risk_updated, portfolio_updated, mark_to_market,
}
use quantitative_trading.State.Updates.{update_portfolio_all, update_risk_all}

pub record Store (F : Type 0) : Type 0 where
  pub portfolio_id : String
  pub portfolio : PortfolioState F
  pub risk : RiskState F
  pub snapshots : Dict (StateSnapshot F)

module _ {F : Type 0} where
  -- `p.position_id == position_id`
  abbrev pub has_id : String → PositionState F → Bool
  has_id i p = str_eq p.position_id i

  abbrev pub not_id : String → PositionState F → Bool
  not_id i p = not (has_id i p)

  unfoldable pub apply_portfolio_updated : List (PortfolioUpdate F) → Instant → Store F → Store F
  apply_portfolio_updated us t s = record s {
    portfolio = record (update_portfolio_all us s.portfolio) {
      version = s.portfolio.version + 1;
      as_of_event_time = t;
    };
  }

  unfoldable pub apply_risk_updated : List (RiskUpdate F) → Instant → Store F → Store F
  apply_risk_updated us t s = record s {
    risk = record (update_risk_all us s.risk) {
      version = s.risk.version + 1;
      as_of_event_time = t;
    };
  }

module _ {F : Type 0} ⦃o : Float F⦄ where
  abbrev pub zero_f : F
  zero_f = o.lit 0 0

  -- `x` as a condition: a float is true unless it is zero
  abbrev pub truthy : F → Bool
  truthy x = not (o.eq x zero_f)

  -- The portfolio and the risk state of `__init__`.
  unfoldable pub init : String → Mode → F → Option (RiskLimits F) → Instant → Store F
  init portfolio_id mode initial_cash limits now = record {
    portfolio_id = portfolio_id;
    portfolio = record {
      portfolio_id = portfolio_id;
      mode = mode;
      cash = initial_cash;
      equity = initial_cash;
      open_positions = [];
      realized_pnl = zero_f;
      version = 1;
      as_of_event_time = now;
      as_of_processing_time = now;
    };
    risk = record {
      risk_state_id = str_append "risk_" portfolio_id;
      portfolio_id = portfolio_id;
      daily_pnl = zero_f;
      daily_drawdown_pct = zero_f;
      daily_start_equity = initial_cash;
      open_exposure_pct = zero_f;
      consecutive_losses = 0;
      signals_today = 0;
      limits = elim limits [
        | some given ↦ given
        | none ↦ record {
          max_daily_drawdown_pct = o.lit 50 1;
          max_open_positions = 3;
          max_exposure_pct = o.lit 500 1;
          max_consecutive_losses = 5;
        }
      ];
      breached_limits = [];
      version = 1;
      as_of_event_time = now;
    };
    snapshots = [];
  }

  abbrev pub notional : PositionState F → F
  notional p = p.entry_price ⊗ p.quantity

  -- `x / equity * 100 if equity else 0.0`
  abbrev pub percent_of : F → F → F
  percent_of x equity = if truthy equity then x ⊘ equity ⊗ o.of_nat 100 else zero_f

  -- The drawdown of an equity from the day's start; a start of zero stands for no start.
  abbrev pub drawdown : F → F → F
  drawdown daily_start new_equity =
      let start = if truthy daily_start then daily_start else new_equity in
      if truthy start then max zero_f ((start ⊖ new_equity) ⊘ start ⊗ o.of_nat 100) else zero_f

  unfoldable pub apply_position_opened : PositionState F → F → Instant → Store F → Store F
  apply_position_opened position cost t s = record s {
    portfolio = record s.portfolio {
      cash = s.portfolio.cash ⊖ cost;
      open_positions = s.portfolio.open_positions ++ (position ∷ []);
      version = s.portfolio.version + 1;
      as_of_event_time = t;
      as_of_processing_time = t;
    };
    risk = record s.risk {
      open_exposure_pct =
          s.risk.open_exposure_pct ⊕ percent_of (notional position) s.portfolio.equity;
      version = s.risk.version + 1;
      as_of_event_time = t;
    };
  }

  -- what closing a position gives back to the cash and takes from the exposure
  abbrev released : Option (PositionState F) → F → F
  released none cash = cash
  released (some p) cash = cash ⊕ notional p

  abbrev exposure_drop : Option (PositionState F) → F → F
  exposure_drop none equity = zero_f
  exposure_drop (some p) equity = percent_of (notional p) equity

  unfoldable pub apply_position_closed : String → F → Instant → Store F → Store F
  apply_position_closed position_id pnl t s =
      let closed = find (has_id position_id) s.portfolio.open_positions in
      let new_equity = s.portfolio.equity ⊕ pnl in
      record s {
        portfolio = record s.portfolio {
          cash = released closed (s.portfolio.cash ⊕ pnl);
          equity = new_equity;
          realized_pnl = s.portfolio.realized_pnl ⊕ pnl;
          open_positions = filter (not_id position_id) s.portfolio.open_positions;
          version = s.portfolio.version + 1;
          as_of_event_time = t;
          as_of_processing_time = t;
        };
        risk = record s.risk {
          daily_pnl = s.risk.daily_pnl ⊕ pnl;
          daily_drawdown_pct = drawdown s.risk.daily_start_equity new_equity;
          open_exposure_pct =
              max zero_f (s.risk.open_exposure_pct ⊖ exposure_drop closed s.portfolio.equity);
          consecutive_losses = if o.le zero_f pnl then 0 else s.risk.consecutive_losses + 1;
          version = s.risk.version + 1;
          as_of_event_time = t;
        };
      }

  -- the profit of a position if it were closed at this price
  abbrev pub pnl_at : F → PositionState F → F
  pnl_at price p = elim p.side [
    | PositionSide.long ↦ (price ⊖ p.entry_price) ⊗ p.quantity
    | PositionSide.short ↦ (p.entry_price ⊖ price) ⊗ p.quantity
  ]

  -- one round of the loop of `_apply_mark_to_market`: a symbol with no price keeps its valuation
  abbrev pub revalue : Dict F → PositionState F → PositionState F
  revalue prices p = elim (lookup p.symbol prices) [
    | none ↦ p
    | some price ↦ record p { unrealized_pnl = pnl_at price p }
  ]

  unfoldable pub revalue_all : Dict F → F → List (PositionState F) → F × List (PositionState F)
  revalue_all prices total [] = (total, [])
  revalue_all prices total (p ∷ ps) =
      let q = revalue prices p in
      let (total', qs) = revalue_all prices (total ⊕ (notional p ⊕ q.unrealized_pnl)) ps in
      (total', q ∷ qs)

  -- the equity and the positions after the loop, from the cash and the positions before it
  unfoldable pub revalued : Dict F → F → List (PositionState F) → F × List (PositionState F)
  unfolding revalue_all
  revalued prices cash [] = (cash, [])
  revalued prices cash (p ∷ ps) =
      let (total, positions) = revalue_all prices zero_f (p ∷ ps) in (cash ⊕ total, positions)

  unfoldable pub apply_mark_to_market : Dict F → Instant → Store F → Store F
  apply_mark_to_market prices t s =
      let (new_equity, positions) = revalued prices s.portfolio.cash s.portfolio.open_positions in
      record s {
        portfolio = record s.portfolio {
          equity = new_equity;
          open_positions = positions;
          version = s.portfolio.version + 1;
          as_of_event_time = t;
          as_of_processing_time = t;
        };
        risk = record s.risk {
          daily_drawdown_pct = drawdown s.risk.daily_start_equity new_equity;
          version = s.risk.version + 1;
          as_of_event_time = t;
        };
      }

  -- The dispatch of `apply_transition` on the type of the transition.
  unfoldable pub dispatch : Transition F → Instant → Store F → Store F
  unfolding apply_position_opened apply_position_closed apply_portfolio_updated apply_risk_updated
      apply_mark_to_market
  dispatch (position_opened position fill cost) t s = apply_position_opened position cost t s
  dispatch (position_closed i fill pnl reason) t s = apply_position_closed i pnl t s
  dispatch (portfolio_updated us) t s = apply_portfolio_updated us t s
  dispatch (risk_updated us) t s = apply_risk_updated us t s
  dispatch (mark_to_market prices) t s = apply_mark_to_market prices t s

  -- `for transition in result.transitions: store.apply_transition(transition)`, for the store's own
  -- portfolio
  unfoldable pub dispatch_all : List (StateTransitionEvent F) → Store F → Store F
  dispatch_all [] s = s
  dispatch_all (e ∷ es) s = dispatch_all es (dispatch e.transition e.event_time s)

module _ {F : Type 0} where
  unfoldable pub get_portfolio : String → Store F → Option (PortfolioState F)
  get_portfolio i s = if str_eq i s.portfolio_id then some s.portfolio else none

  unfoldable pub get_risk : String → Store F → Option (RiskState F)
  get_risk i s = if str_eq i s.portfolio_id then some s.risk else none

  abbrev pub take_snapshot : String → Instant → Option String → Store F → StateSnapshot F
  take_snapshot snapshot_id now correlation_id s = record {
    snapshot_id = snapshot_id;
    portfolio = s.portfolio;
    risk = s.risk;
    version = s.portfolio.version;
    created_at = now;
    correlation_id = correlation_id;
  }

  unfoldable pub snapshot :
      String
      → Option String
      → (snapshot_id : String) (now : Instant) → Store F
      → Option (StateSnapshot F × Store F)
  snapshot portfolio_id correlation_id snapshot_id now s =
      let snap = take_snapshot snapshot_id now correlation_id s in
      if str_eq portfolio_id s.portfolio_id
      then some (snap, record s { snapshots = insert snapshot_id snap s.snapshots })
      else none

module _ {F : Type 0} where
  -- the snapshot and the store that a call of `snapshot` leaves, in a store that was changed before
  abbrev pub returned :
      Store F → Option (StateSnapshot F × Store F) → Option (StateSnapshot F) × Store F
  returned s none = (none, s)
  returned s (some (snap, s')) = (some snap, s')

  -- the exception, if there is one, goes on to the caller
  abbrev pub or_raise : Option (StateSnapshot F) × Store F → Option (StateSnapshot F × Store F)
  or_raise (none, s) = none
  or_raise (some snap, s) = some (snap, s)

module _ {F : Type 0} ⦃o : Float F⦄ where
  -- The result is `none` where an exception is raised; the store is as it is left then.
  unfoldable pub apply_transition :
      StateTransitionEvent F
      → (snapshot_id : String) (now : Instant) → Store F
      → Option (StateSnapshot F) × Store F
  unfolding snapshot
  apply_transition event snapshot_id now s =
      if str_eq event.portfolio_id s.portfolio_id
      then returned (dispatch event.transition event.event_time s) (
          snapshot event.portfolio_id (some event.correlation_id) snapshot_id now
            (dispatch event.transition event.event_time s))
      else (none, s)
