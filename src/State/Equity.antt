-- ===== src/State/Equity.antt =====
-- The equity in exact arithmetic: what marking to market establishes, and what closing does to it.
use mathlib.Core.Option.{some-injective}
use quantitative_trading.Prelude.{
  ◌≡◌, refl, ap, ◌∙◌, Option, none, some, List, [], ◌∷◌, map, String, eq_iff, filter, find,
  Bool-cases, inl, inr,
}
use quantitative_trading.Prelude.Int.{ℤ, pos, ◌+ℤ◌, ◌-ℤ◌, ◌*ℤ◌, int_laws}
use quantitative_trading.Dict.{Dict, lookup}
use quantitative_trading.Float.Exact.{int_float}
use quantitative_trading.Contracts.State.{Instant, PositionState, PositionSide}
use quantitative_trading.Contracts.Execution.{Fill}
use quantitative_trading.Contracts.Event.{ExitReason}
use quantitative_trading.State.Transitions.{position_closed, mark_to_market}
use quantitative_trading.State.Store.{
  Store, pnl_at, has_id, not_id, notional, revalue, revalue_all, revalued, dispatch, zero_f,
}
use quantitative_trading.State.Cash.{notional-revalue}
use quantitative_trading.State.Positions.{IsAbsent, IsDistinct, filter-IsAbsent, revalued_positions}

-- what a position is worth at its last valuation
abbrev pub value : PositionState ℤ → ℤ
value p = p.entry_price *ℤ p.quantity +ℤ p.unrealized_pnl

-- what the position has gained at this price
abbrev pub gain : PositionSide → (price entry_price quantity : ℤ) → ℤ
gain PositionSide.long price entry_price quantity = (price -ℤ entry_price) *ℤ quantity
gain PositionSide.short price entry_price quantity = (entry_price -ℤ price) *ℤ quantity

-- the position at the given price of its symbol, and as it was without one
abbrev pub marked : PositionState ℤ → Option ℤ → PositionState ℤ
marked p none = p
marked p (some price) = record p { unrealized_pnl = gain p.side price p.entry_price p.quantity }

pnl_at-gain :
    (side : PositionSide) (price entry_price quantity : ℤ)
    → (elim side [
      | PositionSide.long ↦ (price -ℤ entry_price) *ℤ quantity
      | PositionSide.short ↦ (entry_price -ℤ price) *ℤ quantity
    ])
      ≡ gain side price entry_price quantity
pnl_at-gain PositionSide.long price entry_price quantity = refl
pnl_at-gain PositionSide.short price entry_price quantity = refl

marked_at :
    (p : PositionState ℤ) (price : Option ℤ)
    → (elim price [ none ↦ p | some x ↦ record p { unrealized_pnl = pnl_at x p } ]) ≡ marked p price
marked_at p none = refl
marked_at p (some x) =
    ap (λ gained. record p { unrealized_pnl = gained })
      (pnl_at-gain p.side x p.entry_price p.quantity)

revalue-marked :
    (prices : Dict ℤ) (p : PositionState ℤ) → revalue prices p ≡ marked p (lookup p.symbol prices)
revalue-marked prices p = marked_at p (lookup p.symbol prices)

revalue-marked_all :
    (prices : Dict ℤ) (ps : List (PositionState ℤ))
    → map (revalue prices) ps ≡ map (λ p. marked p (lookup p.symbol prices)) ps
revalue-marked_all prices [] = refl
revalue-marked_all prices (p ∷ ps) = rw (revalue-marked prices p, revalue-marked_all prices ps) refl

abbrev pub values : List (PositionState ℤ) → ℤ
values [] = pos 0
values (p ∷ ps) = value p +ℤ values ps

-- the cash and the worth of the open positions
abbrev pub worth : Store ℤ → ℤ
worth s = s.portfolio.cash +ℤ values s.portfolio.open_positions

revalue_all_total :
    (prices : Dict ℤ) (total : ℤ) (ps : List (PositionState ℤ))
    → (revalue_all prices total ps).0 ≡ total +ℤ values (map (revalue prices) ps)
unfolding revalue_all
revalue_all_total prices total [] = omega int_laws
revalue_all_total prices total (p ∷ ps) =
    rw
      (
        revalue_all_total prices (total +ℤ (notional p +ℤ (revalue prices p).unrealized_pnl)) ps,
        notional-revalue prices p,
      )
      (omega int_laws)

revalued_equity :
    (prices : Dict ℤ) (cash : ℤ) (ps : List (PositionState ℤ))
    → (revalued prices cash ps).0 ≡ cash +ℤ values (map (revalue prices) ps)
unfolding revalued
revalued_equity prices cash [] = omega int_laws
revalued_equity prices cash (p ∷ ps) =
    rw (revalue_all_total prices zero_f (p ∷ ps)) (omega int_laws)

-- Marking to market sets the equity to the cash plus, for each open position, its entry price times
-- its quantity and its unrealized profit. That profit is the quantity times the distance from the entry
-- price to the given price of the symbol, upwards for a long and downwards for a short position, and
-- stays as it was without a price. The cash and the realized profit stay.
pub mark_to_market_equity :
    (prices : Dict ℤ) (at : Instant) (s : Store ℤ)
    → let s' = dispatch (mark_to_market prices) at s in
      (s'.portfolio.equity ≡ worth s')
      × (s'.portfolio.open_positions
          ≡ map (λ p. marked p (lookup p.symbol prices)) s.portfolio.open_positions)
      × (s'.portfolio.cash ≡ s.portfolio.cash)
      × (s'.portfolio.realized_pnl ≡ s.portfolio.realized_pnl)
unfolding dispatch
mark_to_market_equity prices at s =
    let moved = revalued_positions prices s.portfolio.cash s.portfolio.open_positions in
    (
      rw (moved, revalued_equity prices s.portfolio.cash s.portfolio.open_positions),
      moved ∙ revalue-marked_all prices s.portfolio.open_positions,
      refl,
      refl,
    )

values-filter :
    (i : String) (p : PositionState ℤ) (ps : List (PositionState ℤ))
    → IsDistinct ps
    → find (has_id i) ps ≡ some p
    → values ps ≡ values (filter (not_id i) ps) +ℤ value p
values-filter i p [] d e = cc
values-filter i p (q ∷ qs) d e = elim (Bool-cases (has_id i q)) [
  | inl same ↦
      let absent : IsAbsent i qs = rw (← (eq_iff q.position_id i).0 same) d.0 in
      let found : q ≡ p = some-injective _ _ (rw same at e) in
      rw (same, ← found, filter-IsAbsent i qs absent) (omega int_laws)
  | inr other ↦ rw (other, values-filter i p qs d.1 (rw other at e)) (omega int_laws)
]

-- Where the equity is the worth of the store, as marking to market leaves it, closing a position adds
-- its profit to the equity although the position's unrealized profit is in it already: the equity ends
-- above the new worth by exactly the unrealized profit of the position that was closed.
pub close_counts_twice :
    (i : String) (f : Fill ℤ) (pnl : ℤ) (r : ExitReason) (at : Instant) (s : Store ℤ)
    (p : PositionState ℤ)
    → s.portfolio.equity ≡ worth s
    → IsDistinct s.portfolio.open_positions
    → find (has_id i) s.portfolio.open_positions ≡ some p
    → let s' = dispatch (position_closed i f pnl r) at s in
      s'.portfolio.equity ≡ worth s' +ℤ p.unrealized_pnl
unfolding dispatch
close_counts_twice i f pnl r at s p e d found =
    rw (found, e, values-filter i p s.portfolio.open_positions d found) (omega int_laws)
