-- ===== src/State/Cash.antt =====
-- Where the money is, in exact arithmetic: the cash and the capital that the open positions lock.
use mathlib.Core.Option.{some-injective}
use quantitative_trading.Prelude.{
  ◌≡◌, refl, some, List, [], ◌∷◌, ◌++◌, map, String, eq_iff, arith, filter, find, Option-cases,
  Bool-cases, inl, inr,
}
use quantitative_trading.Prelude.Int.{ℤ, pos, ◌+ℤ◌, ◌-ℤ◌, int_laws}
use quantitative_trading.Dict.{Dict, lookup}
use quantitative_trading.Float.Exact.{int_float}
use quantitative_trading.Contracts.State.{Instant, PositionState}
use quantitative_trading.State.Transitions.{
  Transition, position_opened, position_closed, risk_updated, portfolio_updated, mark_to_market,
}
use quantitative_trading.State.Store.{Store, has_id, not_id, notional, revalue, dispatch}
use quantitative_trading.State.Positions.{
  IsAbsent, IsDistinct, IsTrading, filter-IsAbsent, revalued_positions, dispatch-IsDistinct,
}

-- the capital that positions lock, at their prices of entry
abbrev pub locked : List (PositionState ℤ) → ℤ
locked [] = pos 0
locked (p ∷ ps) = notional p +ℤ locked ps

abbrev pub book : Store ℤ → ℤ
book s = s.portfolio.cash +ℤ locked s.portfolio.open_positions

-- what a transition brings into the book: a fee is what a position costs above its notional
abbrev pub inflow : Transition ℤ → ℤ
inflow (position_opened p _ cost) = notional p -ℤ cost
inflow (position_closed _ _ pnl _) = pnl
inflow (mark_to_market _) = pos 0
inflow (risk_updated _) = pos 0
inflow (portfolio_updated _) = pos 0

locked-append : (ps qs : List (PositionState ℤ)) → locked (ps ++ qs) ≡ locked ps +ℤ locked qs
locked-append [] qs = omega int_laws
locked-append (p ∷ ps) qs = rw (locked-append ps qs) (omega int_laws)

pub notional-revalue :
    (prices : Dict ℤ) (p : PositionState ℤ) → notional (revalue prices p) ≡ notional p
notional-revalue prices p = ground (arith, Option-cases (lookup p.symbol prices))

locked-map :
    (prices : Dict ℤ) (ps : List (PositionState ℤ)) → locked (map (revalue prices) ps) ≡ locked ps
locked-map prices [] = refl
locked-map prices (p ∷ ps) = rw (notional-revalue prices p, locked-map prices ps)

-- a position that is found takes its notional with it
locked-filter :
    (i : String) (p : PositionState ℤ) (ps : List (PositionState ℤ))
    → IsDistinct ps
    → find (has_id i) ps ≡ some p
    → locked ps ≡ locked (filter (not_id i) ps) +ℤ notional p
locked-filter i p [] d e = cc
locked-filter i p (q ∷ qs) d e = elim (Bool-cases (has_id i q)) [
  | inl same ↦
      let absent : IsAbsent i qs = rw (← (eq_iff q.position_id i).0 same) d.0 in
      let found : q ≡ p = some-injective _ _ (rw same at e) in
      rw (same, ← found, filter-IsAbsent i qs absent) (omega int_laws)
  | inr other ↦ rw (other, locked-filter i p qs d.1 (rw other at e)) (omega int_laws)
]

-- In exact arithmetic, while ids are distinct, each trading transition changes the sum of the cash and
-- the capital that the open positions lock by exactly its inflow: a closing adds its profit, an
-- opening takes the fee, and revaluing or a risk update changes nothing.
book-dispatch :
    (t : Transition ℤ) (at : Instant) (s : Store ℤ)
    → IsTrading t s
    → IsDistinct s.portfolio.open_positions
    → book (dispatch t at s) ≡ book s +ℤ inflow t
unfolding dispatch
book-dispatch (position_opened p _ cost) at s h d =
    rw (locked-append s.portfolio.open_positions (p ∷ [])) (omega int_laws)
book-dispatch (position_closed i _ pnl _) at s h d =
    elim (Option-cases (find (has_id i) s.portfolio.open_positions)) [
      | inl e ↦ rw (e, filter-IsAbsent i s.portfolio.open_positions e) (omega int_laws)
      | inr (p, e) ↦ rw (e, locked-filter i p s.portfolio.open_positions d e) (omega int_laws)
    ]
book-dispatch (mark_to_market prices) at s h d =
    rw
      (
        revalued_positions prices s.portfolio.cash s.portfolio.open_positions,
        locked-map prices s.portfolio.open_positions,
      )
      (omega int_laws)
book-dispatch (risk_updated us) at s h d = omega int_laws
book-dispatch (portfolio_updated us) at s h d = absurd h

-- `for transition in transitions: apply_transition(transition)`, with the times of the events.
unfoldable pub run : List (Transition ℤ × Instant) → Store ℤ → Store ℤ
run [] s = s
run ((t, at) ∷ ts) s = run ts (dispatch t at s)

abbrev pub AreTrading : List (Transition ℤ × Instant) → Store ℤ → Type 0
AreTrading [] s = Unit
AreTrading ((t, at) ∷ ts) s = IsTrading t s × AreTrading ts (dispatch t at s)

abbrev pub inflows : List (Transition ℤ × Instant) → ℤ
inflows [] = pos 0
inflows ((t, at) ∷ ts) = inflow t +ℤ inflows ts

-- In exact arithmetic no sequence of trading transitions makes or loses money: from a store whose open
-- positions have distinct ids, the cash and the capital locked in open positions end at their sum
-- before plus all profits of closings less all opening fees, and the ids are still distinct.
pub run_conserves :
    (ts : List (Transition ℤ × Instant)) (s : Store ℤ)
    → AreTrading ts s
    → IsDistinct s.portfolio.open_positions
    → (book (run ts s) ≡ book s +ℤ inflows ts) × IsDistinct (run ts s).portfolio.open_positions
unfolding run
run_conserves [] s h d = (omega int_laws, d)
run_conserves ((t, at) ∷ ts) s (h, hs) d =
    let (later, distinct) =
      run_conserves ts (dispatch t at s) hs (dispatch-IsDistinct t at s h d) in
    (rw (later, book-dispatch t at s h d) (omega int_laws), distinct)
