-- ===== src/State/Positions.antt =====
-- The open positions and their ids under each transition of state/store.py.
use quantitative_trading.Prelude.{
  ◌≡◌, ◌≢◌, refl, ap, none, List, [], ◌∷◌, ◌++◌, map, String, eq_iff, eq_refl, arith, filter, find,
  Option-cases,
}
use quantitative_trading.Dict.{Dict, lookup}
use quantitative_trading.Float.{Float, ◌⊕◌, ◌⊖◌}
use quantitative_trading.Contracts.State.{Instant, PositionState}
use quantitative_trading.Contracts.Execution.{Fill}
use quantitative_trading.Contracts.Event.{ExitReason}
use quantitative_trading.State.Transitions.{
  Transition, position_opened, position_closed, risk_updated, portfolio_updated, mark_to_market,
}
use quantitative_trading.State.Store.{
  Store, has_id, not_id, notional, revalue, revalue_all, revalued, dispatch, zero_f,
}

module _ {F : Type 0} where
  -- no position of the list has this id
  abbrev pub IsAbsent : String → List (PositionState F) → Type 0
  IsAbsent i ps = find (has_id i) ps ≡ none

  -- no two positions of the list have one id
  abbrev pub IsDistinct : List (PositionState F) → Type 0
  IsDistinct [] = Unit
  IsDistinct (p ∷ ps) = IsAbsent p.position_id ps × IsDistinct ps

  pub filter-IsAbsent :
      (i : String) (ps : List (PositionState F)) → IsAbsent i ps → filter (not_id i) ps ≡ ps
  filter-IsAbsent i [] h = refl
  filter-IsAbsent i (p ∷ ps) h = ground (arith, filter-IsAbsent i ps)

  pub find-append :
      (i : String) (ps qs : List (PositionState F))
      → IsAbsent i ps
      → find (has_id i) (ps ++ qs) ≡ find (has_id i) qs
  find-append i [] qs h = refl
  find-append i (p ∷ ps) qs h = ground (arith, find-append i ps qs)

  -- Closing the position that was opened last leaves those that were there.
  pub filter-append_new :
      (p : PositionState F) (ps : List (PositionState F))
      → IsAbsent p.position_id ps
      → filter (not_id p.position_id) (ps ++ (p ∷ [])) ≡ ps
  filter-append_new p [] h = ground (arith, eq_refl p.position_id)
  filter-append_new p (q ∷ qs) h = ground (arith, filter-append_new p qs)

  find-append_new :
      (i : String) (p : PositionState F) (ps : List (PositionState F))
      → IsAbsent i ps
      → p.position_id ≢ i
      → IsAbsent i (ps ++ (p ∷ []))
  find-append_new i p [] h ne = ground (arith, eq_iff p.position_id i)
  find-append_new i p (q ∷ qs) h ne = ground (arith, find-append_new i p qs)

  append-IsDistinct :
      (p : PositionState F) (ps : List (PositionState F))
      → IsDistinct ps
      → IsAbsent p.position_id ps
      → IsDistinct (ps ++ (p ∷ []))
  append-IsDistinct p [] d h = (refl, tt)
  append-IsDistinct p (q ∷ qs) d h = ground (
    arith,
    eq_iff p.position_id q.position_id,
    eq_iff q.position_id p.position_id,
    find-append_new q.position_id p qs,
    append-IsDistinct p qs,
  )

  IsAbsent-filter :
      (i j : String) (ps : List (PositionState F))
      → IsAbsent i ps
      → IsAbsent i (filter (not_id j) ps)
  IsAbsent-filter i j [] h = refl
  IsAbsent-filter i j (p ∷ ps) h = ground (arith, IsAbsent-filter i j ps)

  filter-IsDistinct :
      (j : String) (ps : List (PositionState F)) → IsDistinct ps → IsDistinct (filter (not_id j) ps)
  filter-IsDistinct j [] d = tt
  filter-IsDistinct j (p ∷ ps) d =
      ground (arith, IsAbsent-filter p.position_id j ps, filter-IsDistinct j ps)

module _ {F : Type 0} ⦃o : Float F⦄ where
  pub revalue_all_positions :
      (prices : Dict F) (total : F) (ps : List (PositionState F))
      → (revalue_all prices total ps).1 ≡ map (revalue prices) ps
  unfolding revalue_all
  revalue_all_positions prices total [] = refl
  revalue_all_positions prices total (p ∷ ps) =
      ap (λ qs. revalue prices p ∷ qs)
        (revalue_all_positions prices (total ⊕ (notional p ⊕ (revalue prices p).unrealized_pnl)) ps)

  -- `_apply_mark_to_market` revalues every position where it stands.
  pub revalued_positions :
      (prices : Dict F) (cash : F) (ps : List (PositionState F))
      → (revalued prices cash ps).1 ≡ map (revalue prices) ps
  unfolding revalued
  revalued_positions prices cash [] = refl
  revalued_positions prices cash (p ∷ ps) = revalue_all_positions prices zero_f (p ∷ ps)

  revalue_id :
      (prices : Dict F) (p : PositionState F) → (revalue prices p).position_id ≡ p.position_id
  revalue_id prices p = ground (arith, Option-cases (lookup p.symbol prices))

  map-revalue-IsAbsent :
      (prices : Dict F) (i : String) (ps : List (PositionState F))
      → IsAbsent i ps
      → IsAbsent i (map (revalue prices) ps)
  map-revalue-IsAbsent prices i [] h = refl
  map-revalue-IsAbsent prices i (p ∷ ps) h =
      rw (revalue_id prices p) (ground (arith, map-revalue-IsAbsent prices i ps))

  map-revalue-IsDistinct :
      (prices : Dict F) (ps : List (PositionState F))
      → IsDistinct ps
      → IsDistinct (map (revalue prices) ps)
  map-revalue-IsDistinct prices [] d = tt
  map-revalue-IsDistinct prices (p ∷ ps) d = (
    rw (revalue_id prices p) (map-revalue-IsAbsent prices p.position_id ps d.0),
    map-revalue-IsDistinct prices ps d.1,
  )

  -- The transitions that trading makes: a new position has a new id, and no field of the portfolio is
  -- written by hand.
  abbrev pub IsTrading : Transition F → Store F → Type 0
  IsTrading (position_opened p _ _) s = IsAbsent p.position_id s.portfolio.open_positions
  IsTrading (position_closed _ _ _ _) s = Unit
  IsTrading (mark_to_market _) s = Unit
  IsTrading (risk_updated _) s = Unit
  IsTrading (portfolio_updated _) s = ⊥

  -- Every trading transition keeps the ids of the open positions distinct.
  pub dispatch-IsDistinct :
      (t : Transition F) (at : Instant) (s : Store F)
      → IsTrading t s
      → IsDistinct s.portfolio.open_positions
      → IsDistinct (dispatch t at s).portfolio.open_positions
  unfolding dispatch
  dispatch-IsDistinct (position_opened p _ _) at s h d = append-IsDistinct p _ d h
  dispatch-IsDistinct (position_closed i _ _ _) at s h d = filter-IsDistinct i _ d
  dispatch-IsDistinct (mark_to_market prices) at s h d =
      rw (revalued_positions prices s.portfolio.cash s.portfolio.open_positions)
        (map-revalue-IsDistinct prices _ d)
  dispatch-IsDistinct (risk_updated us) at s h d = d
  dispatch-IsDistinct (portfolio_updated us) at s h d = absurd h

  -- Opening a position with a new id and closing it leaves the open positions as they were; the cash
  -- has paid the cost and got the profit and the price of entry.
  pub close-open :
      (p : PositionState F) (f g : Fill F) (cost pnl : F) (r : ExitReason) (at at' : Instant)
      (s : Store F)
      → IsAbsent p.position_id s.portfolio.open_positions
      → let s' =
          dispatch
            (position_closed p.position_id g pnl r)
            at'
            (dispatch (position_opened p f cost) at s) in
        (s'.portfolio.open_positions ≡ s.portfolio.open_positions)
        × (s'.portfolio.cash ≡ ((s.portfolio.cash ⊖ cost) ⊕ pnl) ⊕ notional p)
  unfolding dispatch
  close-open p f g cost pnl r at at' s h = (
    filter-append_new p s.portfolio.open_positions h,
    rw (find-append p.position_id s.portfolio.open_positions (p ∷ []) h)
        (ground (arith, eq_refl p.position_id)),
  )
