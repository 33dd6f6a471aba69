-- ===== src/Execution/Liquidation.antt =====
-- `liquidate_open_positions` of execution/simulated.py with the store that its transitions go to.
use quantitative_trading.Prelude.{
  ◌≡◌, refl, not, List, [], ◌∷◌, ◌++◌, String, Bool, str_eq, eq_iff, eq_refl, arith, filter,
  if◌then◌else◌, Bool-cases, inl, inr,
}
use quantitative_trading.Float.{Float}
use quantitative_trading.Contracts.State.{PositionState, StateSnapshot}
use quantitative_trading.Contracts.Execution.{Bar}
use quantitative_trading.Contracts.Event.{ExitReason}
use quantitative_trading.State.Transitions.{StateTransitionEvent}
use quantitative_trading.State.Store.{Store, not_id, dispatch, dispatch_all}
use quantitative_trading.State.Positions.{IsAbsent, IsDistinct, filter-IsAbsent}
use quantitative_trading.Execution.Simulator.{Engine, Cycle}
use quantitative_trading.Execution.Positions.{close_position}
use quantitative_trading.Execution.Simulated.{
  Sweep, close_in, liquidate_all, liquidate_open_positions,
}

module _ {F : Type 0} where
  abbrev pub is_of : String → PositionState F → Bool
  is_of symbol p = str_eq p.symbol symbol

  -- the positions that are left when each position of the symbol in the list has been closed
  abbrev drop_closed :
      String → List (PositionState F) → List (PositionState F) → List (PositionState F)
  drop_closed symbol [] qs = qs
  drop_closed symbol (p ∷ ps) qs =
      drop_closed symbol ps (if is_of symbol p then filter (not_id p.position_id) qs else qs)

  drop_closed-absent :
      (symbol : String) (p : PositionState F) (ps qs : List (PositionState F))
      → IsAbsent p.position_id ps
      → drop_closed symbol ps (p ∷ qs) ≡ p ∷ drop_closed symbol ps qs
  drop_closed-absent symbol p [] qs h = refl
  drop_closed-absent symbol p (r ∷ ps) qs h = ground (
    arith,
    eq_iff p.position_id r.position_id,
    eq_iff r.position_id p.position_id,
    drop_closed-absent symbol p ps qs,
    drop_closed-absent symbol p ps (filter (not_id r.position_id) qs),
  )

  drop_closed_self :
      (symbol : String) (ps : List (PositionState F))
      → IsDistinct ps
      → drop_closed symbol ps ps ≡ filter (λ p. not (is_of symbol p)) ps
  drop_closed_self symbol [] d = refl
  drop_closed_self symbol (p ∷ ps) (h, d) = elim (Bool-cases (is_of symbol p)) [
    | inl same ↦
        rw (same, eq_refl p.position_id, filter-IsAbsent p.position_id ps h)
          (drop_closed_self symbol ps d)
    | inr other ↦ rw (other, drop_closed-absent symbol p ps ps h, drop_closed_self symbol ps d) refl
  ]

module _ {F : Type 0} ⦃o : Float F⦄ where
  pub dispatch_all-append :
      (es fs : List (StateTransitionEvent F)) (st : Store F)
      → dispatch_all (es ++ fs) st ≡ dispatch_all fs (dispatch_all es st)
  unfolding dispatch_all
  dispatch_all-append [] fs st = refl
  dispatch_all-append (e ∷ es) fs st =
      dispatch_all-append es fs (dispatch e.transition e.event_time st)

module _ {F : Type 0} ⦃o : Float F⦄ (bar : Bar F) (snapshot : StateSnapshot F) (cycle : Cycle) where
  -- the store's positions after one more closing
  close_in-dispatch :
      (p : PositionState F) (price : F) (reason : ExitReason) (s : Sweep F) (st : Store F)
      → (dispatch_all
          (close_in bar snapshot cycle p price reason s).transitions
          st).portfolio.open_positions
        ≡ filter (not_id p.position_id) (dispatch_all s.transitions st).portfolio.open_positions
  unfolding dispatch_all dispatch close_position
  close_in-dispatch p price reason s st = rw (dispatch_all-append s.transitions _ st) refl

  liquidate_all-dispatch :
      (ps : List (PositionState F)) (s : Sweep F) (st : Store F)
      → (dispatch_all
          (liquidate_all bar snapshot cycle ps s).transitions
          st).portfolio.open_positions
        ≡ drop_closed cycle.symbol ps (dispatch_all s.transitions st).portfolio.open_positions
  unfolding liquidate_all
  liquidate_all-dispatch [] s st = refl
  liquidate_all-dispatch (p ∷ ps) s st = elim (Bool-cases (is_of cycle.symbol p)) [
    | inl same ↦
        rw
          (
            liquidate_all,
            same,
            liquidate_all-dispatch ps
                (close_in bar snapshot cycle p bar.close ExitReason.end_of_run s) st,
            close_in-dispatch p bar.close ExitReason.end_of_run s st,
          )
          refl
    | inr other ↦ rw (liquidate_all, other) (liquidate_all-dispatch ps s st)
  ]

  -- Where the ids of the snapshot's open positions are distinct and the store has these positions,
  -- applying the transitions of a liquidation leaves exactly the positions of the other symbols, in
  -- their order.
  pub liquidate-dispatch :
      (engine : Engine F) (st : Store F)
      → IsDistinct snapshot.portfolio.open_positions
      → st.portfolio.open_positions ≡ snapshot.portfolio.open_positions
      → let (result, _) = liquidate_open_positions bar snapshot cycle engine in
        (dispatch_all result.transitions st).portfolio.open_positions
        ≡ filter (λ p. not (is_of cycle.symbol p)) snapshot.portfolio.open_positions
  unfolding liquidate_open_positions dispatch_all
  liquidate-dispatch engine st d same =
      rw
        (
          liquidate_all-dispatch snapshot.portfolio.open_positions
              (record { events = []; transitions = []; engine = engine }) st,
          same,
        )
        (drop_closed_self cycle.symbol snapshot.portfolio.open_positions d)
