-- ===== src/Tests/State.antt =====
-- The store's theorems at the data.
use quantitative_trading.Prelude.{◌≡◌, refl, some, [], ◌∷◌, map}
use quantitative_trading.Prelude.Int.{pos, ◌+ℤ◌, ◌-ℤ◌, ◌*ℤ◌, quot}
use quantitative_trading.Float.{◌⊕◌, ◌⊖◌}
use quantitative_trading.Float.Exact.{int_float}
use quantitative_trading.Contracts.Event.{ExitReason}
use quantitative_trading.State.Transitions.{position_opened, position_closed, mark_to_market}
use quantitative_trading.Dict.{lookup}
use quantitative_trading.State.Store.{notional, revalued, dispatch, take_snapshot, apply_transition}
use quantitative_trading.State.Positions.{IsDistinct, dispatch-IsDistinct, close-open}
use quantitative_trading.State.Cash.{book, run, inflows, run_conserves}
use quantitative_trading.State.Equity.{marked, worth, mark_to_market_equity, close_counts_twice}
use quantitative_trading.State.Versions.{Recorded, apply_transition-Recorded}
use quantitative_trading.Tests.Data.{a_fill, btc, eth, sol, store, closing, trading, event}

store-IsDistinct : IsDistinct store.portfolio.open_positions
store-IsDistinct = (refl, (refl, tt))

book_before : book store ≡ pos 1_000
unfolding ◌+ℤ◌ ◌*ℤ◌
book_before = refl

book_after : book (run trading store) ≡ pos 1_019
unfolding run dispatch ◌+ℤ◌ ◌-ℤ◌ ◌*ℤ◌ quot revalued
book_after = refl

run_conserves_example :
    (book (run trading store) ≡ book store +ℤ inflows trading)
    × IsDistinct (run trading store).portfolio.open_positions
run_conserves_example = run_conserves trading store (refl, (tt, (tt, (tt, tt)))) store-IsDistinct

dispatch-IsDistinct_example :
    IsDistinct (dispatch (position_opened sol a_fill (pos 41)) 8 store).portfolio.open_positions
dispatch-IsDistinct_example =
    dispatch-IsDistinct (position_opened sol a_fill (pos 41)) 8 store refl store-IsDistinct

close-open_example :
    let s' =
      dispatch
        (position_closed "pos_3" a_fill (pos 7) ExitReason.signal)
        9
        (dispatch (position_opened sol a_fill (pos 41)) 8 store) in
    (s'.portfolio.open_positions ≡ btc ∷ eth ∷ [])
    × (s'.portfolio.cash ≡ ((pos 650 ⊖ pos 41) ⊕ pos 7) ⊕ notional sol)
close-open_example = close-open sol a_fill a_fill (pos 41) (pos 7) ExitReason.signal 8 9 store refl

apply_transition-Recorded_example :
    Recorded event "snap_2" store
      (take_snapshot "snap_2" 12 (some "cor_1") (dispatch closing 10 store))
      (record (dispatch closing 10 store) {
        snapshots =
            ("snap_2", take_snapshot "snap_2" 12 (some "cor_1") (dispatch closing 10 store)) ∷ [];
      })
unfolding apply_transition dispatch
apply_transition-Recorded_example = apply_transition-Recorded event "snap_2" 12 store refl

mark_to_market_equity_example :
    let s' = dispatch (mark_to_market (("BTC", pos 120) ∷ [])) 9 store in
    (s'.portfolio.equity ≡ worth s')
    × (s'.portfolio.open_positions
        ≡ map (λ p. marked p (lookup p.symbol (("BTC", pos 120) ∷ []))) (btc ∷ eth ∷ []))
    × (s'.portfolio.cash ≡ pos 650)
    × (s'.portfolio.realized_pnl ≡ pos 0)
mark_to_market_equity_example = mark_to_market_equity (("BTC", pos 120) ∷ []) 9 store

store-worth : store.portfolio.equity ≡ worth store
unfolding ◌+ℤ◌ ◌*ℤ◌
store-worth = refl

close_counts_twice_example :
    let s' = dispatch closing 10 store in s'.portfolio.equity ≡ worth s' +ℤ pos 20
close_counts_twice_example =
    close_counts_twice "pos_1" a_fill (pos 20) ExitReason.take_profit 10 store btc store-worth
      store-IsDistinct refl
