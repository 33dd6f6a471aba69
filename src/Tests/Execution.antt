-- ===== src/Tests/Execution.antt =====
-- The execution engine's theorems at the data.
use quantitative_trading.Prelude.{str_eq, ◌≡◌, refl, true, not, none, map, filter, [], ◌∷◌}
use quantitative_trading.Float.Exact.{int_float}
use quantitative_trading.State.Store.{dispatch_all}
use quantitative_trading.Execution.Orders.{execute}
use quantitative_trading.Execution.Simulated.{evaluate_bar, liquidate_open_positions}
use quantitative_trading.Execution.Pending.{process_pending_entries}
use quantitative_trading.Execution.Liquidation.{is_of, liquidate-dispatch}
use quantitative_trading.Execution.Timeout.{AreInTime, evaluate_bar-AreInTime}
use quantitative_trading.Execution.Quiet.{trades, quiet, evaluate_bar-quiet}
use quantitative_trading.Execution.LongOnly.{OnlyLongIf, execute-OnlyLong}
use quantitative_trading.Execution.Fills.{openings, asked, process_pending_entries-openings}
use quantitative_trading.Tests.Data.{btc, eth, store, snap}
use quantitative_trading.Tests.Orders.{decision, engine, bar, cycle}

liquidate-dispatch_example :
    let (result, _) = liquidate_open_positions bar snap cycle engine in
    (dispatch_all result.transitions store).portfolio.open_positions
    ≡ filter (λ p. not (is_of "BTC" p)) (btc ∷ eth ∷ [])
liquidate-dispatch_example = liquidate-dispatch bar snap cycle engine store (refl, (refl, tt)) refl

evaluate_bar-AreInTime_example :
    AreInTime bar snap cycle (btc ∷ eth ∷ []) (evaluate_bar bar snap cycle none true engine).1
evaluate_bar-AreInTime_example = evaluate_bar-AreInTime bar snap cycle engine

evaluate_bar-quiet_example :
    trades (evaluate_bar bar snap cycle none true engine)
    ≡ trades (evaluate_bar bar snap cycle none true (quiet engine))
evaluate_bar-quiet_example = evaluate_bar-quiet bar snap cycle none true engine

execute-OnlyLong_example :
    OnlyLongIf (execute decision snap bar cycle (record engine { pending_entries = [] }))
execute-OnlyLong_example =
    execute-OnlyLong decision snap bar cycle (record engine { pending_entries = [] }) refl tt

process_pending_entries-openings_example :
    let (result, engine') = process_pending_entries bar snap cycle engine in
    (openings result.transitions
      ≡ map (asked bar engine) (filter (λ p. str_eq p.symbol "BTC") engine.pending_entries))
    × (engine'.pending_entries ≡ filter (λ p. not (str_eq p.symbol "BTC")) engine.pending_entries)
process_pending_entries-openings_example = process_pending_entries-openings bar snap cycle engine
