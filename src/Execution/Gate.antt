-- ===== src/Execution/Gate.antt =====
-- `ExecutionRiskGate` of execution/risk_gate.py.
use quantitative_trading.Prelude.{not, none, some, String, if◌then◌else◌, length, ltb}
use quantitative_trading.Float.{Float, ◌⊕◌, ◌⊗◌, ◌⊘◌}
use quantitative_trading.Contracts.State.{StateSnapshot}
use quantitative_trading.Contracts.Execution.{OrderIntent}
use quantitative_trading.State.Store.{zero_f}

pub data GateReason : Type 0 where
  max_open_positions missing_entry_price max_exposure insufficient_cash : GateReason

-- The string of a reason, as the event of a rejection carries it.
abbrev pub reason_text : GateReason → String
reason_text max_open_positions = "max_open_positions"
reason_text missing_entry_price = "missing_entry_price"
reason_text max_exposure = "max_exposure"
reason_text insufficient_cash = "insufficient_cash"

-- The verdict of the gate: passed, the reason of a refusal, or the `ZeroDivisionError` of a portfolio
-- with no equity.
pub data GateResult : Type 0 where
  passed : GateResult
  refused : GateReason → GateResult
  zero_division : GateResult

module _ {F : Type 0} ⦃o : Float F⦄ where
  -- the checks on an intent that has a price
  abbrev pub check_price : OrderIntent F → F → StateSnapshot F → GateResult
  check_price intent price snapshot =
      let portfolio = snapshot.portfolio in
      let risk = snapshot.risk in
      let notional = intent.quantity ⊗ price in
      let exposure_pct =
        (risk.open_exposure_pct ⊗ portfolio.equity ⊘ o.of_nat 100 ⊕ notional)
        ⊘ portfolio.equity
        ⊗ o.of_nat 100 in
      if o.eq portfolio.equity zero_f
      then zero_division
      else if o.lt risk.limits.max_exposure_pct exposure_pct
      then refused max_exposure
      else if o.lt portfolio.cash notional
      then refused insufficient_cash
      else passed

  unfoldable pub check : OrderIntent F → StateSnapshot F → GateResult
  check intent snapshot =
      if not
        (ltb (length snapshot.portfolio.open_positions) snapshot.risk.limits.max_open_positions)
      then refused max_open_positions
      else elim intent.limit_price [
        | none ↦ refused missing_entry_price
        | some price ↦ check_price intent price snapshot
      ]
