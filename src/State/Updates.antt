-- ===== src/State/Updates.antt =====
-- What the payloads of `portfolio_updated` and `risk_updated` do to a record, in state/store.py.
use quantitative_trading.Prelude.{List, [], ◌∷◌}
use quantitative_trading.Contracts.State.{PortfolioState, RiskState}
use quantitative_trading.State.Transitions.{PortfolioUpdate, RiskUpdate}

module _ {F : Type 0} where
  -- `_apply_portfolio_updated`, an entry at a time. Version and event time are set last, from the
  -- portfolio as it was, and an unknown key is dropped.
  unfoldable pub update_portfolio : PortfolioUpdate F → PortfolioState F → PortfolioState F
  update_portfolio (PortfolioUpdate.portfolio_id x) p = record p { portfolio_id = x }
  update_portfolio (PortfolioUpdate.mode x) p = record p { mode = x }
  update_portfolio (PortfolioUpdate.cash x) p = record p { cash = x }
  update_portfolio (PortfolioUpdate.equity x) p = record p { equity = x }
  update_portfolio (PortfolioUpdate.realized_pnl x) p = record p { realized_pnl = x }
  update_portfolio (PortfolioUpdate.open_positions x) p = record p { open_positions = x }
  update_portfolio (PortfolioUpdate.version x) p = record p { version = x }
  update_portfolio (PortfolioUpdate.as_of_event_time x) p = record p { as_of_event_time = x }
  update_portfolio (PortfolioUpdate.as_of_processing_time x) p = record p {
    as_of_processing_time = x;
  }
  update_portfolio (PortfolioUpdate.other _) p = p

  unfoldable pub update_risk : RiskUpdate F → RiskState F → RiskState F
  update_risk (RiskUpdate.risk_state_id x) r = record r { risk_state_id = x }
  update_risk (RiskUpdate.portfolio_id x) r = record r { portfolio_id = x }
  update_risk (RiskUpdate.daily_pnl x) r = record r { daily_pnl = x }
  update_risk (RiskUpdate.daily_drawdown_pct x) r = record r { daily_drawdown_pct = x }
  update_risk (RiskUpdate.daily_start_equity x) r = record r { daily_start_equity = x }
  update_risk (RiskUpdate.open_exposure_pct x) r = record r { open_exposure_pct = x }
  update_risk (RiskUpdate.consecutive_losses x) r = record r { consecutive_losses = x }
  update_risk (RiskUpdate.signals_today x) r = record r { signals_today = x }
  update_risk (RiskUpdate.limits x) r = record r { limits = x }
  update_risk (RiskUpdate.breached_limits x) r = record r { breached_limits = x }
  update_risk (RiskUpdate.version x) r = record r { version = x }
  update_risk (RiskUpdate.as_of_event_time x) r = record r { as_of_event_time = x }
  update_risk (RiskUpdate.other _) r = r

  unfoldable pub update_portfolio_all :
      List (PortfolioUpdate F) → PortfolioState F → PortfolioState F
  update_portfolio_all [] p = p
  update_portfolio_all (u ∷ us) p = update_portfolio_all us (update_portfolio u p)

  unfoldable pub update_risk_all : List (RiskUpdate F) → RiskState F → RiskState F
  update_risk_all [] r = r
  update_risk_all (u ∷ us) r = update_risk_all us (update_risk u r)
