-- ===== src/Validation.antt =====
-- backend/src/validation: the backtest over a range of bars, its windows and its scores.
pub mod Harness
pub mod DailyLimit
pub mod Backtest
pub mod Windows
pub mod Folds
pub mod Space
pub mod Trials
pub mod Picked
pub mod Generated
pub mod Metrics
pub mod Breakdown
pub mod Drawdown
pub mod Trades
pub mod Ledger
pub mod Selection
pub mod Ranks
pub mod Choice
pub mod Best
