-- ===== src/State.antt =====
-- backend/src/state: the store of portfolio and risk state, and what is proved of it.
pub mod Transitions
pub mod Updates
pub mod Store
pub mod Versions
pub mod Positions
pub mod Cash
pub mod Equity
