-- ===== src/Execution.antt =====
-- backend/src/execution: simulated orders, fills, positions and exits.
pub mod Simulator
pub mod Pricing
pub mod Gate
pub mod Positions
pub mod Pending
pub mod Exits
pub mod Orders
pub mod Simulated
pub mod Frame
pub mod Liquidation
pub mod Timeout
pub mod Quiet
pub mod LongOnly
pub mod Fills
pub mod Trades
pub mod Returning
