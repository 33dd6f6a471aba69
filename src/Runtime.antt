-- ===== src/Runtime.antt =====
-- backend/src/runtime: the cycle of one bar, from its features to the execution of its decision.
pub mod State
pub mod Emission
pub mod Portfolio
pub mod Signals
pub mod Decide
pub mod Cycle
pub mod Counts
pub mod Steps
pub mod Trading
pub mod DailySignals
pub mod Returning
pub mod Causation
pub mod Traces
pub mod Published
