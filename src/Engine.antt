-- ===== src/Engine.antt =====
-- backend/src/engine: the decision pipeline from the providers' signals to an approved signal.
pub mod Config
pub mod MarketFilter
pub mod Aggregator
pub mod RiskManager
pub mod SignalBuilder
pub mod DecisionEngine
pub mod Exits
pub mod Symmetry
pub mod Consensus
pub mod Verdict
pub mod Approval
pub mod Weights
