-- ===== src/Tests.antt =====
-- Concrete data, and the theorems of the library at that data, in exact arithmetic.
pub mod Data
pub mod Orders
pub mod State
pub mod Engine
pub mod Execution
pub mod Governance
pub mod Platform
pub mod Runtime
pub mod Analysis
pub mod Scoring
