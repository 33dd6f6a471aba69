-- ===== src/Governance.antt =====
-- backend/src/governance: candidates, their evaluation and their promotion.
pub mod Evaluator
pub mod Candidates
pub mod Champions
pub mod Promotion
pub mod Rules
pub mod Acceptance
pub mod LiveGate
pub mod GoingLive
