-- ===== src/Contracts.antt =====
-- The immutable models of backend/src/core/contracts: one child for each of its files.
pub mod State
pub mod Signal
pub mod Decision
pub mod Execution
pub mod Event
