-- ===== src/Carry.antt =====
-- backend/src/carry: the delta-neutral pair of a long spot and a short perpetual position.
pub mod PositionManager
pub mod Closing
pub mod Products
