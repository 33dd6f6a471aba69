-- ===== src/Replay.antt =====
-- backend/src/replay: what is shown of the events of a cycle and of a decision made again.
pub mod Graph
pub mod Roots
pub mod Diff
