-- ===== src/Events.antt =====
-- backend/src/events: the bus that carries the events of a cycle.
pub mod Bus
pub mod Delivery
