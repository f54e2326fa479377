-- ===== src/Risk.antt =====
-- include/risk: the gate between intents and orders.
pub mod Gate
pub mod Basic
