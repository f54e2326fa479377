-- ===== src/Core.antt =====
-- include/core: the data model, the portfolio, the subscription and the queues.
pub mod Types
pub mod ViewablePool
pub mod Portfolio
pub mod Subscription
pub mod SpmcQueue
pub mod SpscQueue
pub mod SlotRing
