-- ===== src/Execution.antt =====
-- include/execution: the gateway, and its simulation by a matcher.
pub mod Gateway
pub mod Matcher
pub mod Sim
pub mod HalfSpread
pub mod CostTable
mod Examples
