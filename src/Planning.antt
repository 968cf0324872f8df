-- ===== src/Planning.antt =====
-- agent_core/queue_planner.py: which rows of a queue a host may claim.
pub mod Queue
pub mod Claims
pub mod Order
mod Tests
