-- ===== src/Orchestrator.antt =====
-- agent_core/orchestrator.py: the check of a task against the registry before the runner gets it.
pub mod Report
pub mod Guard
mod Tests
