-- ===== src/Tasks.antt =====
-- agent_core/model.py, agent_core/store.py and agent_core/runner.py: tasks, their durable state, and the
-- sequential runner.
pub mod Model
pub mod Uses
pub mod Artifacts
pub mod Store
pub mod Runner
pub mod Reconciling
mod Tests
