-- ===== src/Tasks/Runner.antt =====
-- `AgentRunner` of agent_core/runner.py. The actions are a parameter: each answers a call and may
-- change the world outside, of type `E`. Diagnostics never change the state and are left out. A
-- session holds the state in memory, the disk, the world outside, and the steps run and skipped.
pub mod Session
pub mod Attempts
pub mod Steps
pub mod Entry
pub mod Armed
pub mod Bounds
pub mod Flows
pub mod Checks
pub mod Recovery
pub mod Completion
pub mod Outcomes
