-- ===== src/Tools.antt =====
-- The registry of tools of agent_core/adapters.py, where hosted workers look up what an action may do.
pub mod Registry
pub mod Registered
pub mod Reading
mod Tests
