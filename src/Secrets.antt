-- ===== src/Secrets.antt =====
-- agent_core/versioned_secret_store.py: the refresh-secret record, the store contract with its
-- in-memory reference, and the credential source that refreshes through a versioned store.
pub mod Record
pub mod Store
pub mod Memory
pub mod Durable
pub mod Source
pub mod Order
pub mod Steps
pub mod Evolution
pub mod History
mod Tests
