-- ===== src/Secrets/Durable.antt =====
-- agent_core/durable_secret_store.py: the adapter from a durable backend to the protocol of the store.
pub mod Codec
pub mod Backend
pub mod Adapter
pub mod RoundTrip
pub mod Contract
mod Tests
