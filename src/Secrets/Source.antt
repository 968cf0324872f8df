-- ===== src/Secrets/Source.antt =====
-- `VersionedHostCredentialSource` of agent_core/versioned_secret_store.py, over any store with the
-- laws of `VersionedSecretStore` and any provider exchange. While the exchange runs, other hosts
-- may use the store: the exchange returns the store as it is afterwards.
pub mod Exchange
pub mod Methods
pub mod Refresh
pub mod Operator
