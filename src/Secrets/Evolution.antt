-- ===== src/Secrets/Evolution.antt =====
-- Every method of the credential source moves the durable record along the order of
-- `Secrets.Order`, whatever the store and the provider answer.
pub mod Swaps
pub mod Writes
pub mod Calls
pub mod Refresh
pub mod Operator
