-- ===== src/Credentials.antt =====
-- agent_core/credential_provider.py and the data of agent_core/refresh_credentials.py: what the
-- credential boundary accepts of untrusted Python values, and the bindings and grants made of them.
mod Values
mod Capabilities
pub mod Names
mod Binding
pub mod Snapshot
pub mod Covering
pub mod Issuing
pub mod Refreshing
pub mod Renewing
pub mod Accepting
pub mod Settling
pub mod Ending
mod Tests
mod RenewalTests
pub use Values.{ℤ, pos, negsuc, Value, null, truth, int, text, opaque_object}
unfoldable pub use Values.{seconds}
unfoldable pub use Capabilities.*
unfoldable pub use Binding.*
