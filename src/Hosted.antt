-- ===== src/Hosted.antt =====
-- The clients of the hosted queue and ledger, agent_core/hosted_queue.py and agent_core/hosted_activity.py,
-- and the coordinator of agent_core/hosted_worker.py.
pub mod Forbidden
pub mod Clean
pub mod Model
pub mod Lease
pub mod Transport
pub mod Replies
pub mod Queue
pub mod Fenced
pub mod Promises
pub mod Saves
pub mod Changes
pub mod Events
pub mod Listing
pub mod Activity
pub mod Rising
pub mod Ledger
pub mod Worker
pub mod Found
pub mod Preflight
pub mod Releasing
pub mod Decision
mod Tests
mod WorkerTests
