-- ===== src/Sync.antt =====
-- src/ethereum/StateSync.js and src/worker/state_sync: bringing the local state to that of the chain.
pub mod Compare
pub mod Plan
pub mod Surplus
pub mod Ranges
pub mod Covered
pub mod Accept
pub mod Received
pub mod Accepting
pub mod Code
pub mod Requests
pub mod Messages
pub mod Provide
pub mod Exchange
pub mod Receive
pub mod Providers
pub mod Pipeline
pub mod Running
pub mod Finding
pub mod Announce
mod Tests
