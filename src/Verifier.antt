-- ===== src/Verifier.antt =====
-- src/ethereum/EthereumVerifier.js
pub mod Params
pub mod Window
pub mod Select
pub mod Fairness
pub mod Groups
pub mod Check
pub mod Verdicts
pub mod Listeners
pub mod Timeouts
pub mod Chain
pub mod Events
mod Tests
