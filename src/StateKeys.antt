-- ===== src/StateKeys.antt =====
-- The keys of the contracts' states, which Core asks of the principal node ("PTT"): worker/handlers/
-- PrincipalNode.js, policy/p2p_messages/principal_messages.js, and the actions around them.
pub mod Principal
pub mod Attempts
pub mod System
pub mod Invariant
pub mod Stored
pub mod Waiting
mod Tests
