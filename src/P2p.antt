-- ===== src/P2p.antt =====
-- The messages between workers: src/policy/p2p_messages/messages.js, src/policy/policy.js and
-- src/worker/handlers/ProtocolHandler.js.
pub mod Messages
pub mod Handler
pub mod Node
mod Tests
