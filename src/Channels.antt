-- ===== src/Channels.antt =====
-- The channel between the worker and Core: Envelop.js and Communicator.js of src/main_controller/
-- channels, src/core/CoreRuntime.js with its actions, and src/core/ipc.js.
pub mod Envelop
pub mod Ipc
pub mod Runtime
mod Emit
mod Callbacks
pub mod Matching
pub mod Answering
mod Tests
