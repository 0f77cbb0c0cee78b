-- ===== src/Actions.antt =====
-- src/worker/controller/actions: the actions of the controller on tasks.
pub mod StoreResult
pub mod Guarded
pub mod Failure
mod FlowTests
pub mod Init
pub mod Account
mod Tests
pub mod Commit
pub mod Publish
pub mod Settled
pub mod Announced
pub mod Rejected
pub mod Execute
pub mod ReplyId
pub mod Flow
