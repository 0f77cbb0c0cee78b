-- ===== src/Runtime.antt =====
-- What the parts of a worker share at run time: src/common/StoppableTask.js.
pub mod Retry
pub mod RetryBound
mod Tests
