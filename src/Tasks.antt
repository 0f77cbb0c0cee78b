-- ===== src/Tasks.antt =====
-- src/worker/tasks: results, tasks, their stored form, and the task manager.
pub mod Result
pub mod Task
pub mod Json
pub mod RoundTrip
pub mod Level
pub mod Manager
pub mod Stored
pub mod Lifecycle
mod Tests
