-- ===== src/Task.antt =====
-- src/task.rs: tasks and handoffs, projected from the event log.
pub mod Events
pub mod Project
pub mod Queries
pub mod Order
pub mod Summaries
pub mod Lifecycle
