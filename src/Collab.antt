-- ===== src/Collab.antt =====
-- src/collab.rs: the events that start, nudge and pass on a task shared by several agents.
pub mod Events
pub mod Agents
