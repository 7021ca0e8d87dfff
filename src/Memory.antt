-- ===== src/Memory.antt =====
-- src/memory.rs: memories as events, and their recall.
pub mod Recall
pub mod Results
