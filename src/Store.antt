-- ===== src/Store.antt =====
-- src/store.rs: the SQLite store of events.
pub mod Tables
pub mod Events
pub mod Insertion
pub mod Lookup
pub mod Latest
