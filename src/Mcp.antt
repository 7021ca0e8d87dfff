-- ===== src/Mcp.antt =====
-- src/mcp.rs: the tools of the local server, over the event store.
pub mod Commands
pub mod Answers
pub mod Tools
pub mod Workflows
pub mod Requests
pub mod Growth
pub mod Growing
pub mod Attribution
pub mod Checks
pub mod Refinement
