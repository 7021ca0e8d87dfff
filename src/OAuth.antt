-- ===== src/OAuth.antt =====
-- src/oauth.rs: the authorization server of the MCP endpoint.
pub mod Tables
pub mod Requests
pub mod Flow
pub mod Operations
pub mod Chains
pub mod Codes
pub mod Tokens
pub mod Limits
pub mod Redirect
pub mod Encoding
