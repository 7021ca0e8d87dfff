-- ===== src/Gateway.antt =====
-- src/gateway.rs: the projects of a gateway and the choice of one for a request.
pub mod Registry
pub mod Selection
pub mod Names
pub mod Persist
pub mod Adding
pub mod Auth
pub mod Config
pub mod Listeners
pub mod Loaded
pub mod Responses
pub mod Authorize
pub mod Authorized
pub mod Service
pub mod Mcp
pub mod Http
pub mod Handlers
pub mod Pages
pub mod Consent
