-- ===== src/Tests.antt =====
-- The witnesses of the theorems and tests of the definitions.
mod Sample
mod TaskTests
mod WorkflowTests
mod OAuthTests
mod StoreTests
mod RemoteTests
mod AgentTests
mod GatewayTests
mod ServerTests
mod McpTests
