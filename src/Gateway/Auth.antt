-- ===== src/Gateway/Auth.antt =====
-- src/gateway.rs and src/gateway/auth.rs: how a listener authenticates. `S` is the type of
-- `OAuthStore`.
use shuttle_rs.Prelude.{String}
use shuttle_rs.OAuth.Requests.{OAuthConfig}

pub data ListenerAuthKind : Type 0 where
  oauth bearer none : ListenerAuthKind

pub record OAuthRuntime (S : Type 0) : Type 0 where
  pub config : OAuthConfig
  pub store : S

pub data GatewayAuth (S : Type 0) : Type 0 where
  bearer : String → GatewayAuth S
  oauth : OAuthRuntime S → GatewayAuth S
  none : GatewayAuth S
