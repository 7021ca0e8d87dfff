-- ===== src/Gateway/Listeners.antt =====
-- What a gateway whose configuration src/gateway.rs accepts listens with.
use shuttle_rs.Prelude.{
  String, ◌≡◌, refl, Option, some, List, [], ◌∷◌, true, false, str_eq, is_empty, if◌then◌else◌,
}
use shuttle_rs.Core.{Result, ok}
use shuttle_rs.Gateway.Auth.{ListenerAuthKind, GatewayAuth}
use shuttle_rs.Gateway.Registry.{RepoPath, ProjectRegistry, new_registry}
use shuttle_rs.Gateway.Config.{
  ListenerConfig, GatewayConfig, GatewayListener, is_loopback_addr, legacy_listener_config,
  make_listeners, listeners_from_config,
}

module _ {S : Type 0} (env : String → Option String) (open_store : RepoPath → Result S) where
  -- What OAuth on a listener needs: a token of the administrator that is not empty in the variable
  -- that the listener names, and a database that opens.
  abbrev pub CanStart : ListenerConfig → ListenerAuthKind → Type 0
  CanStart l ListenerAuthKind.oauth =
      (token : String) × (path : RepoPath) × (opened : S) × (env l.oauth_admin_token_env
        ≡ some token)
      × (str_eq token "" ≡ false)
      × (l.oauth_db_path ≡ some path)
      × (open_store path ≡ ok opened)
  CanStart l ListenerAuthKind.bearer = Unit
  CanStart l ListenerAuthKind.none = Unit

  -- The authentication that a listener's configuration asks for.
  abbrev pub Follows : ListenerConfig → ListenerAuthKind → GatewayAuth S → Type 0
  Follows l ListenerAuthKind.oauth (GatewayAuth.oauth runtime) =
      (str_eq l.public_url "" ≡ false)
      × ((token : String) × (path : RepoPath) × (env l.oauth_admin_token_env ≡ some token)
          × (str_eq token "" ≡ false)
          × (l.oauth_db_path ≡ some path)
          × (open_store path ≡ ok runtime.store)
          × (runtime.config ≡ record {
            public_url = l.public_url;
            admin_token = some token;
            allow_dynamic_registration = l.allow_dynamic_registration;
          }))
  Follows l ListenerAuthKind.bearer (GatewayAuth.bearer token_env) = token_env ≡ l.bearer_token_env
  Follows l ListenerAuthKind.none GatewayAuth.none = is_loopback_addr l.addr ≡ true
  Follows l _ _ = ⊥

  -- One listener for each configuration, in order.
  abbrev pub Started : List ListenerConfig → List (GatewayListener S) → Type 0
  Started [] [] = Unit
  Started (l ∷ configs) (g ∷ listeners) =
      (g.name ≡ l.name) × (g.addr ≡ l.addr) × Follows l l.auth g.auth × Started configs listeners
  Started _ _ = ⊥

  module _ (loaded : GatewayConfig) {registry : ProjectRegistry}
      (made : new_registry loaded.defaults.project loaded.projects ≡ ok registry)
      {listeners : List (GatewayListener S)} where
    runs :
        make_listeners env open_store (
            if is_empty loaded.listeners
            then legacy_listener_config loaded ∷ []
            else loaded.listeners)
          ≡ ok listeners
        → listeners_from_config env open_store loaded ≡ ok (registry, listeners)
    unfolding listeners_from_config
    runs all = rw made (rw all refl)
