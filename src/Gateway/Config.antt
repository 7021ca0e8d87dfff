-- ===== src/Gateway/Config.antt =====
-- src/gateway.rs and src/gateway/auth.rs: the configuration of a gateway, its checks, and the
-- listeners that are made from it. What `toml::from_str` reads of the file is an argument.
use shuttle_rs.Prelude.{
  ℕ, String, Option, none, some, List, [], ◌∷◌, Bool, not, ◌&&◌, ◌==◌, str_eq, is_blank, is_some,
  is_empty, ◌&◌, if◌then◌else◌,
}
use shuttle_rs.Core.{Result, ok, err, store, ok_or, reject_if, ◌>>=◌, ◌>>◌}
use shuttle_rs.Gateway.Auth.{ListenerAuthKind, GatewayAuth}
use shuttle_rs.Gateway.Registry.{
  RepoPath, ProjectConfig, Entries, ProjectRegistry, lookup, debug, validate_configs,
  normalize_public_url, new_registry,
}

-- `IpAddr` and `SocketAddr`: the octets of an address of version 4, the number of one of version 6.
pub data IpAddr : Type 0 where
  v4 : ℕ → ℕ → ℕ → ℕ → IpAddr
  v6 : ℕ → IpAddr

pub record SocketAddr : Type 0 where
  pub ip : IpAddr
  pub port : ℕ

-- `Ipv4Addr::is_loopback` is 127.0.0.0/8, and `Ipv6Addr::is_loopback` is ::1.
unfoldable pub is_loopback_addr : SocketAddr → Bool
is_loopback_addr addr = elim addr.ip [ v4 a b c d ↦ a == 127 | v6 n ↦ n == 1 ]

pub record ListenerConfig : Type 0 where
  pub name : String
  pub addr : SocketAddr
  pub auth : ListenerAuthKind
  pub public_url : String
  pub oauth_db_path : Option RepoPath
  pub oauth_admin_token_env : String
  pub allow_dynamic_registration : Bool
  pub bearer_token_env : String

pub record ServerConfig : Type 0 where
  pub addr : SocketAddr

pub record AuthConfig : Type 0 where
  pub bearer_token_env : String

pub record OAuthGatewayConfig : Type 0 where
  pub public_url : String
  pub db_path : Option RepoPath
  pub admin_token_env : String
  pub allow_dynamic_registration : Bool

pub record DefaultsConfig : Type 0 where
  pub project : String

pub record GatewayConfig : Type 0 where
  pub server : ServerConfig
  pub auth : AuthConfig
  pub oauth : OAuthGatewayConfig
  pub defaults : DefaultsConfig
  pub listeners : List ListenerConfig
  pub projects : Entries ProjectConfig

-- `127.0.0.1:8787`
unfoldable pub default_addr : SocketAddr
default_addr = record { ip = v4 127 0 0 1; port = 8787 }

unfoldable pub default_gateway_token_env : String
default_gateway_token_env = "SHUTTLE_GATEWAY_TOKEN"

unfoldable pub default_oauth_admin_token_env : String
default_oauth_admin_token_env = "SHUTTLE_OAUTH_ADMIN_TOKEN"

-- `dir.join(name)`, for a name that is no path
unfoldable pub join : RepoPath → String → RepoPath
join dir name = record {
  text = if str_eq dir.text "/" then "/" & name else dir.text & "/" & name;
  is_absolute = dir.is_absolute;
}

-- The path of a database: an absolute one that is given, or one in the directory of the file.
unfoldable pub database_path : Option RepoPath → RepoPath → String → Result (Option RepoPath)
database_path none default_path error = ok (some default_path)
database_path (some path) default_path error =
    if not path.is_absolute then err (store error) else ok (some path)

-- The `match` on the kind of a listener.
unfoldable pub check_kind : RepoPath → ListenerConfig → ListenerAuthKind → Result ListenerConfig
unfolding database_path join is_loopback_addr
check_kind config_dir listener ListenerAuthKind.oauth = do
  reject_if (str_eq listener.public_url "")
      (store ("listener " & debug listener.name & " public_url is required for oauth auth"))
  path ←
      database_path listener.oauth_db_path
        (join config_dir ("gateway-" & listener.name & "-oauth.db"))
        ("listener " & debug listener.name & " oauth_db_path must be an absolute path when set")
  ok (record listener { oauth_db_path = path })
check_kind config_dir listener ListenerAuthKind.bearer = ok listener
check_kind config_dir listener ListenerAuthKind.none = do
  reject_if (not (is_loopback_addr listener.addr)) (
      store
        ("listener " & debug listener.name & " auth none is only allowed on loopback addresses"))
  ok listener

-- One round of the loop over the listeners.
unfoldable pub check_listener : RepoPath → ListenerConfig → Result ListenerConfig
unfolding normalize_public_url is_blank check_kind
check_listener config_dir given = do
  let listener = record given { public_url = normalize_public_url given.public_url }
  reject_if (is_blank listener.name) (store "listener name cannot be empty")
  check_kind config_dir listener listener.auth

unfoldable pub check_listeners : RepoPath → List ListenerConfig → Result (List ListenerConfig)
unfolding check_listener
check_listeners config_dir [] = ok []
check_listeners config_dir (listener ∷ listeners) = do
  first ← check_listener config_dir listener
  rest ← check_listeners config_dir listeners
  ok (first ∷ rest)

-- `oauth.db_path`, where an address is published.
unfoldable pub check_oauth : RepoPath → OAuthGatewayConfig → Result OAuthGatewayConfig
unfolding database_path join
check_oauth config_dir settings =
    if not (str_eq settings.public_url "")
    then (do
      path ←
          database_path settings.db_path (join config_dir "gateway-oauth.db")
            "oauth db_path must be an absolute path when set"
      ok (record settings { db_path = path }))
    else ok settings

-- `load`, from the configuration that the file holds and the directory that it lies in.
unfoldable pub load : RepoPath → GatewayConfig → Result GatewayConfig
unfolding normalize_public_url validate_configs lookup check_oauth check_listeners
load config_dir cfg = do
  let given = record cfg.oauth { public_url = normalize_public_url cfg.oauth.public_url }
  reject_if (is_empty cfg.projects) (store "at least one project is required")
  validate_configs cfg.projects
  reject_if
      (not (str_eq cfg.defaults.project "")
        && not (is_some (lookup cfg.defaults.project cfg.projects)))
      (store ("default project " & debug cfg.defaults.project & " is not configured"))
  settings ← check_oauth config_dir given
  listeners ← check_listeners config_dir cfg.listeners
  ok (record cfg { oauth = settings; listeners = listeners })

unfoldable pub legacy_listener_config : GatewayConfig → ListenerConfig
legacy_listener_config config =
    if str_eq config.oauth.public_url ""
    then record {
      name = "default";
      addr = config.server.addr;
      auth = ListenerAuthKind.bearer;
      public_url = "";
      oauth_db_path = none;
      oauth_admin_token_env = config.oauth.admin_token_env;
      allow_dynamic_registration = config.oauth.allow_dynamic_registration;
      bearer_token_env = config.auth.bearer_token_env;
    }
    else record {
      name = "default";
      addr = config.server.addr;
      auth = ListenerAuthKind.oauth;
      public_url = config.oauth.public_url;
      oauth_db_path = config.oauth.db_path;
      oauth_admin_token_env = config.oauth.admin_token_env;
      allow_dynamic_registration = config.oauth.allow_dynamic_registration;
      bearer_token_env = config.auth.bearer_token_env;
    }

pub record GatewayListener (S : Type 0) : Type 0 where
  pub name : String
  pub addr : SocketAddr
  pub auth : GatewayAuth S

-- `env::var` and `OAuthStore::open` are arguments.
module _ {S : Type 0} (env : String → Option String) (open_store : RepoPath → Result S) where
  -- The `match` on the kind of a listener.
  unfoldable pub auth_of_kind : ListenerConfig → ListenerAuthKind → Result (GatewayAuth S)
  auth_of_kind listener ListenerAuthKind.bearer = ok (GatewayAuth.bearer listener.bearer_token_env)
  auth_of_kind listener ListenerAuthKind.none = ok GatewayAuth.none
  auth_of_kind listener ListenerAuthKind.oauth = do
    let required = store (
        listener.oauth_admin_token_env
        & " is required when oauth listener "
        & debug listener.name
        & " is configured")
    admin_token ← ok_or (env listener.oauth_admin_token_env) required
    reject_if (str_eq admin_token "") required
    db_path ←
        ok_or listener.oauth_db_path
          (store ("oauth_db_path is required for listener " & debug listener.name))
    opened ← open_store db_path
    ok (
        GatewayAuth.oauth (record {
          config = record {
            public_url = listener.public_url;
            admin_token = some admin_token;
            allow_dynamic_registration = listener.allow_dynamic_registration;
          };
          store = opened;
        }))

  unfoldable pub auth_from_listener : ListenerConfig → Result (GatewayAuth S)
  unfolding auth_of_kind
  auth_from_listener listener = auth_of_kind listener listener.auth

  unfoldable pub make_listeners : List ListenerConfig → Result (List (GatewayListener S))
  unfolding auth_from_listener
  make_listeners [] = ok []
  make_listeners (listener ∷ listeners) = do
    auth ← auth_from_listener listener
    rest ← make_listeners listeners
    ok (record { name = listener.name; addr = listener.addr; auth = auth } ∷ rest)

  unfoldable pub listeners_from_config :
      GatewayConfig → Result (ProjectRegistry × List (GatewayListener S))
  unfolding legacy_listener_config new_registry make_listeners
  listeners_from_config config = do
    let configs =
        if is_empty config.listeners then legacy_listener_config config ∷ [] else config.listeners
    registry ← new_registry config.defaults.project config.projects
    listeners ← make_listeners configs
    ok (registry, listeners)
