-- ===== src/Tests/ServerTests.antt =====
-- The theorems on the server of src/gateway.rs at a gateway with one project, and runs of its
-- functions.
use native.Mathlib.Decide.{dec_lt}
use shuttle_rs.Prelude.{
  ℕ, String, ◌≡◌, refl, Option, none, some, List, [], ◌∷◌, false, true, ◌⊎◌, ◌↔◌, inr, is_blank,
  contains, codes, all, str_eq, if◌then◌else◌,
}
use shuttle_rs.Prelude.Decimals.{decimal}
use shuttle_rs.Prelude.Bytes.{as_bytes}
use shuttle_rs.Core.{Result, ok, ◌>>=◌, ◌>>◌}
use shuttle_rs.OAuth.Requests.{OAuthConfig, AuthorizeForm}
use shuttle_rs.OAuth.Tokens.{empty_db}
use shuttle_rs.OAuth.Redirect.{query_component}
use shuttle_rs.OAuth.Encoding.{decode, is_safe, decode-query_component}
use shuttle_rs.Gateway.Registry.{
  ProjectBackendKind, ProjectConfig, Project, ProjectRegistry, GatewayService, names, resolve,
  validate_project_config, lookup, from_configs,
}
use shuttle_rs.Gateway.Names.{
  normalize_project_name, candidate, unique_project_name, search_suffix, FirstFree,
  unique_project_name_lem,
}
use shuttle_rs.Gateway.Persist.{Toml, add_project, choose_name}
use shuttle_rs.Gateway.Adding.{added, add_project_lem}
use shuttle_rs.Gateway.Auth.{ListenerAuthKind, GatewayAuth}
use shuttle_rs.Gateway.Config.{
  GatewayConfig, GatewayListener, ListenerConfig, default_addr, default_gateway_token_env,
  default_oauth_admin_token_env,
}
use shuttle_rs.Api.{api_error}
use shuttle_rs.Gateway.Responses.{Response, json_response}
use shuttle_rs.Gateway.Authorize.{
  constant_time_eq, set_token, is_expected, check_header, authorize_by, authorize,
  is_oauth_public_route,
}
use shuttle_rs.Gateway.Authorized.{constant_time_eq_iff, Passes, authorize_iff}
use shuttle_rs.Gateway.Service.{memory_command}
use shuttle_rs.Gateway.Mcp.{World}
use shuttle_rs.Gateway.Http.{GatewayRuntime, refusal, api_remember}
use shuttle_rs.Gateway.Handlers.{
  Request, handler, refused_by, refused_unchanged, api_remember-refused,
}
use shuttle_rs.Gateway.Consent.{Submitted, oauth_authorize_submit_lem}
use shuttle_rs.Gateway.Pages.{oauth_authorize_submit}
use shuttle_rs.Tests.Sample.{Json, crates}
use shuttle_rs.Tests.OAuthTests

unique_project_name_lem_example :
    (name : String) × (unique_project_name "docs" ("docs" ∷ "docs-2" ∷ []) ≡ some name)
    × (contains ("docs" ∷ "docs-2" ∷ []) name ≡ false)
    × ((name ≡ "docs")
        ⊎ ((contains ("docs" ∷ "docs-2" ∷ []) "docs" ≡ true)
            × FirstFree "docs" ("docs" ∷ "docs-2" ∷ []) 2 3 name))
unique_project_name_lem_example = unique_project_name_lem "docs" ("docs" ∷ "docs-2" ∷ [])

third_docs : unique_project_name "docs" ("docs" ∷ "docs-2" ∷ []) ≡ some "docs-3"
unfolding unique_project_name search_suffix candidate decimal
third_docs = refl

two_digits : decimal 1207 ≡ "1207"
unfolding decimal
two_digits = refl

constant_time_eq_iff_example :
    (constant_time_eq (as_bytes "token") (as_bytes "taken") ≡ true)
    ↔ (as_bytes "token" ≡ as_bytes "taken")
constant_time_eq_iff_example = constant_time_eq_iff (as_bytes "token") (as_bytes "taken")

decode-query_component_example :
    (decode (query_component "a=b&é") ≡ as_bytes "a=b&é")
    × (all is_safe (codes (query_component "a=b&é")) ≡ true)
decode-query_component_example = decode-query_component "a=b&é"

encoded_state :
    query_component "opaque=value+with/special&fragment#part"
    ≡ "opaque%3Dvalue%2Bwith%2Fspecial%26fragment%23part"
unfolding query_component as_bytes dec_lt
encoded_state = refl

-- A service with one project, and no file.
abbrev docs_config : ProjectConfig
docs_config = record {
  backend = ProjectBackendKind.http;
  repo = none;
  db = none;
  url = "https://docs.example/";
  token_env = none;
  description = none;
}

abbrev docs : Project
docs = record {
  name = "docs";
  backend = ProjectBackendKind.http;
  repo = none;
  db = none;
  url = "https://docs.example";
  token_env = none;
  description = none;
}

abbrev service : GatewayService
service = record {
  projects = record { default_project = "docs"; projects = ("docs", docs) ∷ [] };
  current = "";
}

-- Every text is a document without projects.
abbrev toml : Toml
toml = record {
  Document = String;
  parse = λ raw. some raw;
  parse_error = λ raw. "";
  project_names = λ document. [];
  set_project = λ name item document. some document;
  to_string = λ document. document;
}

add_project_lem_example : add_project toml none " docs " docs_config true service ≡ (
    normalize_project_name " docs " >>= λ base.
    validate_project_config base docs_config
    >> (choose_name toml none base docs_config (names service.projects) >>= λ chosen.
        ok (added docs_config true service chosen)))
add_project_lem_example = add_project_lem toml none docs_config true service " docs "

-- A listener that is open on this machine only.
abbrev local_listener : ListenerConfig
local_listener = record {
  name = "local";
  addr = default_addr;
  auth = ListenerAuthKind.none;
  public_url = "";
  oauth_db_path = none;
  oauth_admin_token_env = "";
  allow_dynamic_registration = false;
  bearer_token_env = "";
}

-- A listener that publishes its address over OAuth.
abbrev public_listener : ListenerConfig
public_listener = record {
  name = "public";
  addr = default_addr;
  auth = ListenerAuthKind.oauth;
  public_url = "https://stl.example";
  oauth_db_path = some (record { text = "/var/oauth.db"; is_absolute = true });
  oauth_admin_token_env = "ADMIN";
  allow_dynamic_registration = false;
  bearer_token_env = "";
}

abbrev config : GatewayConfig
config = record {
  server = record { addr = default_addr };
  auth = record { bearer_token_env = default_gateway_token_env };
  oauth = record {
    public_url = "";
    db_path = none;
    admin_token_env = default_oauth_admin_token_env;
    allow_dynamic_registration = false;
  };
  defaults = record { project = "docs" };
  listeners = local_listener ∷ public_listener ∷ [];
  projects = ("docs", docs_config) ∷ [];
}

abbrev administered : String → Option String
administered name = if str_eq name "ADMIN" then some "letmein" else none

abbrev opened : {A : Type 0} → A → Result (Unit {0})
opened path = ok tt

abbrev registry : ProjectRegistry
registry = record { default_project = "docs"; projects = from_configs config.projects }

abbrev listening : List (GatewayListener (Unit {0}))
listening =
    record { name = "local"; addr = default_addr; auth = GatewayAuth.none }
    ∷ record {
      name = "public";
      addr = default_addr;
      auth = GatewayAuth.oauth (record {
        config = record {
          public_url = "https://stl.example";
          admin_token = some "letmein";
          allow_dynamic_registration = false;
        };
        store = tt;
      });
    }
    ∷ []

-- A gateway that asks for the token `s3cret`, whose backends are the list of the commands they ran.
abbrev secret : String → Option String
secret name = some "s3cret"

abbrev gateway : GatewayRuntime (List (List String))
gateway = record {
  crates = crates;
  oauth_crates = OAuthTests.crates;
  is_header_value = λ value. true;
  env = secret;
  toml = toml;
  is_absolute = λ path. true;
  runner = λ project args ran. (inr Json.null, args ∷ ran);
  gateway_tools = [];
  version = "0.1.0";
  auth = GatewayAuth.bearer "TOKEN";
}

abbrev world : World (List (List String))
world = record { service = service; file = none; backends = [] }

abbrev at : ℕ → ℕ
at n = 0

abbrev refused : Response Json
refused = json_response crates 401 (api_error crates "unauthorized" "authentication required" true)

authorize_iff_example :
    ((authorize crates OAuthTests.crates
        (λ value. true)
        secret
        at
        (GatewayAuth.bearer "TOKEN")
        (some "Bearer s3cret")
        "/api/tasks"
        false
        empty_db).0
      ≡ none)
    ↔ Passes crates OAuthTests.crates
        (λ value. true)
        secret
        at
        (some "Bearer s3cret")
        (GatewayAuth.bearer "TOKEN")
        empty_db
unfolding is_oauth_public_route
authorize_iff_example =
    authorize_iff crates OAuthTests.crates (λ value. true) secret at (some "Bearer s3cret")
      (GatewayAuth.bearer "TOKEN") "/api/tasks" false empty_db refl

refused_unchanged_example :
    handler gateway at (Request.choose "docs") none (world, empty_db)
    ≡ (refused, (world, (refused_by gateway at (Request.choose "docs") none empty_db).1))
unfolding refusal authorize authorize_by check_header is_expected is_oauth_public_route set_token
refused_unchanged_example =
    refused_unchanged gateway at (Request.choose "docs") none world empty_db {response = refused}
      refl

api_remember-refused_example :
    api_remember gateway at none "docs" "fact" "it rains" (world, empty_db) ≡ (
      refused,
      (
        record world { backends = ("fact" ∷ "it rains" ∷ []) ∷ [] },
        (refusal gateway at none "/api/remember" false empty_db).1,
      ),
    )
unfolding refusal authorize authorize_by check_header is_expected is_oauth_public_route set_token
    is_blank memory_command resolve lookup
api_remember-refused_example =
    api_remember-refused gateway at none "docs" "fact" "it rains" world empty_db
      {response = refused} {command = "fact"} {found = docs} refl refl refl refl

abbrev oauth_config : OAuthConfig
oauth_config = record {
  public_url = "https://gateway.example";
  admin_token = some "admin";
  allow_dynamic_registration = true;
}

abbrev form : AuthorizeForm
form = record {
  admin_token = "guess";
  response_type = "code";
  client_id = "stl_x";
  redirect_uri = "https://app.example/cb";
  state = none;
  scope = none;
  code_challenge = some "verifier";
  code_challenge_method = some "S256";
}

oauth_authorize_submit_lem_example : Submitted crates OAuthTests.crates at 7 form empty_db "admin" (
    oauth_authorize_submit crates OAuthTests.crates at 7
      (GatewayAuth.oauth (record { config = oauth_config; store = tt }))
      form
      empty_db)
oauth_authorize_submit_lem_example =
    oauth_authorize_submit_lem crates OAuthTests.crates at 7
      (record { config = oauth_config; store = tt }) form empty_db "admin" refl
