-- ===== src/Gateway/Http.antt =====
-- src/gateway.rs: the handlers of the routes for projects, memories, tasks and tools. The arguments of
-- a call are computed before it, as in Rust: `service_response` is given an answer of the service.
use shuttle_rs.Prelude.{
  String, Option, none, some, List, [], ◌∷◌, Bool, true, false, str_eq, if◌then◌else◌, map,
  includes,
}
use shuttle_rs.Crates.{Crates}
use shuttle_rs.Core.{Result, ok, err, error_text}
use shuttle_rs.OAuth.Tables.{OAuthCrates, Db, Clock}
use shuttle_rs.Gateway.Auth.{GatewayAuth}
use shuttle_rs.Gateway.Registry.{
  ProjectBackendKind, RepoPath, ProjectConfig, GatewayService, list_projects, current_project,
  use_project,
}
use shuttle_rs.Gateway.Persist.{Toml, add_project}
use shuttle_rs.Api.{api_error}
use shuttle_rs.Gateway.Responses.{Response, Body, json_response, error_response, with_cors}
use shuttle_rs.Gateway.Authorize.{Headers, authorize}
use shuttle_rs.Gateway.Service.{
  Runner, ServiceResponse, context, recall, remember, task_list, task_create, task_update,
  task_done,
}
use shuttle_rs.Gateway.Mcp.{World, project_value, to_value, handle_mcp}

pub record RpcRequest (V : Type 0) : Type 0 where
  pub jsonrpc : Option String
  pub id : Option V
  pub method : String
  pub params : V

pub record AddProjectRequest : Type 0 where
  pub name : String
  pub backend : ProjectBackendKind
  pub repo : Option RepoPath
  pub db : Option RepoPath
  pub url : String
  pub token_env : Option String
  pub description : Option String
  pub make_current : Bool

unfoldable pub into_parts : AddProjectRequest → String × ProjectConfig × Bool
into_parts request = (
  request.name,
  record {
    backend = request.backend;
    repo = request.repo;
    db = request.db;
    url = request.url;
    token_env = request.token_env;
    description = request.description;
  },
  request.make_current,
)

-- The crates and the surroundings of a gateway, and how its listener authenticates.
pub record GatewayRuntime (B : Type 0) : Type 1 where
  pub crates : Crates
  pub oauth_crates : OAuthCrates
  pub is_header_value : String → Bool
  pub env : String → Option String
  pub toml : Toml
  pub is_absolute : String → Bool
  pub runner : Runner B crates.Value
  pub gateway_tools : List crates.Value
  pub version : String
  pub auth : GatewayAuth (Unit {0})

module _ {B : Type 0} (g : GatewayRuntime B) (now : Clock) where
  open g use {crates}
  open crates use {Value, text, object, array}

  -- The world of the service, and the tables of the listener's OAuth store.
  abbrev pub State : Type 0
  State = World B × Db

  abbrev pub Handler : Type 0
  Handler = State → Response Value × State

  unfoldable pub refusal : Headers → String → Bool → Db → Option (Response Value) × Db
  unfolding authorize
  refusal headers path cors db =
      authorize crates g.oauth_crates g.is_header_value g.env now g.auth headers path cors db

  unfoldable pub unless_refused :
      Option (Response Value) × Db
      → (World B → Response Value × World B)
      → World B
      → Response Value × State
  unless_refused (some response, db) rest world = (response, (world, db))
  unless_refused (none, db) rest world = let done = rest world in (done.0, (done.1, db))

  -- `if let Err(response) = authorize(..) { return *response; }`
  unfoldable pub guarded : Headers → String → Bool → (World B → Response Value × World B) → Handler
  unfolding refusal unless_refused
  guarded headers path cors rest (world, db) =
      unless_refused (refusal headers path cors db) rest world

  unfoldable pub api_projects : Headers → Handler
  unfolding guarded list_projects
  api_projects headers = guarded headers "/api/projects" false (λ world.
      let projects = map (project_value crates) (list_projects world.service.projects) in
      (json_response crates 200 (object (("projects", array projects) ∷ [])), world))

  unfoldable pub api_add_project : Headers → AddProjectRequest → Handler
  unfolding guarded into_parts add_project error_response
  api_add_project headers request = guarded headers "/api/projects" false (λ world.
      let (name, config, make_current) = into_parts request in
      elim (add_project g.toml world.file name config make_current world.service) [
        | ok (project, service, file) ↦ (
          json_response crates 201 (project_value crates project),
          record world { service = service; file = file },
        )
        | err failure ↦ (error_response crates failure, world)
      ])

  unfoldable pub api_current_project : Headers → Handler
  unfolding guarded current_project api_error error_response error_text
  api_current_project headers = guarded headers "/api/projects/current" false (λ world.
      elim (current_project world.service) [
        | ok project ↦ (json_response crates 200 (project_value crates project), world)
        | err failure ↦ (
          if includes (error_text failure) "no current or default project"
              then json_response crates 404
                  (api_error crates "not_found" "no current project is configured" false)
              else error_response crates failure,
          world,
        )
      ])

  unfoldable pub api_use_project : Headers → String → Handler
  unfolding guarded use_project error_response
  api_use_project headers project = guarded headers "/api/projects/use" false (λ world.
      elim (use_project project world.service) [
        | ok (found, service) ↦ (
          json_response crates 200 (project_value crates found),
          record world { service = service },
        )
        | err failure ↦ (error_response crates failure, world)
      ])

  abbrev pub answered : Result (ServiceResponse Value) → Response Value
  answered (ok value) = json_response crates 200 (to_value crates value)
  answered (err failure) = error_response crates failure

  -- `service_response`, at an answer of the service.
  unfoldable pub service_response : Headers → String → Result (ServiceResponse Value) → Handler
  unfolding guarded to_value error_response
  service_response headers path response =
      guarded headers path false (λ world. (answered response, world))

  -- The handlers call the service, and `service_response` with its answer.
  abbrev pub served :
      Headers → String → (GatewayService → B → Result (ServiceResponse Value) × B) → Handler
  served headers path operation (world, db) =
      let (response, backends) = operation world.service world.backends in
      service_response headers path response (record world { backends = backends }, db)

  unfoldable pub api_recall : Headers → String → String → Handler
  unfolding service_response recall
  api_recall headers project query =
      served headers "/api/recall" (λ service. recall g.runner service project query)

  unfoldable pub api_remember : Headers → String → String → String → Handler
  unfolding service_response remember
  api_remember headers project kind content =
      served headers "/api/remember" (λ service. remember g.runner service project kind content)

  unfoldable pub api_context : Headers → String → Handler
  unfolding service_response context
  api_context headers project =
      served headers "/api/context" (λ service. context g.runner service project)

  unfoldable pub api_tasks : Headers → String → Handler
  unfolding service_response task_list
  api_tasks headers project =
      served headers "/api/tasks" (λ service. task_list g.runner service project)

  unfoldable pub api_create_task : Headers → String → String → String → Handler
  unfolding service_response task_create
  api_create_task headers project title body =
      served headers "/api/tasks" (λ service. task_create g.runner service project title body)

  unfoldable pub api_update_task : Headers → String → String → String → Handler
  unfolding service_response task_update
  api_update_task headers project id content =
      served headers "/api/tasks" (λ service. task_update g.runner service project id content)

  unfoldable pub api_done_task : Headers → String → String → Handler
  unfolding service_response task_done
  api_done_task headers project id =
      served headers "/api/tasks" (λ service. task_done g.runner service project id)

  unfoldable pub mcp_health : Headers → Handler
  unfolding guarded with_cors
  mcp_health headers = guarded headers "/mcp" true (λ world.
      (with_cors crates (json_response crates 200 (object (("status", text "ok") ∷ []))), world))

  unfoldable pub mcp_delete : Headers → Handler
  unfolding guarded with_cors
  mcp_delete headers = guarded headers "/mcp" true (λ world.
      (with_cors crates (record { status = 200; headers = []; body = Body.empty }), world))

  unfoldable pub mcp_options : Response Value
  unfolding with_cors
  mcp_options = with_cors crates (record { status = 204; headers = []; body = Body.empty })

  unfoldable pub mcp_post : Headers → RpcRequest Value → Handler
  unfolding guarded with_cors handle_mcp
  mcp_post headers request = guarded headers "/mcp" true (λ world.
      let (value, after) =
        handle_mcp crates g.toml g.is_absolute g.runner g.gateway_tools g.version request.jsonrpc
          request.id request.method request.params world in
      if str_eq request.method "notifications/initialized"
      then (with_cors crates (record { status = 204; headers = []; body = Body.empty }), world)
      else (with_cors crates (json_response crates 200 value), after))
