-- ===== src/Gateway/Handlers.antt =====
-- When the handlers of src/gateway.rs authenticate a request: before they change anything, or after.
use shuttle_rs.Prelude.{
  String, ◌≡◌, refl, ap, ◌∙◌, Option, some, none, [], ◌∷◌, Bool, true, false, ◌⊎◌, inl, inr,
  is_blank,
}
use shuttle_rs.Core.{ok}
use shuttle_rs.OAuth.Tables.{Db, Clock}
use shuttle_rs.Gateway.Registry.{Project, GatewayService, resolve}
use shuttle_rs.Gateway.Responses.{Response}
use shuttle_rs.Gateway.Service.{remember, run, memory_command, require_non_empty, Runner, settled}
use shuttle_rs.Gateway.Mcp.{World}
use shuttle_rs.Gateway.Http.{
  GatewayRuntime, RpcRequest, AddProjectRequest, Handler, refusal, unless_refused, guarded,
  service_response, api_projects, api_add_project, api_current_project, api_use_project,
  api_remember, mcp_post, mcp_health, mcp_delete,
}

module _ {B V : Type 0} (runner : Runner B V) where
  settled-state :
      (project : Project) (write : Bool) (outcome : (String ⊎ V) × B)
      → (settled runner project write outcome).1 ≡ outcome.1
  settled-state project write (inl error, b) = refl
  settled-state project write (inr value, b) = refl

  remember-state :
      (service : GatewayService) (project kind content : String) (b : B) {command : String}
      {found : Project}
      → is_blank content ≡ false
      → memory_command kind ≡ ok command
      → resolve project true service.projects ≡ ok found
      → (remember runner service project kind content b).1
        ≡ (runner found (command ∷ content ∷ []) b).1
  unfolding remember run require_non_empty
  remember-state service project kind content b {command} {found} full known there =
      rw (full, known, there) (settled-state found true (runner found (command ∷ content ∷ []) b))

module _ {B : Type 0} (g : GatewayRuntime B) (now : Clock) where
  open g use {crates}
  open crates use {Value}

  unless_refused-some :
      (outcome : Option (Response Value) × Db) (rest : World B → Response Value × World B)
      (world : World B) {response : Response Value}
      → outcome.0 ≡ some response
      → unless_refused g now outcome rest world ≡ (response, (world, outcome.1))
  unfolding unless_refused
  unless_refused-some (some other, after) rest world {response} e =
      let same : other ≡ response = cc e in ap (λ r. (r, (world, after))) same
  unless_refused-some (none, after) rest world e = cc e

  -- A refused request leaves the world as it is.
  guarded-refused :
      (headers : Option String) (path : String) (cors : _)
      (rest : World B → Response Value × World B) (world : World B) (db : Db)
      {response : Response Value}
      → (refusal g now headers path cors db).0 ≡ some response
      → guarded g now headers path cors rest (world, db)
        ≡ (response, (world, (refusal g now headers path cors db).1))
  unfolding guarded
  guarded-refused headers path cors rest world db {response} h =
      unless_refused-some (refusal g now headers path cors db) rest world h

  -- The requests for the tools, the projects and the current project.
  pub data Request : Type 0 where
    health delete list current : Request
    tools : RpcRequest Value → Request
    add : AddProjectRequest → Request
    choose : String → Request

  abbrev pub handler : Request → Option String → Handler g now
  handler Request.health headers = mcp_health g now headers
  handler Request.delete headers = mcp_delete g now headers
  handler Request.list headers = api_projects g now headers
  handler Request.current headers = api_current_project g now headers
  handler (Request.tools request) headers = mcp_post g now headers request
  handler (Request.add request) headers = api_add_project g now headers request
  handler (Request.choose project) headers = api_use_project g now headers project

  -- The path that a request is authenticated for, and whether its refusal is for other origins too.
  abbrev pub route : Request → String × Bool
  route Request.health = ("/mcp", true)
  route Request.delete = ("/mcp", true)
  route (Request.tools request) = ("/mcp", true)
  route Request.list = ("/api/projects", false)
  route (Request.add request) = ("/api/projects", false)
  route Request.current = ("/api/projects/current", false)
  route (Request.choose project) = ("/api/projects/use", false)

  abbrev pub refused_by : Request → Option String → Db → Option (Response Value) × Db
  refused_by request headers db = refusal g now headers (route request).0 (route request).1 db

  -- Where the authentication refuses a request for the tools or the projects, the answer is the
  -- refusal, and neither the registry, the current project, the configuration file nor the backends
  -- change.
  pub refused_unchanged :
      (request : Request) (headers : Option String) (world : World B) (db : Db)
      {response : Response Value}
      → (refused_by request headers db).0 ≡ some response
      → handler request headers (world, db) ≡ (response, (world, (refused_by request headers db).1))
  unfolding mcp_health mcp_delete mcp_post api_projects api_add_project api_current_project
      api_use_project
  refused_unchanged Request.health headers world db h =
      guarded-refused headers (route Request.health).0 (route Request.health).1 _ world db h
  refused_unchanged Request.delete headers world db h =
      guarded-refused headers (route Request.delete).0 (route Request.delete).1 _ world db h
  refused_unchanged Request.list headers world db h =
      guarded-refused headers (route Request.list).0 (route Request.list).1 _ world db h
  refused_unchanged Request.current headers world db h =
      guarded-refused headers (route Request.current).0 (route Request.current).1 _ world db h
  refused_unchanged (Request.tools request) headers world db h =
      guarded-refused headers (route (Request.tools request)).0 (route (Request.tools request)).1 _
        world db h
  refused_unchanged (Request.add request) headers world db h =
      guarded-refused headers (route (Request.add request)).0 (route (Request.add request)).1 _
        world db h
  refused_unchanged (Request.choose project) headers world db h =
      guarded-refused headers (route (Request.choose project)).0 (route (Request.choose project)).1
        _ world db h

  -- The service is asked to store a memory before the request is authenticated: where the
  -- authentication refuses the request, the runner has run the write on the project it names, and the
  -- answer is the refusal.
  pub api_remember-refused :
      (headers : Option String) (project kind content : String) (world : World B) (db : Db)
      {response : Response Value} {command : String} {found : Project}
      → (refusal g now headers "/api/remember" false db).0 ≡ some response
      → is_blank content ≡ false
      → memory_command kind ≡ ok command
      → resolve project true world.service.projects ≡ ok found
      → api_remember g now headers project kind content (world, db) ≡ (
        response,
        (
          record world { backends = (g.runner found (command ∷ content ∷ []) world.backends).1 },
          (refusal g now headers "/api/remember" false db).1,
        ),
      )
  unfolding api_remember service_response
  api_remember-refused headers project kind content world db {response} h full known there =
      guarded-refused headers "/api/remember" false _ _ db h
      ∙ ap
          (λ b. (
            response,
            (record world { backends = b }, (refusal g now headers "/api/remember" false db).1),
          ))
          (remember-state g.runner world.service project kind content world.backends full known
            there)
