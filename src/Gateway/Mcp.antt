-- ===== src/Gateway/Mcp.antt =====
-- src/gateway.rs: the service as tools of the Model Context Protocol. `serde_json::to_value` does not
-- fail at the records of the service: their keys are texts.
use shuttle_rs.Prelude.{
  String, Option, none, some, List, [], ◌∷◌, ◌++◌, Bool, false, not, str_eq, trim, if◌then◌else◌,
  ◌&◌, and_then, unwrap_or, map, is_text,
}
use shuttle_rs.Crates.{Crates}
use shuttle_rs.Core.{Result, ok, err, store, error_text, ok_or, ◌>>=◌}
use shuttle_rs.Gateway.Registry.{
  ProjectBackendKind, ProjectConfig, Project, RepoPath, GatewayService, list_projects,
  current_project, use_project, debug,
}
use shuttle_rs.Gateway.Persist.{Toml, ConfigFile, add_project}
use shuttle_rs.Gateway.Service.{
  ServiceResponse, Runner, context, recall, remember, task_list, task_create, task_update,
  task_done,
}

-- What a request may change: the registry and the current project, the configuration file, and the
-- backends.
pub record World (B : Type 0) : Type 0 where
  pub service : GatewayService
  pub file : Option ConfigFile
  pub backends : B

module _ (c : Crates) where
  open c use {
    Value, null, text, bool, object, array, get, as_str, as_bool, number, negative, to_string,
  }

  unfoldable pub str_arg : Value → String → Result String
  str_arg args key =
      ok_or
        (and_then (and_then (get args key) as_str)
          (λ value. if str_eq value "" then none else some value))
        (store (key & " is required"))

  unfoldable pub optional_str_arg : Value → String → String
  optional_str_arg args key = unwrap_or (and_then (get args key) as_str) ""

  unfoldable pub optional_string_arg : Value → String → Option String
  unfolding trim
  optional_string_arg args key =
      and_then (and_then (get args key) as_str)
        (λ value. if str_eq (trim value) "" then none else some (trim value))

  unfoldable pub optional_bool_arg : Value → String → Bool
  optional_bool_arg args key = unwrap_or (and_then (get args key) as_bool) false

  -- `PathBuf::from`; whether a text is an absolute path is an argument.
  unfoldable pub optional_path_arg : (String → Bool) → Value → String → Option RepoPath
  unfolding optional_string_arg
  optional_path_arg is_absolute args key =
      and_then (optional_string_arg args key)
        (λ path. some (record { text = path; is_absolute = is_absolute path }))

  unfoldable pub project_backend_arg : Value → String → Result ProjectBackendKind
  unfolding optional_str_arg
  project_backend_arg args key =
      let given = optional_str_arg args key in
      if str_eq given ""
      then ok ProjectBackendKind.local
      else if str_eq given "local"
      then ok ProjectBackendKind.local
      else if str_eq given "http"
      then ok ProjectBackendKind.http
      else err (store (key & " must be one of: local, http; got " & debug given))

  unfoldable pub project_add_args : (String → Bool) → Value → Result (String × ProjectConfig × Bool)
  unfolding str_arg project_backend_arg optional_path_arg optional_string_arg optional_bool_arg
  project_add_args is_absolute args = do
    name ← str_arg args "name"
    backend ← project_backend_arg args "backend"
    ok (
      name,
      record {
        backend = backend;
        repo = optional_path_arg is_absolute args "repo";
        db = optional_path_arg is_absolute args "db";
        url = unwrap_or (optional_string_arg args "url") "";
        token_env = optional_string_arg args "token_env";
        description = optional_string_arg args "description";
      },
      optional_bool_arg args "make_current",
    )

  -- `Serialize for Project`: an option that is none, and an empty url, have no key.
  abbrev text_field : String → Option String → List (String × Value)
  text_field key none = []
  text_field key (some value) = (key, text value) ∷ []

  abbrev path_field : String → Option RepoPath → List (String × Value)
  path_field key none = []
  path_field key (some path) = (key, text path.text) ∷ []

  abbrev pub project_value : Project → Value
  project_value project = object (
      ("name", text project.name)
        ∷ (
          "backend",
          text (elim project.backend [
            | ProjectBackendKind.local ↦ "local"
            | ProjectBackendKind.http ↦ "http"
          ]),
        )
        ∷ path_field "repo" project.repo
      ++ path_field "db" project.db
      ++ (if str_eq project.url "" then [] else ("url", text project.url) ∷ [])
      ++ text_field "description" project.description)

  abbrev stored_field : Option Bool → List (String × Value)
  stored_field none = []
  stored_field (some stored) = ("stored", bool stored) ∷ []

  -- `Serialize for ServiceResponse`
  unfoldable pub to_value : ServiceResponse Value → Value
  to_value response = object (
      ("project", text response.project)
      ∷ ("result", response.result)
      ∷ stored_field response.stored)

  unfoldable pub rpc_ok : Value → Value → Value
  rpc_ok id result = object (("jsonrpc", text "2.0") ∷ ("id", id) ∷ ("result", result) ∷ [])

  -- Every code is negative.
  unfoldable pub rpc_error : Value → Value → String → Value
  rpc_error id code message = object (
      ("jsonrpc", text "2.0")
      ∷ ("id", id)
      ∷ ("error", object (("code", code) ∷ ("message", text message) ∷ []))
      ∷ [])

  module _ {B : Type 0} (t : Toml) (is_absolute : String → Bool) (runner : Runner B Value) where
    abbrev pub Tool : Type 0
    Tool = World B → Result Value × World B

    -- `?` on a check that reads no state
    abbrev pub after_check : {A : Type 0} → Result A → (A → Tool) → Tool
    after_check (err failure) rest world = (err failure, world)
    after_check (ok value) rest world = rest value world

    -- A call of the service, whose answer is made a value.
    abbrev answer : World B → Result (ServiceResponse Value) × B → Result Value × World B
    answer world (err failure, b) = (err failure, record world { backends = b })
    answer world (ok response, b) = (ok (to_value response), record world { backends = b })

    abbrev pub call : (GatewayService → B → Result (ServiceResponse Value) × B) → Tool
    call operation world = answer world (operation world.service world.backends)

    abbrev use_named : String → Tool
    use_named name world = elim (use_project name world.service) [
      | err failure ↦ (err failure, world)
      | ok (project, after) ↦ (ok (project_value project), record world { service = after })
    ]

    abbrev add_given : String × ProjectConfig × Bool → Tool
    add_given (name, config, make_current) world =
        elim (add_project t world.file name config make_current world.service) [
          | err failure ↦ (err failure, world)
          | ok (project, after, file) ↦
              (ok (project_value project), record world { service = after; file = file })
        ]

    abbrev show_current : Tool
    show_current world = elim (current_project world.service) [
      | err failure ↦ (err failure, world)
      | ok project ↦ (ok (project_value project), world)
    ]

    -- The `match` on the name of a tool.
    unfoldable pub call_named : String → Value → Tool
    unfolding str_arg optional_str_arg project_add_args list_projects current_project use_project
        add_project context recall remember task_list task_create task_update task_done to_value
    call_named name args =
        let project = optional_str_arg args "project" in
        if str_eq name "shuttle_projects"
        then (λ world.
            let listed = map project_value (list_projects world.service.projects) in
            (ok (object (("projects", array listed) ∷ [])), world))
        else if str_eq name "shuttle_project_add"
        then after_check (project_add_args is_absolute args) add_given
        else if str_eq name "shuttle_current_project"
        then show_current
        else if str_eq name "shuttle_use_project"
        then after_check (str_arg args "project") use_named
        else if str_eq name "shuttle_context"
        then call (λ service. context runner service project)
        else if str_eq name "shuttle_recall"
        then after_check (str_arg args "query")
            (λ query. call (λ service. recall runner service project query))
        else if str_eq name "shuttle_remember"
        then after_check (str_arg args "project") (λ named.
          after_check (str_arg args "text") (λ content.
            call (λ service. remember runner service named (optional_str_arg args "kind") content)))
        else if str_eq name "shuttle_task_list"
        then call (λ service. task_list runner service project)
        else if str_eq name "shuttle_task_create"
        then after_check (str_arg args "project") (λ named.
          after_check (str_arg args "title") (λ title.
            call
              (λ service. task_create runner service named title (optional_str_arg args "body"))))
        else if str_eq name "shuttle_task_update"
        then after_check (str_arg args "project") (λ named.
          after_check (str_arg args "task_id") (λ id.
            after_check (str_arg args "text")
              (λ content. call (λ service. task_update runner service named id content))))
        else if str_eq name "shuttle_task_done"
        then after_check (str_arg args "project") (λ named.
          after_check (str_arg args "task_id")
            (λ id. call (λ service. task_done runner service named id)))
        else (λ world. (err (store ("unknown tool: " & name)), world))

    unfoldable pub mcp_call_tool : Value → Tool
    unfolding call_named
    mcp_call_tool params =
        let args = unwrap_or (get params "arguments") (object []) in
        after_check (ok_or (and_then (get params "name") as_str) (store "missing tool name"))
          (λ name. call_named name args)

    abbrev tool_result : Value → Result Value × World B → Value × World B
    tool_result id (ok value, world) = (
      rpc_ok id (
          object (
            (
              "content",
              array (object (("type", text "text") ∷ ("text", text (to_string value)) ∷ []) ∷ []),
            )
            ∷ ("structuredContent", value)
            ∷ [])),
      world,
    )
    tool_result id (err failure, world) =
        (rpc_error id (negative 32603) (error_text failure), world)

    -- The descriptions of the tools, and the version of the program, are arguments.
    module _ (gateway_tools : List Value) (version : String) where
      unfoldable pub handle_mcp :
          Option String → Option Value → String → Value → World B → Value × World B
      unfolding mcp_call_tool rpc_ok rpc_error error_text
      handle_mcp jsonrpc request_id method params world =
          let id = unwrap_or request_id null in
          let called = tool_result id (mcp_call_tool params world) in
          if not (is_text jsonrpc "2.0")
          then (rpc_error id (negative 32600) "invalid jsonrpc version", world)
          else if str_eq method "initialize"
          then (
            rpc_ok id (
                object (
                  ("protocolVersion", text "2025-11-25")
                  ∷ ("capabilities", object (("tools", object []) ∷ []))
                  ∷ (
                    "serverInfo",
                    object (("name", text "shuttle-gateway") ∷ ("version", text version) ∷ []),
                  )
                  ∷ [])),
            world,
          )
          else if str_eq method "notifications/initialized"
          then (object (("jsonrpc", text "2.0") ∷ []), world)
          else if str_eq method "tools/list"
          then (rpc_ok id (object (("tools", array gateway_tools) ∷ [])), world)
          else if str_eq method "tools/call"
          then called
          else (rpc_error id (negative 32601) "method not found", world)
