-- ===== src/Gateway/Persist.antt =====
-- src/gateway.rs: a project that is added, and the configuration file that keeps it.
use shuttle_rs.Prelude.{
  String, Option, none, some, List, [], ◌∷◌, ◌++◌, Bool, not, is_blank, trim, if◌then◌else◌,
}
use shuttle_rs.Core.{Result, ok, err, store, serialization, ok_or, ◌>>=◌, ◌>>◌}
use shuttle_rs.Gateway.Registry.{
  ProjectBackendKind, ProjectConfig, Project, GatewayService, RepoPath, names,
  validate_project_config, normalize_public_url, insert_named,
}
use shuttle_rs.Gateway.Names.{normalize_project_name, unique_project_name}

-- What the program takes of toml_edit: a document, and in it the table `projects`.
pub record Toml : Type 1 where
  pub Document : Type 0
  -- `raw.parse::<DocumentMut>()`, and the text of its error
  pub parse : String → Option Document
  pub parse_error : String → String
  -- the keys of `document["projects"]`, and none when there is no such table
  pub project_names : Document → List String
  -- `document.entry("projects").or_insert_with(..)[name] = item`; none when it is not a table
  pub set_project : String → List (String × String) → Document → Option Document
  pub to_string : Document → String

-- The configuration file: its text if it can be read, and the error that reading or replacing it
-- gives.
pub record ConfigFile : Type 0 where
  pub contents : Option String
  pub read_error : String
  pub write_error : Option String

-- The fields that are written are those that are set and not blank.
abbrev set_field : String → Option String → List (String × String)
set_field key none = []
set_field key (some text) = if not (is_blank text) then (key, trim text) ∷ [] else []

-- `path.display().to_string()`
abbrev set_path : String → Option RepoPath → List (String × String)
set_path key none = []
set_path key (some path) = (key, path.text) ∷ []

unfoldable pub project_config_item : ProjectConfig → List (String × String)
unfolding is_blank trim normalize_public_url
project_config_item config =
    (
      "backend",
      elim config.backend [ ProjectBackendKind.local ↦ "local" | ProjectBackendKind.http ↦ "http" ],
    )
      ∷ set_path "repo" config.repo
    ++ set_path "db" config.db
    ++ (if not (is_blank config.url) then ("url", normalize_public_url config.url) ∷ [] else [])
    ++ set_field "token_env" config.token_env
    ++ set_field "description" config.description

-- A temporary file takes the place of the old one, or the old one stays.
unfoldable pub write_config_atomically : ConfigFile → String → Result ConfigFile
write_config_atomically file contents = elim file.write_error [
  | some error ↦ err (store error)
  | none ↦ ok (record file { contents = some contents })
]

-- The search of `unique_project_name` never fails; the text of a failure is never used.
unfoldable pub free_name : String → List String → Result String
unfolding unique_project_name
free_name base_name existing_names =
    ok_or (unique_project_name base_name existing_names)
      (store "unbounded suffix search always returns")

module _ (t : Toml) where
  unfoldable pub persist_project_config :
      ConfigFile → String → ProjectConfig → List String → Result (String × ConfigFile)
  unfolding free_name project_config_item write_config_atomically
  persist_project_config file base_name config registry_names = do
    raw ← ok_or file.contents (store file.read_error)
    document ← ok_or (t.parse raw) (serialization (t.parse_error raw))
    name ← free_name base_name (registry_names ++ t.project_names document)
    changed ←
        ok_or (t.set_project name (project_config_item config) document)
          (store "projects must be a TOML table")
    after ← write_config_atomically file (t.to_string changed)
    ok (name, after)

  -- The name of the project, and the configuration file after it is chosen; a service has no file when
  -- it is made by `new`.
  unfoldable pub choose_name :
      Option ConfigFile → String → ProjectConfig → List String → Result (String × Option ConfigFile)
  unfolding persist_project_config free_name
  choose_name none base_name config taken = do name ← free_name base_name taken; ok (name, none)
  choose_name (some file) base_name config taken = do
    (name, after) ← persist_project_config file base_name config taken
    ok (name, some after)

  -- A lock is never poisoned: nothing panics while it is held.
  unfoldable pub add_project :
      Option ConfigFile
      → String
      → ProjectConfig
      → Bool
      → GatewayService
      → Result (Project × GatewayService × Option ConfigFile)
  unfolding normalize_project_name validate_project_config choose_name insert_named names
  add_project file name config make_current service = do
    base_name ← normalize_project_name name
    validate_project_config base_name config
    (unique, after) ← choose_name file base_name config (names service.projects)
    (project, registry) ← insert_named unique config service.projects
    let current = if make_current then project.name else service.current
    ok (project, record { projects = registry; current = current }, after)
