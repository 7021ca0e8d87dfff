-- ===== src/Gateway/Registry.antt =====
-- src/gateway.rs: the registry of projects. A `BTreeMap<String, _>` is a list of entries in the order
-- of their keys.
use shuttle_rs.Prelude.{
  String, Option, none, some, List, [], ◌∷◌, Bool, false, not, ◌&&◌, str_eq, is_blank, is_some,
  trim, ◌&◌, if◌then◌else◌, map,
}
use shuttle_rs.Prelude.Texts.{text_leb}
use shuttle_rs.Core.{Result, ok, err, store, reject_if, ok_or, ◌>>=◌, ◌>>◌}

-- `format!("{name:?}")`, for a name with nothing to escape
abbrev pub debug : String → String
debug name = "\"" & name & "\""

-- A path, and whether `is_absolute` holds of it.
pub record RepoPath : Type 0 where
  pub text : String
  pub is_absolute : Bool

pub data ProjectBackendKind : Type 0 where
  local http : ProjectBackendKind

pub record ProjectConfig : Type 0 where
  pub backend : ProjectBackendKind
  pub repo : Option RepoPath
  pub db : Option RepoPath
  pub url : String
  pub token_env : Option String
  pub description : Option String

pub record Project : Type 0 where
  pub name : String
  pub backend : ProjectBackendKind
  pub repo : Option RepoPath
  pub db : Option RepoPath
  pub url : String
  pub token_env : Option String
  pub description : Option String

abbrev pub Entries : Type 0 → Type 0
Entries V = List (String × V)

-- `BTreeMap::get` and `insert`
unfoldable pub lookup : {V : Type 0} → String → Entries V → Option V
lookup k [] = none
lookup k ((j, v) ∷ entries) = if str_eq j k then some v else lookup k entries

unfoldable pub put : {V : Type 0} → String → V → Entries V → Entries V
put k v [] = (k, v) ∷ []
put k v ((j, w) ∷ entries) =
    let rest = put k v entries in
    if str_eq j k
    then (k, v) ∷ entries
    else if text_leb k j
    then (k, v) ∷ (j, w) ∷ entries
    else (j, w) ∷ rest

pub record ProjectRegistry : Type 0 where
  pub default_project : String
  pub projects : Entries Project

-- `trim_end_matches('/')`
abbrev trim_slashes : String → String
trim_slashes String.[] = ""
trim_slashes (String.◌∷◌ c rest) =
    let end = trim_slashes rest in
    if str_eq (String.◌∷◌ c "") "/" && str_eq end "" then "" else String.◌∷◌ c end

unfoldable pub normalize_public_url : String → String
unfolding trim
normalize_public_url public_url = trim_slashes (trim public_url)

unfoldable pub project_from_config : String → ProjectConfig → Project
unfolding normalize_public_url
project_from_config name cfg = record {
  name = name;
  backend = cfg.backend;
  repo = cfg.repo;
  db = cfg.db;
  url = normalize_public_url cfg.url;
  token_env = cfg.token_env;
  description = cfg.description;
}

unfoldable pub validate_project_name : String → Result (Unit {0})
unfolding is_blank
validate_project_name name = reject_if (is_blank name) (store "project name cannot be empty")

-- Whether a path is given that is not absolute.
abbrev pub is_relative : Option RepoPath → Bool
is_relative none = false
is_relative (some path) = not path.is_absolute

-- The `match` on the backend.
unfoldable pub validate_backend : String → ProjectConfig → ProjectBackendKind → Result (Unit {0})
unfolding is_blank
validate_backend name project ProjectBackendKind.local = do
  repo ←
      ok_or project.repo (store ("project " & debug name & " repo is required for local backend"))
  reject_if (not repo.is_absolute)
      (store ("project " & debug name & " repo must be an absolute path"))
  reject_if (is_relative project.db)
      (store ("project " & debug name & " db must be an absolute path when set"))
  ok tt
validate_backend name project ProjectBackendKind.http =
    reject_if (is_blank project.url)
      (store ("project " & debug name & " url is required for http backend"))

unfoldable pub validate_project_config : String → ProjectConfig → Result (Unit {0})
unfolding validate_project_name validate_backend
validate_project_config name project =
    validate_project_name name >> validate_backend name project project.backend

-- The first loop of `new`.
unfoldable pub validate_configs : Entries ProjectConfig → Result (Unit {0})
unfolding validate_project_config
validate_configs [] = ok tt
validate_configs ((name, cfg) ∷ configs) =
    validate_project_config name cfg >> validate_configs configs

unfoldable pub from_configs : Entries ProjectConfig → Entries Project
unfolding project_from_config
from_configs = map (λ entry. (entry.0, project_from_config entry.0 entry.1))

unfoldable pub new_registry : String → Entries ProjectConfig → Result ProjectRegistry
unfolding validate_configs from_configs lookup
new_registry default_project configs = do
  validate_configs configs
  let projects = from_configs configs
  reject_if (not (str_eq default_project "") && not (is_some (lookup default_project projects)))
      (store ("default project " & debug default_project & " is not configured"))
  ok (record { default_project = default_project; projects = projects })

unfoldable pub list_projects : ProjectRegistry → List Project
list_projects registry = map (λ entry. entry.1) registry.projects

unfoldable pub names : ProjectRegistry → List String
names registry = map (λ entry. entry.0) registry.projects

unfoldable pub insert_named :
    String → ProjectConfig → ProjectRegistry → Result (Project × ProjectRegistry)
unfolding validate_project_config project_from_config lookup put
insert_named name config registry = do
  validate_project_config name config
  reject_if (is_some (lookup name registry.projects))
      (store ("project " & debug name & " is already configured"))
  let project = project_from_config name config
  ok (project, record registry { projects = put name project registry.projects })

unfoldable pub default_of : ProjectRegistry → Option Project
unfolding lookup
default_of registry =
    if not (str_eq registry.default_project "")
    then lookup registry.default_project registry.projects
    else none

unfoldable pub resolve : String → Bool → ProjectRegistry → Result Project
unfolding lookup default_of
resolve project write registry =
    if not (str_eq project "")
    then ok_or (lookup project registry.projects) (store ("unknown project " & debug project))
    else if write
    then err (store "project is required for write operations")
    else ok_or (default_of registry) (store "project is required")

-- The registry of a service and the name of its current project.
pub record GatewayService : Type 0 where
  pub projects : ProjectRegistry
  pub current : String

unfoldable pub use_project : String → GatewayService → Result (Project × GatewayService)
unfolding lookup
use_project name service = do
  project ← ok_or (lookup name service.projects.projects) (store ("unknown project " & debug name))
  ok (project, record service { current = name })

unfoldable pub current_project : GatewayService → Result Project
unfolding lookup default_of
current_project service =
    let fallback = ok_or (default_of service.projects) (store "no current or default project") in
    if not (str_eq service.current "")
    then elim (lookup service.current service.projects.projects) [
      | some project ↦ ok project
      | none ↦ fallback
    ]
    else fallback
