-- ===== src/Gateway/Selection.antt =====
-- What the registry of src/gateway.rs keeps, and which project a request gets.
use shuttle_rs.Prelude.{
  String, ◌≡◌, refl, sym, ap, subst, ◌∙◌, none, some, [], ◌∷◌, true, false, not, ◌&&◌, str_eq,
  str_eq_iff, is_blank, is_some, All, arith, if◌then◌else◌, if_cases, Bool-cases, inl, inr,
}
use shuttle_rs.Prelude.Texts.{text_leb}
use shuttle_rs.Core.{ok, >>=-eq-ok, reject_if-eq-ok, ok_or-eq-ok, reject_if, ok_or}
use shuttle_rs.Gateway.Registry.{
  ProjectConfig, Project, Entries, lookup, put, ProjectRegistry, validate_project_config,
  validate_project_name, validate_configs, from_configs, project_from_config, new_registry,
  insert_named, resolve, GatewayService, use_project, current_project,
}

-- An entry has a name that is not blank, and its project has that name.
abbrev pub IsNamed : String × Project → Type 0
IsNamed entry = (is_blank entry.0 ≡ false) × (entry.1.name ≡ entry.0)

pub lookup-put :
    {V : Type 0} (k j : String) (v : V) (entries : Entries V)
    → lookup j (put k v entries) ≡ (if str_eq k j then some v else lookup j entries)
unfolding lookup put
lookup-put k j v [] = refl
lookup-put k j v ((i, w) ∷ entries) =
    ground (arith, str_eq_iff k j, str_eq_iff i k, str_eq_iff i j, lookup-put k j v entries)

All-put :
    {V : Type 0} (P : String × V → Type 0) (k : String) (v : V) (entries : Entries V)
    → P (k, v)
    → All P entries
    → All P (put k v entries)
unfolding put
All-put P k v [] new h = (new, tt)
All-put P k v ((j, w) ∷ entries) new h =
    if_cases (All P) (str_eq j k) ((k, v) ∷ entries) _ (λ _. (new, h.1))
      (λ _.
        if_cases (All P) (text_leb k j) ((k, v) ∷ (j, w) ∷ entries) ((j, w) ∷ put k v entries)
          (λ _. (new, h)) (λ _. (h.0, All-put P k v entries new h.1)))

lookup-IsNamed :
    (k : String) (entries : Entries Project) {project : Project}
    → All IsNamed entries
    → lookup k entries ≡ some project
    → IsNamed (k, project)
unfolding lookup
lookup-IsNamed k [] h e = cc
lookup-IsNamed k ((j, w) ∷ entries) {project} h e =
    ground (arith, str_eq_iff j k, lookup-IsNamed k entries {project = project})

pub valid-name :
    (name : String) (config : ProjectConfig) {u : Unit {0}}
    → validate_project_config name config ≡ ok u
    → is_blank name ≡ false
unfolding validate_project_config validate_project_name
valid-name name config h =
    let (u, checked, rest) = >>=-eq-ok (validate_project_name name) _ h in
    reject_if-eq-ok (is_blank name) _ checked

from_configs-IsNamed :
    (configs : Entries ProjectConfig) {u : Unit {0}}
    → validate_configs configs ≡ ok u
    → All IsNamed (from_configs configs)
unfolding validate_configs from_configs project_from_config
from_configs-IsNamed [] h = tt
from_configs-IsNamed ((name, cfg) ∷ configs) h =
    let (u, checked, rest) = >>=-eq-ok (validate_project_config name cfg) _ h in
    ((valid-name name cfg checked, refl), from_configs-IsNamed configs rest)

-- The default project, if one is named, is configured.
abbrev pub HasDefault : ProjectRegistry → Type 0
HasDefault r =
    (not (str_eq r.default_project "") && not (is_some (lookup r.default_project r.projects)))
    ≡ false

-- A registry that is accepted has its named default, and each project under its own name, which is
-- not blank.
pub new_registry_lem :
    (default_project : String) (configs : Entries ProjectConfig) {registry : ProjectRegistry}
    → new_registry default_project configs ≡ ok registry
    → All IsNamed registry.projects × HasDefault registry
unfolding new_registry
new_registry_lem default_project configs {registry} h =
    let (u, checked, h1) = >>=-eq-ok (validate_configs configs) _ h in
    let (v, configured, h2) = >>=-eq-ok (reject_if _ _) _ h1 in
    let same : record { default_project = default_project; projects = from_configs configs }
        ≡ registry =
      cc h2 in
    subst (λ r. All IsNamed r.projects × HasDefault r) same
      (from_configs-IsNamed configs checked, reject_if-eq-ok _ _ configured)

-- A project is inserted under a name that was free; the lookups of every other name stay as they were,
-- and every project stays under its own name.
pub insert_named_lem :
    (name : String) (config : ProjectConfig) (registry : ProjectRegistry) {project : Project}
    {after : ProjectRegistry}
    → All IsNamed registry.projects
    → insert_named name config registry ≡ ok (project, after)
    → (lookup name registry.projects ≡ none)
      × ((other : String)
          → lookup other after.projects
            ≡ (if str_eq name other then some project else lookup other registry.projects))
      × (after.default_project ≡ registry.default_project)
      × All IsNamed after.projects
unfolding insert_named project_from_config
insert_named_lem name config registry {project} {after} named h =
    let (u, checked, h1) = >>=-eq-ok (validate_project_config name config) _ h in
    let (v, free, h2) = >>=-eq-ok (reject_if (is_some (lookup name registry.projects)) _) _ h1 in
    let new = project_from_config name config in
    let is_new : new ≡ project = cc h2 in
    let is_after : record registry { projects = put name new registry.projects } ≡ after = cc h2 in
    let none_there : is_some (lookup name registry.projects) ≡ false = reject_if-eq-ok _ _ free in
    (
      ground arith,
      λ other.
          subst
            (λ r.
              lookup other r.projects
              ≡ (if str_eq name other then some project else lookup other registry.projects))
            is_after
            (subst
              (λ p.
                lookup other (put name new registry.projects)
                ≡ (if str_eq name other then some p else lookup other registry.projects))
              is_new (lookup-put name other new registry.projects)),
      ap (λ r. r.default_project) (sym is_after),
      subst (λ r. All IsNamed r.projects) is_after
          (All-put IsNamed name new registry.projects (valid-name name config checked, refl) named),
    )

-- Of a registry whose projects stand under their own names, a write resolves only to the project that
-- it names, which is configured: the default is never written to.
pub resolve_write :
    (project : String) (registry : ProjectRegistry) {found : Project}
    → All IsNamed registry.projects
    → resolve project true registry ≡ ok found
    → (found.name ≡ project)
      × (is_blank project ≡ false)
      × (lookup project registry.projects ≡ some found)
unfolding resolve
resolve_write project registry {found} named h =
    let there : lookup project registry.projects ≡ some found = grind arith in
    let (blank, name) = lookup-IsNamed project registry.projects named there in (name, blank, there)

not_blank : (name : String) → is_blank name ≡ false → str_eq name "" ≡ false
unfolding is_blank
not_blank name h = elim (Bool-cases (str_eq name "")) [
  | inl e ↦
      let empty : is_blank "" ≡ false =
        subst (λ s. is_blank s ≡ false) ((str_eq_iff name "").0 e) h in
      cc
  | inr e ↦ e
]

current_found :
    (name : String) (service : GatewayService) (found : Project)
    → str_eq name "" ≡ false
    → lookup name service.projects.projects ≡ some found
    → current_project (record service { current = name }) ≡ ok found
unfolding current_project
current_found name service found named there = rw named (rw there refl)

-- Of a service whose projects stand under their own names, the project that it is told to use is its
-- current project from then on.
current_project-use_project :
    (name : String) (service : GatewayService) {project : Project} {after : GatewayService}
    → All IsNamed service.projects.projects
    → use_project name service ≡ ok (project, after)
    → (current_project after ≡ ok project)
      × (project.name ≡ name)
      × (after.projects ≡ service.projects)
unfolding use_project current_project
current_project-use_project name service {project} {after} named h =
    let (found, looked, h1) = >>=-eq-ok (ok_or (lookup name service.projects.projects) _) _ h in
    let there = ok_or-eq-ok _ _ looked in
    let (blank, is_named) = lookup-IsNamed name service.projects.projects named there in
    let is_project : found ≡ project = cc h1 in
    let is_after : record service { current = name } ≡ after = cc h1 in
    (
      subst (λ r. current_project r ≡ ok project) is_after
          (current_found name service found (not_blank name blank) there ∙ ap ok is_project),
      ap (λ p. p.name) (sym is_project) ∙ is_named,
      ap (λ r. r.projects) (sym is_after),
    )
