-- ===== src/Gateway/Adding.antt =====
-- What `add_project` of src/gateway.rs does: when it fails, and what it leaves.
use text.Mathlib.TextLemmas.{nil-append, cons-append}
use shuttle_rs.Prelude.{
  String, ◌≡◌, refl, ap, subst, ◌∙◌, Option, none, some, List, [], ◌∷◌, ◌++◌, Bool, false, not,
  ◌&&◌, ◌||◌, ◌⊎◌, inl, inr, contains, is_blank, map, if◌then◌else◌, arith, ◌&◌,
}
use shuttle_rs.Prelude.Decimals.{decimal}
use shuttle_rs.Core.{
  Result-cases, ok, store, ◌>>=◌, ◌>>◌, reject_if, reject_if-eq-ok, >>=-eq-ok, ok_or, ok_or-eq-ok,
}
use shuttle_rs.Gateway.Registry.{
  ProjectBackendKind, ProjectConfig, Project, Entries, ProjectRegistry, GatewayService, lookup, put,
  names, validate_project_name, validate_backend, validate_project_config, project_from_config,
  insert_named, is_relative,
}
use shuttle_rs.Gateway.Selection.{valid-name}
use shuttle_rs.Gateway.Names.{normalize_project_name, candidate, unique_project_name_lem}
use shuttle_rs.Gateway.Persist.{
  Toml, ConfigFile, free_name, persist_project_config, choose_name, add_project,
  write_config_atomically, project_config_item,
}

-- A name that no project has is looked up in vain.
lookup_fresh :
    (name : String) (entries : Entries Project)
    → contains (map (λ entry. entry.0) entries) name ≡ false
    → lookup name entries ≡ none
unfolding lookup
lookup_fresh name [] h = refl
lookup_fresh name ((j, p) ∷ entries) h = ground (arith, h, lookup_fresh name entries)

contains-append :
    (xs ys : List String) (name : String)
    → contains (xs ++ ys) name ≡ (contains xs name || contains ys name)
contains-append [] ys name = refl
contains-append (x ∷ xs) ys name = ground (arith, contains-append xs ys name)

module _ (base : String) (taken : List String) {unique : String} where
  free_name-fresh :
      free_name base taken ≡ ok unique
      → (contains taken unique ≡ false)
        × ((unique ≡ base) ⊎ ((index : _) × (unique ≡ candidate base index)))
  unfolding free_name
  free_name-fresh h =
      let (name, found, free, shape) = unique_project_name_lem base taken in
      let same : name ≡ unique = cc (found, ok_or-eq-ok _ _ h) in
      subst
        (λ n.
          (contains taken n ≡ false) × ((n ≡ base) ⊎ ((index : _) × (n ≡ candidate base index))))
        same (free, elim shape [ inl e ↦ inl e | inr (_, (index, _, _, e, _, _)) ↦ inr (index, e) ])

module _ (t : Toml) (config : ProjectConfig) (base : String) (taken : List String) where
  persist-fresh :
      (file : ConfigFile) {unique : String} {after : ConfigFile}
      → persist_project_config t file base config taken ≡ ok (unique, after)
      → (contains taken unique ≡ false)
        × ((unique ≡ base) ⊎ ((index : _) × (unique ≡ candidate base index)))
  unfolding persist_project_config
  persist-fresh file {unique} h =
      let (raw, _, h1) = >>=-eq-ok (ok_or file.contents _) _ h in
      let (document, _, h2) = >>=-eq-ok (ok_or (t.parse raw) _) _ h1 in
      let (name, chosen, h3) =
        >>=-eq-ok (free_name base (taken ++ t.project_names document)) _ h2 in
      let (changed, _, h4) =
        >>=-eq-ok
          (ok_or (t.set_project name (project_config_item config) document)
            (store "projects must be a TOML table"))
          _ h3 in
      let (written, _, h5) = >>=-eq-ok (write_config_atomically file (t.to_string changed)) _ h4 in
      let same : name ≡ unique = cc h5 in
      let (free, shape) = free_name-fresh base (taken ++ t.project_names document) chosen in
      let both = contains-append taken (t.project_names document) name in
      subst
        (λ n.
          (contains taken n ≡ false) × ((n ≡ base) ⊎ ((index : _) × (n ≡ candidate base index))))
        same (ground (arith, both, free), shape)

  choose_name-fresh :
      (file : Option ConfigFile) {unique : String} {after : Option ConfigFile}
      → choose_name t file base config taken ≡ ok (unique, after)
      → (contains taken unique ≡ false)
        × ((unique ≡ base) ⊎ ((index : _) × (unique ≡ candidate base index)))
  unfolding choose_name
  choose_name-fresh none {unique} h =
      let (name, chosen, h1) = >>=-eq-ok (free_name base taken) _ h in
      let same : name ≡ unique = cc h1 in free_name-fresh base taken (chosen ∙ ap ok same)
  choose_name-fresh (some file) {unique} h =
      let ((name, written), chosen, h1) =
        >>=-eq-ok (persist_project_config t file base config taken) _ h in
      let same : name ≡ unique = cc h1 in
      persist-fresh file {after = written} (chosen ∙ ap (λ n. ok (n, written)) same)

is_blank-append : (a b : String) → is_blank (a & b) ≡ (is_blank a && is_blank b)
unfolding is_blank
is_blank-append String.[] b = rw (nil-append b) refl
is_blank-append (String.◌∷◌ c a) b = rw (cons-append c a b) (ground (arith, is_blank-append a b))

-- The checks read the name only to see that it is not blank, and to report it.
backend-renamed :
    (base unique : String) (config : ProjectConfig) (kind : ProjectBackendKind) {u : Unit {0}}
    → validate_backend base config kind ≡ ok u
    → validate_backend unique config kind ≡ ok tt
unfolding validate_backend
backend-renamed base unique config ProjectBackendKind.local h =
    let (repo, given, h1) = >>=-eq-ok (ok_or config.repo _) _ h in
    let (_, absolute, h2) = >>=-eq-ok (reject_if (not repo.is_absolute) _) _ h1 in
    let (_, db_absolute, _) = >>=-eq-ok (reject_if (is_relative config.db) _) _ h2 in
    rw (ok_or-eq-ok _ _ given)
      (rw (reject_if-eq-ok _ _ absolute) (rw (reject_if-eq-ok _ _ db_absolute) refl))
backend-renamed base unique config ProjectBackendKind.http h =
    rw (reject_if-eq-ok (is_blank config.url) _ h) refl

validate-renamed :
    (base unique : String) (config : ProjectConfig) {u : Unit {0}}
    → validate_project_config base config ≡ ok u
    → is_blank unique ≡ false
    → validate_project_config unique config ≡ ok tt
unfolding validate_project_config validate_project_name validate_backend
validate-renamed base unique config h k =
    let (_, _, checked) =
      >>=-eq-ok (validate_project_name base) (λ passed. validate_backend base config config.backend)
        h in
    rw k (backend-renamed base unique config config.backend checked)

suffixed_not_blank :
    (base unique : String)
    → is_blank base ≡ false
    → ((unique ≡ base) ⊎ ((index : _) × (unique ≡ candidate base index)))
    → is_blank unique ≡ false
unfolding candidate
suffixed_not_blank base unique h (inl e) = rw e h
suffixed_not_blank base unique h (inr (index, e)) =
    rw e (rw (is_blank-append base ("-" & decimal index)) (rw h refl))

-- How `add_project` ends once the name is chosen.
abbrev pub added :
    ProjectConfig
    → Bool
    → GatewayService
    → String × Option ConfigFile
    → Project × GatewayService × Option ConfigFile
added config make_current service (unique, file) =
    let project = project_from_config unique config in
    (
      project,
      record {
        projects = record service.projects {
          projects = put unique project service.projects.projects;
        };
        current = if make_current then unique else service.current;
      },
      file,
    )

insert_named-fresh :
    (unique : String) (config : ProjectConfig) (registry : ProjectRegistry)
    → validate_project_config unique config ≡ ok tt
    → contains (names registry) unique ≡ false
    → insert_named unique config registry
      ≡ ok (
        project_from_config unique config,
        record registry {
          projects = put unique (project_from_config unique config) registry.projects;
        },
      )
unfolding insert_named names
insert_named-fresh unique config registry valid fresh =
    rw valid (rw (lookup_fresh unique registry.projects fresh) refl)

module _ (t : Toml) (file : Option ConfigFile) (config : ProjectConfig) (make_current : Bool)
    (service : GatewayService) where
  add_project-chosen :
      (base : String) {u : Unit {0}}
      → validate_project_config base config ≡ ok u
      → (choose_name t file base config (names service.projects) >>= λ chosen.
          insert_named chosen.0 config service.projects >>= λ inserted. ok (
            inserted.0,
            record {
              projects = inserted.1;
              current = if make_current then inserted.0.name else service.current;
            },
            chosen.1,
          ))
        ≡ (choose_name t file base config (names service.projects) >>= λ chosen.
            ok (added config make_current service chosen))
  unfolding project_from_config
  add_project-chosen base valid =
      elim (Result-cases (choose_name t file base config (names service.projects))) [
        | inl (e, failed) ↦ rw failed refl
        | inr ((unique, after), chosen) ↦
            let (fresh, shape) =
              choose_name-fresh t config base (names service.projects) file chosen in
            let not_blank = suffixed_not_blank base unique (valid-name base config valid) shape in
            rw chosen (
              rw
                (insert_named-fresh unique config service.projects
                  (validate-renamed base unique config valid not_blank) fresh)
                refl)
      ]

  -- Adding a project fails only as the check of its name or of its configuration does, or as the
  -- choice of its name, which writes the file: once a name is chosen, the project is always inserted
  -- under it, and is the current one if that was asked.
  pub add_project_lem :
      (name : String)
      → add_project t file name config make_current service ≡ (
          normalize_project_name name >>= λ base.
          validate_project_config base config
          >> (choose_name t file base config (names service.projects) >>= λ chosen.
              ok (added config make_current service chosen)))
  unfolding add_project
  add_project_lem name = elim (Result-cases (normalize_project_name name)) [
    | inl (e, failed) ↦ rw failed refl
    | inr (base, named) ↦ elim (Result-cases (validate_project_config base config)) [
      | inl (e, failed) ↦ rw (named, failed) refl
      | inr (u, valid) ↦ rw (named, valid) (add_project-chosen base valid)
    ]
  ]
