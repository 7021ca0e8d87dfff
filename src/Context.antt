-- ===== src/Context.antt =====
-- src/context.rs: the state of a repository as the events record it. What git reports is an argument here.
pub mod Status
pub mod Assemble
use shuttle_rs.Prelude.{
  String, ◌≡◌, refl, Option, none, some, List, [], ◌∷◌, Bool, true, false, ◌||◌, ◌∙◌, str_eq,
  unwrap_or, any,
}
use shuttle_rs.Crates.{Crates}
use shuttle_rs.Core.{Event}

pub record RepoStatus : Type 0 where
  pub repo_path : String
  pub git_remote : Option String
  pub branch : String
  pub commit : String
  pub dirty : Bool
  pub dirty_files : List String

unfoldable pub repo_id : RepoStatus → String
repo_id status = unwrap_or status.git_remote status.repo_path

or-eq-false : (a b : Bool) → (a || b) ≡ false → (a ≡ false) × (b ≡ false)
or-eq-false true b h = cc
or-eq-false false b h = (refl, h)

module _ (c : Crates) where
  open c use {Value, null, text, texts, bool, get, insert_field}

  -- `json!(option)`
  abbrev optional : Option String → Value
  optional none = null
  optional (some value) = text value

  -- What is inserted, the key of each first.
  abbrev pub repo_fields : RepoStatus → List (String × Value)
  repo_fields status =
      ("repo_id", text (repo_id status))
      ∷ ("repo_path", text status.repo_path)
      ∷ ("git_remote", optional status.git_remote)
      ∷ ("branch", text status.branch)
      ∷ ("commit", text status.commit)
      ∷ ("repo_dirty", bool status.dirty)
      ∷ ("dirty_files", texts status.dirty_files)
      ∷ []

  abbrev pub insert_fields : Value → List (String × Value) → Value
  insert_fields value [] = value
  insert_fields value ((key, field) ∷ fields) = insert_fields (insert_field value key field) fields

  -- `status` is what `repo_status` returns, and none where it fails. The three copies of the function,
  -- in src/mcp.rs, src/app.rs and src/gateway.rs, are the same.
  unfoldable pub with_repo_metadata : Event Value → Option RepoStatus → Event Value
  unfolding repo_id
  with_repo_metadata event none = event
  with_repo_metadata event (some status) = record event {
    repo_id = some (repo_id status);
    repo_path = some status.repo_path;
    git_remote = status.git_remote;
    branch = some status.branch;
    commit = some status.commit;
    repo_dirty = some status.dirty;
    metadata_json = insert_fields event.metadata_json (repo_fields status);
  }

  get-insert_fields :
      (value : Value) (fields : List (String × Value)) (key : String)
      → any (λ field. str_eq field.0 key) fields ≡ false
      → get (insert_fields value fields) key ≡ get value key
  get-insert_fields value [] key h = refl
  get-insert_fields value ((k, v) ∷ fields) key h =
      let (other, others) = or-eq-false (str_eq k key) _ h in
      get-insert_fields (insert_field value k v) fields key others
      ∙ c.get-insert_other value k key v other

  -- What an event says under the other keys stays as it is.
  pub get-with_repo_metadata :
      (event : Event Value) (status : Option RepoStatus) (key : String)
      → ((s : RepoStatus) → any (λ field. str_eq field.0 key) (repo_fields s) ≡ false)
      → get (with_repo_metadata event status).metadata_json key ≡ get event.metadata_json key
  unfolding with_repo_metadata
  get-with_repo_metadata event none key h = refl
  get-with_repo_metadata event (some status) key h =
      get-insert_fields event.metadata_json (repo_fields status) key (h status)
