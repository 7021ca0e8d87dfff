-- ===== src/Store/Tables.antt =====
-- src/store.rs: the tables `events` and `event_tags` as lists of rows, and the insertion of an event.
-- The columns `id`, `tags`, `metadata_json` and `created_at` hold texts. Such a column is represented
-- by the value that its text was written from, and what parsing the text gives, an error or a value
-- that may differ, is an operation of `Sqlite`.
use shuttle_rs.Prelude.{
  ℕ, String, ◌≡◌, Option, none, some, List, [], ◌∷◌, ◌++◌, Bool, true, false, ◌&&◌, ◌||◌, ◌==◌,
  str_eq, if◌then◌else◌, any, is_text, and_then,
}
use shuttle_rs.Crates.{Crates}
use shuttle_rs.Core.{Event, ShuttleError, Result, ok, err, store, as_str, try_from, ok_or, ◌>>=◌}

-- What the store takes of SQLite and of the JSON text of values.
pub record Sqlite (c : Crates) : Type 0 where
  -- `json_extract(metadata_json, '$.key')`; none is NULL
  pub json_extract : c.Value → String → Option String
  -- `query.to_lowercase()`
  pub to_lowercase : String → String
  -- `lower(text) LIKE '%' || query || '%'`, by the query
  pub lower_like : String → String → Bool
  -- `serde_json::to_string(&event.tags)`
  pub tags_text : List String → String
  -- the text of the error of a uniqueness constraint
  pub unique_error : String
  -- `serde_json::from_str` of the text of `serde_json::to_string`
  pub read_tags : List String → Result (List String)
  pub read_metadata : c.Value → Result c.Value
  -- `DateTime::parse_from_rfc3339` of the text of `to_rfc3339`
  pub read_created_at : ℕ → Result ℕ
  -- `to_sql_error` and `to_store_error`: the text of an error in a column
  pub column_error : ShuttleError → String
  -- an array of texts is read back as it was written
  pub read_tags-same : (tags : List String) → read_tags tags ≡ ok tags
  -- an instant whose text is accepted is read back as it was written
  pub read_created_at-same : (now : ℕ) {read : ℕ} → read_created_at now ≡ ok read → read ≡ now
  -- a text in an object is extracted as itself
  pub json_extract-text :
      (v : c.Value) (k s : String)
      → and_then (c.get v k) c.as_str ≡ some s
      → json_extract v k ≡ some s

pub record EventRow (V : Type 0) : Type 0 where
  pub id : ℕ
  pub event_type : String
  pub workspace_id : String
  pub repo_id : Option String
  pub repo_path : Option String
  pub git_remote : Option String
  pub bit_repo_id : Option String
  pub branch : Option String
  pub commit_hash : Option String
  pub repo_dirty : Option Bool
  pub agent : String
  pub session_id : String
  pub title : Option String
  pub content : String
  pub tags : List String
  pub metadata_json : V
  pub created_at : ℕ

pub record Tables (V : Type 0) : Type 0 where
  pub events : List (EventRow V)
  pub event_tags : List (ℕ × String)

abbrev pub empty_tables : {V : Type 0} → Tables V
empty_tables = record { events = []; event_tags = [] }

-- The parameters of the `INSERT`.
unfoldable pub event_to_row : {V : Type 0} → Event V → EventRow V
event_to_row event = record {
  id = event.id;
  event_type = as_str event.event_type;
  workspace_id = event.workspace_id;
  repo_id = event.repo_id;
  repo_path = event.repo_path;
  git_remote = event.git_remote;
  bit_repo_id = event.bit_repo_id;
  branch = event.branch;
  commit_hash = event.commit;
  repo_dirty = event.repo_dirty;
  agent = event.agent;
  session_id = event.session_id;
  title = event.title;
  content = event.content;
  tags = event.tags;
  metadata_json = event.metadata_json;
  created_at = event.created_at;
}

pub data InsertMode : Type 0 where
  strict ignore_duplicates : InsertMode

abbrev pub has_id : {V : Type 0} → ℕ → EventRow V → Bool
has_id id row = row.id == id

abbrev pub is_tag : ℕ → String → ℕ × String → Bool
is_tag id tag entry = entry.0 == id && str_eq entry.1 tag

-- `INSERT OR IGNORE INTO event_tags`, for each tag of the event
unfoldable pub insert_tags : ℕ → List String → List (ℕ × String) → List (ℕ × String)
insert_tags id [] entries = entries
insert_tags id (tag ∷ tags) entries =
    insert_tags id tags (if any (is_tag id tag) entries then entries else entries ++ (id, tag) ∷ [])

module _ (c : Crates) (q : Sqlite c) where
  open c use {Value}

  -- `map_err(to_sql_error)` of a column, and `to_store_error` of the row
  abbrev pub column : {A : Type 0} → Result A → Result A
  column (ok value) = ok value
  column (err error) = err (store (q.column_error error))

  unfoldable pub row_to_event : EventRow Value → Result (Event Value)
  row_to_event row = do
    event_type ← column (try_from row.event_type)
    tags ← q.read_tags row.tags
    metadata_json ← q.read_metadata row.metadata_json
    created_at ← q.read_created_at row.created_at
    let id_text = c.uuid_text row.id
    id ← column (ok_or (c.parse_str id_text) (store (c.parse_error id_text)))
    ok (record {
      id = id;
      event_type = event_type;
      workspace_id = row.workspace_id;
      repo_id = row.repo_id;
      repo_path = row.repo_path;
      git_remote = row.git_remote;
      bit_repo_id = row.bit_repo_id;
      branch = row.branch;
      commit = row.commit_hash;
      repo_dirty = row.repo_dirty;
      agent = row.agent;
      session_id = row.session_id;
      title = row.title;
      content = row.content;
      tags = tags;
      metadata_json = metadata_json;
      created_at = created_at;
    })

  -- The columns of the unique index `idx_workflow_initial_claim`, for a row that it covers; a row in
  -- which one of them is NULL equals no other.
  unfoldable pub initial_claim : EventRow Value → Option (String × String × String)
  initial_claim row =
      if str_eq row.event_type "workflow"
        && is_text (q.json_extract row.metadata_json "action") "claimed"
      then and_then (q.json_extract row.metadata_json "run_id") (λ run_id.
        and_then (q.json_extract row.metadata_json "step_id")
          (λ step_id. some (row.workspace_id, run_id, step_id)))
      else none

  abbrev pub same_columns :
      Option (String × String × String) → Option (String × String × String) → Bool
  same_columns (some (w, r, s)) (some (w', r', s')) = str_eq w w' && str_eq r r' && str_eq s s'
  same_columns _ _ = false

  -- Whether a row takes the primary key or the columns of the index from another.
  unfoldable pub conflicts : EventRow Value → EventRow Value → Bool
  unfolding initial_claim
  conflicts new row = has_id new.id row || same_columns (initial_claim new) (initial_claim row)

  unfoldable pub insert_event :
      Event Value → InsertMode → Tables Value → Result (Bool × Tables Value)
  unfolding conflicts event_to_row insert_tags
  insert_event event mode tables =
      if any (conflicts (event_to_row event)) tables.events
      then elim mode [
        | InsertMode.strict ↦ err (store q.unique_error)
        | InsertMode.ignore_duplicates ↦ ok (false, tables)
      ]
      else ok (
        true,
        record {
          events = tables.events ++ event_to_row event ∷ [];
          event_tags = insert_tags event.id event.tags tables.event_tags;
        },
      )
