-- ===== src/Remote/Mapping.antt =====
-- src/remote.rs: the events as the gateway takes and gives them, the cursors and the checkpoint.
use shuttle_rs.Prelude.{
  ℕ, String, ◌≡◌, Option, none, some, List, [], ◌∷◌, ◌++◌, Bool, ◌==◌, not, ◌||◌, ◌&◌, str_eq,
  if◌then◌else◌, and_then, unwrap_or, filter_map, text_lt,
}
use shuttle_rs.Prelude.Sorting.{ascending}
use shuttle_rs.Crates.{Crates}
use shuttle_rs.Core.{Event, Result, ok, err, store, serialization, ok_or, as_str, try_from, ◌>>=◌}

-- What the code takes of chrono, and of uuid and serde_json besides.
pub record RemoteCrates (c : Crates) : Type 0 where
  pub to_rfc3339 : ℕ → String
  pub parse_from_rfc3339 : String → Option ℕ
  -- `Uuid::new_v5(&Uuid::NAMESPACE_URL, name.as_bytes())`
  pub new_v5 : String → ℕ
  -- `map.remove(key)`, for what is left
  pub remove_field : c.Value → String → c.Value
  -- the texts of instants in UTC sort as the instants, and those of identifiers as these
  pub text_lt-cursor :
      (s t i j : ℕ)
      → text_lt (to_rfc3339 s & "|" & c.uuid_text i) (to_rfc3339 t & "|" & c.uuid_text j)
        ≡ not (ascending t j s i)

pub data PullPhase : Type 0 where
  backfill incremental : PullPhase

pub record SyncCheckpoint : Type 0 where
  pub version : ℕ
  pub project : String
  pub push_after : Option String
  pub pull_phase : PullPhase
  pub pull_before : Option String
  pub pull_after : Option String
  pub updated_at : ℕ

-- The file of a checkpoint; what cannot be read or parsed has the text of the error.
pub data CheckpointFile : Type 0 where
  missing : CheckpointFile
  unreadable unparsable : String → CheckpointFile
  present : SyncCheckpoint → CheckpointFile

abbrev pub checkpoint_version : ℕ
checkpoint_version = 1

unfoldable pub new_checkpoint : ℕ → String → SyncCheckpoint
new_checkpoint now project = record {
  version = checkpoint_version;
  project = project;
  push_after = none;
  pull_phase = backfill;
  pull_before = none;
  pull_after = none;
  updated_at = now;
}

unfoldable pub load_checkpoint : ℕ → CheckpointFile → String → Result SyncCheckpoint
unfolding new_checkpoint
load_checkpoint now missing project = ok (new_checkpoint now project)
load_checkpoint now (unreadable error) project = err (store error)
load_checkpoint now (unparsable error) project = err (serialization error)
load_checkpoint now (present checkpoint) project =
    if not (checkpoint.version == checkpoint_version) || not (str_eq checkpoint.project project)
    then err (store "sync checkpoint version or project does not match")
    else ok checkpoint

-- The write replaces the file at once, by a rename.
unfoldable pub save_checkpoint : ℕ → SyncCheckpoint → CheckpointFile
save_checkpoint now checkpoint = present (record checkpoint { updated_at = now })

module _ (c : Crates) (r : RemoteCrates c) where
  open c use {
    Value, null, text, texts, bool, object, get, as_bool, as_array, is_object, insert_field,
    uuid_text, parse_str,
  }

  unfoldable pub event_cursor : Event Value → String
  event_cursor event = r.to_rfc3339 event.created_at & "|" & uuid_text event.id

  abbrev pub text_at : Value → String → Option String
  text_at value key = and_then (get value key) c.as_str

  unfoldable pub remote_cursor : Value → Option String
  remote_cursor value =
      and_then (text_at value "created_at")
        (λ created_at. and_then (text_at value "id") (λ id. some (created_at & "|" & id)))

  abbrev optional : Option String → Value
  optional none = null
  optional (some value) = text value

  abbrev optional_bool : Option Bool → Value
  optional_bool none = null
  optional_bool (some value) = bool value

  abbrev local_field : String → Option String → List (String × Value)
  local_field key none = []
  local_field key (some value) = (key, text value) ∷ []

  abbrev with_local : List (String × Value) → Value → Value
  with_local [] metadata = metadata
  with_local (entry ∷ entries) metadata =
      insert_field metadata "shuttle_local" (object (entry ∷ entries))

  unfoldable pub event_to_push_body : Event Value → Value
  unfolding as_str
  event_to_push_body event =
      let metadata = if is_object event.metadata_json then event.metadata_json else object [] in
      let local =
        local_field "repo_id" event.repo_id
        ++ local_field "repo_path" event.repo_path
        ++ local_field "bit_repo_id" event.bit_repo_id in
      object (
        ("event_id", text (uuid_text event.id))
        ∷ ("event_type", text (as_str event.event_type))
        ∷ ("agent", text event.agent)
        ∷ ("session_id", text event.session_id)
        ∷ ("title", optional event.title)
        ∷ ("content", text event.content)
        ∷ ("tags", texts event.tags)
        ∷ (
          "context",
          object (
              ("workspace_id", text event.workspace_id)
              ∷ (
                "repo",
                object (
                    ("git_remote", optional event.git_remote)
                    ∷ ("branch", optional event.branch)
                    ∷ ("commit", optional event.commit)
                    ∷ ("dirty", optional_bool event.repo_dirty)
                    ∷ ("dirty_files", texts [])
                    ∷ []),
              )
              ∷ []),
        )
        ∷ ("metadata", with_local local metadata)
        ∷ ("created_at", text (r.to_rfc3339 event.created_at))
        ∷ [])

  -- The identifier of a remote event.
  abbrev remote_id_of : String → String → ℕ
  remote_id_of project remote_id =
      unwrap_or (parse_str remote_id) (r.new_v5 ("shuttle:" & project & ":" & remote_id))

  abbrev local_text : Option Value → String → Option String
  local_text local key = and_then local (λ value. text_at value key)

  abbrev with_source : String → Option String → Value → Value
  with_source local_workspace_id none metadata = metadata
  with_source local_workspace_id (some workspace) metadata =
      if not (str_eq workspace local_workspace_id)
      then insert_field metadata "remote_source_workspace_id" (text workspace)
      else metadata

  unfoldable pub remote_to_event : Value → String → String → Result (Event Value)
  unfolding try_from
  remote_to_event remote local_workspace_id project = do
    remote_id ← ok_or (text_at remote "id") (serialization "remote event missing id")
    event_type ← try_from (unwrap_or (text_at remote "event_type") "")
    created_at ←
        ok_or (and_then (text_at remote "created_at") r.parse_from_rfc3339)
          (serialization ("remote event " & remote_id & " has invalid created_at"))
    let given = unwrap_or (get remote "metadata_json") null
    let metadata = if is_object given then given else object []
    let local = get metadata "shuttle_local"
    ok (record {
      id = remote_id_of project remote_id;
      event_type = event_type;
      workspace_id = local_workspace_id;
      repo_id = local_text local "repo_id";
      repo_path = local_text local "repo_path";
      git_remote = text_at remote "git_remote";
      bit_repo_id = local_text local "bit_repo_id";
      branch = text_at remote "branch";
      commit = text_at remote "commit_hash";
      repo_dirty = and_then (get remote "repo_dirty") as_bool;
      agent = unwrap_or (text_at remote "agent") "unknown";
      session_id = unwrap_or (text_at remote "session_id") "";
      title = text_at remote "title";
      content = unwrap_or (text_at remote "content") "";
      tags = filter_map c.as_str (unwrap_or (and_then (get remote "tags") as_array) []);
      metadata_json =
          with_source local_workspace_id (text_at remote "workspace_id")
            (r.remove_field metadata "shuttle_local");
      created_at = created_at;
    })
