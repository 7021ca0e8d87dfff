-- ===== src/Task/Events.antt =====
-- src/task.rs: the tags, the summaries, and the events that the task and handoff commands append.
use shuttle_rs.Prelude.{ℕ, String, Option, none, some, List, [], ◌∷◌, ◌&◌}
use shuttle_rs.Crates.{Crates}
use shuttle_rs.Core.{Event, Stamp, new_event, task, handoff}

abbrev pub tag_open : String
tag_open = "task:open"

abbrev pub tag_claimed : String
tag_claimed = "task:claimed"

abbrev pub tag_done : String
tag_done = "task:done"

abbrev pub tag_handoff_pending : String
tag_handoff_pending = "handoff:pending"

abbrev pub tag_handoff_accepted : String
tag_handoff_accepted = "handoff:accepted"

abbrev pub tag_handoff_done : String
tag_handoff_done = "handoff:done"

abbrev pub claim_tag : String → String
claim_tag agent = "claimed_by:" & agent

module _ (c : Crates) where
  abbrev pub task_ref_tag : ℕ → String
  task_ref_tag id = "task_ref:" & c.uuid_text id

  abbrev pub handoff_ref_tag : ℕ → String
  handoff_ref_tag id = "handoff_ref:" & c.uuid_text id

pub data TaskStatus : Type 0 where
  open_task claimed completed : TaskStatus

pub record TaskSummary : Type 0 where
  pub id : ℕ
  pub status : TaskStatus
  pub content : String
  pub created_by : String
  pub claimed_by : Option String
  pub created_at : ℕ
  pub updated_at : ℕ
  pub source_event_ids : List ℕ

pub data HandoffStatus : Type 0 where
  pending accepted completed : HandoffStatus

pub record HandoffSummary : Type 0 where
  pub id : ℕ
  pub status : HandoffStatus
  pub content : String
  pub from_agent : String
  pub to_agent : String
  pub accepted_by : Option String
  pub created_at : ℕ
  pub updated_at : ℕ
  pub source_event_ids : List ℕ

module _ (c : Crates) (stamp : Stamp) where
  open c use {Value, text, object, uuid_text}

  unfoldable pub new_task : String → String → String → String → Event Value
  unfolding new_event
  new_task workspace_id agent session_id content = new_event stamp (record {
    event_type = task;
    workspace_id = workspace_id;
    repo_id = none;
    repo_path = none;
    git_remote = none;
    bit_repo_id = none;
    branch = none;
    commit = none;
    repo_dirty = none;
    agent = agent;
    session_id = session_id;
    title = some "task";
    content = content;
    tags = tag_open ∷ [];
    metadata_json = object (("action", text "created") ∷ ("status", text "open") ∷ []);
  })

  unfoldable pub new_claim : String → String → String → ℕ → Event Value
  unfolding new_event
  new_claim workspace_id agent session_id task_id = new_event stamp (record {
    event_type = task;
    workspace_id = workspace_id;
    repo_id = none;
    repo_path = none;
    git_remote = none;
    bit_repo_id = none;
    branch = none;
    commit = none;
    repo_dirty = none;
    agent = agent;
    session_id = session_id;
    title = some "task claim";
    content = "claimed task " & uuid_text task_id;
    tags = tag_claimed ∷ claim_tag agent ∷ task_ref_tag c task_id ∷ [];
    metadata_json = object (
        ("action", text "claimed")
        ∷ ("status", text "claimed")
        ∷ ("task_id", text (uuid_text task_id))
        ∷ ("claimed_by", text agent)
        ∷ []);
  })

  unfoldable pub new_task_update : String → String → String → ℕ → String → Event Value
  unfolding new_event
  new_task_update workspace_id agent session_id task_id content = new_event stamp (record {
    event_type = task;
    workspace_id = workspace_id;
    repo_id = none;
    repo_path = none;
    git_remote = none;
    bit_repo_id = none;
    branch = none;
    commit = none;
    repo_dirty = none;
    agent = agent;
    session_id = session_id;
    title = some "task update";
    content = content;
    tags = task_ref_tag c task_id ∷ [];
    metadata_json =
        object (("action", text "updated") ∷ ("task_id", text (uuid_text task_id)) ∷ []);
  })

  unfoldable pub new_task_done : String → String → String → ℕ → Event Value
  unfolding new_event
  new_task_done workspace_id agent session_id task_id = new_event stamp (record {
    event_type = task;
    workspace_id = workspace_id;
    repo_id = none;
    repo_path = none;
    git_remote = none;
    bit_repo_id = none;
    branch = none;
    commit = none;
    repo_dirty = none;
    agent = agent;
    session_id = session_id;
    title = some "task completed";
    content = "completed task " & uuid_text task_id;
    tags = tag_done ∷ task_ref_tag c task_id ∷ [];
    metadata_json = object (
        ("action", text "completed")
        ∷ ("status", text "completed")
        ∷ ("task_id", text (uuid_text task_id))
        ∷ []);
  })

  unfoldable pub new_handoff : String → String → String → String → String → Event Value
  unfolding new_event
  new_handoff workspace_id from_agent session_id to_agent content = new_event stamp (record {
    event_type = handoff;
    workspace_id = workspace_id;
    repo_id = none;
    repo_path = none;
    git_remote = none;
    bit_repo_id = none;
    branch = none;
    commit = none;
    repo_dirty = none;
    agent = from_agent;
    session_id = session_id;
    title = some "handoff";
    content = content;
    tags = tag_handoff_pending ∷ [];
    metadata_json = object (
        ("action", text "requested")
        ∷ ("status", text "pending")
        ∷ ("from", text from_agent)
        ∷ ("to", text to_agent)
        ∷ []);
  })

  unfoldable pub new_handoff_accept : String → String → String → ℕ → Event Value
  unfolding new_event
  new_handoff_accept workspace_id agent session_id handoff_id = new_event stamp (record {
    event_type = handoff;
    workspace_id = workspace_id;
    repo_id = none;
    repo_path = none;
    git_remote = none;
    bit_repo_id = none;
    branch = none;
    commit = none;
    repo_dirty = none;
    agent = agent;
    session_id = session_id;
    title = some "handoff accepted";
    content = "accepted handoff " & uuid_text handoff_id;
    tags = tag_handoff_accepted ∷ handoff_ref_tag c handoff_id ∷ claim_tag agent ∷ [];
    metadata_json = object (
        ("action", text "accepted")
        ∷ ("status", text "accepted")
        ∷ ("handoff_id", text (uuid_text handoff_id))
        ∷ ("accepted_by", text agent)
        ∷ []);
  })

  unfoldable pub new_handoff_done : String → String → String → ℕ → Event Value
  unfolding new_event
  new_handoff_done workspace_id agent session_id handoff_id = new_event stamp (record {
    event_type = handoff;
    workspace_id = workspace_id;
    repo_id = none;
    repo_path = none;
    git_remote = none;
    bit_repo_id = none;
    branch = none;
    commit = none;
    repo_dirty = none;
    agent = agent;
    session_id = session_id;
    title = some "handoff completed";
    content = "completed handoff " & uuid_text handoff_id;
    tags = tag_handoff_done ∷ handoff_ref_tag c handoff_id ∷ [];
    metadata_json = object (
        ("action", text "completed")
        ∷ ("status", text "completed")
        ∷ ("handoff_id", text (uuid_text handoff_id))
        ∷ []);
  })
