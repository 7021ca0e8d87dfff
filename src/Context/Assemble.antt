-- ===== src/Context/Assemble.antt =====
-- src/context.rs: the context that an agent is shown, read from the repository and from any store.
use shuttle_rs.Prelude.{String, Option, none, some, List, ◌++◌, Bool, retain, take}
use shuttle_rs.Prelude.Sorting.{sort_by}
use shuttle_rs.Crates.{Crates}
use shuttle_rs.Core.{Event, EventType, EventFilter, EventStore, Result, ok, ◌>>=◌, default_filter}
use shuttle_rs.Context.{RepoStatus}
use shuttle_rs.Message.{by_reverse_created}
use shuttle_rs.Task.Events.{TaskSummary, HandoffSummary}
use shuttle_rs.Task.Queries.{tasks, handoffs, is_open, is_claimed, is_pending, is_completed}
use shuttle_rs.Workflow.Run.{WorkflowRun}
use shuttle_rs.Workflow.Project.{StepsCodec, active_runs}

pub record Context (V : Type 0) : Type 0 where
  pub repo : String
  pub branch : String
  pub commit : String
  pub git_remote : Option String
  pub dirty : Bool
  pub dirty_files : List String
  pub open_tasks : List TaskSummary
  pub claimed_tasks : List TaskSummary
  pub recent_decisions : List (Event V)
  pub related_memories : List (Event V)
  pub recent_messages : List (Event V)
  pub pending_handoffs : List HandoffSummary
  pub recent_completed_handoffs : List HandoffSummary
  pub inbox : List (Event V)
  pub active_workflows : List (WorkflowRun V)

module _ (c : Crates) (codec : StepsCodec c) {S : Type 0} (s : EventStore S c.Value) where
  open c use {Value}

  -- The latest events of a type in the workspace, sent to an agent if one is given.
  abbrev pub recent : EventType → Option String → String → EventFilter
  recent event_type recipient workspace_id = record default_filter {
    event_type = some event_type;
    workspace_id = some workspace_id;
    recipient = recipient;
    limit = some 20;
  }

  unfoldable pub inbox_events : String → String → S → Result (List (Event Value))
  inbox_events workspace_id agent state = do
    messages ← s.list (recent EventType.message (some agent) workspace_id) state
    handed ← s.list (recent EventType.handoff (some agent) workspace_id) state
    ok (take 20 (sort_by by_reverse_created (messages ++ handed)))

  -- `status` is what `repo_status` returns of the directory.
  unfoldable pub assemble_context : Result RepoStatus → String → String → S → Result (Context Value)
  unfolding inbox_events tasks handoffs active_runs
  assemble_context repo_status workspace_id agent state = do
    status ← repo_status
    task_summaries ← tasks c s (some workspace_id) none state
    recent_decisions ← s.list (recent EventType.decision none workspace_id) state
    related_memories ← s.list (recent EventType.memory none workspace_id) state
    recent_messages ← s.list (recent EventType.message none workspace_id) state
    handoff_summaries ← handoffs c s (some workspace_id) none state
    inbox ← inbox_events workspace_id agent state
    active_workflows ← active_runs c codec s workspace_id state
    ok (record {
      repo = status.repo_path;
      branch = status.branch;
      commit = status.commit;
      git_remote = status.git_remote;
      dirty = status.dirty;
      dirty_files = status.dirty_files;
      open_tasks = take 20 (retain is_open task_summaries);
      claimed_tasks = take 20 (retain is_claimed task_summaries);
      recent_decisions = recent_decisions;
      related_memories = related_memories;
      recent_messages = recent_messages;
      pending_handoffs = take 20 (retain is_pending handoff_summaries);
      recent_completed_handoffs = take 20 (retain is_completed handoff_summaries);
      inbox = inbox;
      active_workflows = active_workflows;
    })
