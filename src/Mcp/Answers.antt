-- ===== src/Mcp/Answers.antt =====
-- src/mcp.rs: what the tools answer, and the tools as functions on the state of the store.
use shuttle_rs.Prelude.{String, List, [], ◌∷◌, ◌&◌, contains, if◌then◌else◌}
use shuttle_rs.Crates.{Crates}
use shuttle_rs.Core.{Event, EventStore, Result, ok, err, store, ok_value}
use shuttle_rs.Context.{RepoStatus, with_repo_metadata}
use shuttle_rs.Context.Status.{Command}
use shuttle_rs.Context.Assemble.{Context}
use shuttle_rs.Collab.Events.{CollabStart, CollabNudge, CollabPass, CollabStatus}
use shuttle_rs.Task.Events.{TaskSummary, HandoffSummary}
use shuttle_rs.Workflow.Manifest.{WorkflowDefinition}
use shuttle_rs.Workflow.Load.{Disk}
use shuttle_rs.Workflow.Run.{WorkflowRun}
use shuttle_rs.Mcp.Commands.{McpRuntime}

-- What is handed to `serde_json::to_value`.
pub data Answer (V : Type 0) : Type 0 where
  event_answer : Event V → Answer V
  events_answer : List (Event V) → Answer V
  tasks_answer : List TaskSummary → Answer V
  handoffs_answer : List HandoffSummary → Answer V
  collab_start_answer : CollabStart V → Answer V
  collab_status_answer : CollabStatus V → Answer V
  collab_nudge_answer : CollabNudge V → Answer V
  collab_pass_answer : CollabPass V → Answer V
  workflows_answer : List WorkflowDefinition → Answer V
  run_answer : WorkflowRun V → Answer V
  runs_answer : List (WorkflowRun V) → Answer V
  context_answer : Context V → Answer V
  repo_status_answer : RepoStatus → Answer V
  -- what `json!` has made a value already
  value_answer : V → Answer V

-- What the server takes of serde, of git and of the disk.
pub record McpCrates (c : Crates) : Type 0 where
  pub to_value : Answer c.Value → c.Value
  pub command : Command
  pub disk : Disk

module _ (c : Crates) {S : Type 0} (s : EventStore S c.Value) where
  open c use {Value}

  abbrev pub Tool : Type 0
  Tool = S → Result (Answer Value) × S

  unfoldable pub answering : Answer Value → Tool
  answering answer state = (ok answer, state)

  -- A tool that only reads the store.
  unfoldable pub reading : (S → Result (Answer Value)) → Tool
  reading read state = (read state, state)

  -- `?` on a check that changes nothing
  abbrev pub checked : {A : Type 0} → (A → Tool) → Result A → Tool
  checked rest (err failure) state = (err failure, state)
  checked rest (ok found) state = rest found state

  unfoldable pub after_check : {A : Type 0} → (S → Result A) → (A → Tool) → Tool
  after_check check rest state = checked rest (check state) state

  -- `?` on a write, which leaves the store as it is where it fails
  abbrev pub committed : {A : Type 0} → (A → Tool) → Result (A × S) → Tool
  committed rest (err failure) state = (err failure, state)
  committed rest (ok (written, after)) state = rest written after

  unfoldable pub committing : {A : Type 0} → (S → Result (A × S)) → (A → Tool) → Tool
  committing write rest state = committed rest (write state) state

  module _ (runtime : McpRuntime) where
    -- `runtime.store.append(with_repo_metadata(event, runtime)).await?`
    unfoldable pub store_event : Event Value → S → Result (Event Value × S)
    store_event event = s.append (with_repo_metadata c event (ok_value runtime.status))

    unfoldable pub storing : Event Value → Tool
    storing event = committing (store_event event) (λ stored. answering (event_answer stored))

    -- The loop over the messages of a collaboration.
    unfoldable pub store_each : List (Event Value) → (List (Event Value) → Tool) → Tool
    store_each [] rest = rest []
    store_each (event ∷ given) rest =
        committing (store_event event)
          (λ stored. store_each given (λ others. rest (stored ∷ others)))

  -- An arm of the `match` on the name: the names and the tool.
  abbrev pub Arm : Type 0
  Arm = List String × Tool

  unfoldable pub dispatch : String → List Arm → Tool
  dispatch name [] state = (err (store ("unknown tool: " & name)), state)
  dispatch name ((names, tool) ∷ arms) state =
      let rest = dispatch name arms state in if contains names name then tool state else rest
