-- ===== src/Workflow/Project.antt =====
-- src/workflow.rs: the events of a run, and the projection of the event log into runs.
use shuttle_rs.Prelude.{
  ℕ, String, ◌≡◌, Option, none, some, List, [], ◌∷◌, ◌++◌, Bool, ◌&&◌, ◌||◌, ◌==◌, ◌&◌, str_eq,
  if◌then◌else◌, find, update_first, retain, map, and_then, unwrap_or,
}
use shuttle_rs.Prelude.Sorting.{sort_by, by_ascending, by_descending}
use shuttle_rs.Prelude.Maps
use shuttle_rs.Prelude.Maps.{Map}
use shuttle_rs.Crates.{Crates}
use shuttle_rs.Core.{
  Event, EventStore, Stamp, new_event, workflow, Result, ok, err, store, serialization, ◌>>=◌,
  ok_or, default_filter, u32_max,
}
use shuttle_rs.Workflow.Manifest.{WorkflowStep, WorkflowDefinition}
use shuttle_rs.Workflow.Run.{
  StepStatus, RunStatus, StepSummary, WorkflowRun, named, is_claimed, is_non_idempotent, is_live,
  recovered,
}

-- What serde derives for `Vec<WorkflowStep>`.
pub record StepsCodec (c : Crates) : Type 0 where
  pub to_value : List WorkflowStep → c.Value
  pub from_value : c.Value → Option (List WorkflowStep)
  pub from_value_error : c.Value → String
  pub from-to_value : (steps : List WorkflowStep) → from_value (to_value steps) ≡ some steps

module _ (c : Crates) (stamp : Stamp) where
  open c use {Value, text, object, uuid_text}

  -- `details` are the fields that extend `action` and `run_id`.
  unfoldable pub workflow_event :
      String → String → String → ℕ → String → String → List (String × Value) → Event Value
  unfolding new_event
  workflow_event workspace_id agent session_id run_id action content details =
      new_event stamp (record {
        event_type = workflow;
        workspace_id = workspace_id;
        repo_id = none;
        repo_path = none;
        git_remote = none;
        bit_repo_id = none;
        branch = none;
        commit = none;
        repo_dirty = none;
        agent = agent;
        session_id = session_id;
        title = some "workflow";
        content = content;
        tags = ("workflow_run:" & uuid_text run_id) ∷ ("workflow:" & action) ∷ [];
        metadata_json =
            object (("action", text action) ∷ ("run_id", text (uuid_text run_id)) ∷ details);
      })

  -- `run_id` is what `Uuid::new_v4()` returns first, `stamp.new_id` what it returns in `Event::new`.
  unfoldable pub start_event :
      StepsCodec c → ℕ → String → String → String → WorkflowDefinition → Value → Event Value
  unfolding workflow_event
  start_event codec run_id workspace_id agent session_id definition input =
      workflow_event workspace_id agent session_id run_id "started"
        ("started workflow " & definition.id)
        (("workflow_id", text definition.id)
          ∷ ("title", text definition.title)
          ∷ ("spec", text definition.spec.text)
          ∷ ("input", input)
          ∷ ("steps", codec.to_value definition.steps)
          ∷ [])

  abbrev field_if : String → Option Value → List (String × Value)
  field_if key none = []
  field_if key (some value) = (key, value) ∷ []

  unfoldable pub action_event :
      String → String → String → ℕ → String → Option String → Option Value → Event Value
  unfolding workflow_event
  action_event workspace_id agent session_id run_id action step_id value =
      workflow_event workspace_id agent session_id run_id action
        ("workflow " & uuid_text run_id & ": " & action)
        (field_if "step_id" (elim step_id [ none ↦ none | some id ↦ some (text id) ])
          ++ field_if "value" value)

module _ (c : Crates) where
  open c use {Value, null, get, as_str, uuid_text, parse_str, parse_error}

  unfoldable pub metadata_string : Event Value → String → Result String
  metadata_string event key =
      ok_or (and_then (get event.metadata_json key) as_str)
        (serialization ("workflow event " & uuid_text event.id & " has invalid " & key))

  unfoldable pub metadata_uuid : Event Value → String → Result ℕ
  unfolding metadata_string
  metadata_uuid event key = do
    value ← metadata_string event key
    ok_or (parse_str value) (serialization (parse_error value))

  -- `"claimed" | "reclaimed" | "taken_over"`
  abbrev pub is_claim : String → Bool
  is_claim action =
      str_eq action "claimed" || str_eq action "reclaimed" || str_eq action "taken_over"

  -- The change of the step and of the run by an action on the step; `step` is what was found.
  unfoldable pub apply_step_action :
      WorkflowRun Value → Event Value → String → String → StepSummary Value → WorkflowRun Value
  apply_step_action run event action step_id step =
      let change =
        λ (f : StepSummary Value → StepSummary Value). update_first (named step_id) f run.steps in
      let value = get event.metadata_json "value" in
      if is_claim action
      then (if str_eq action "taken_over" && is_claimed step.status && is_non_idempotent step.kind
          then record run {
            steps = change (λ s. record s {
              status = StepStatus.needs_reconcile;
              claimed_by = some event.agent;
            });
            status = RunStatus.needs_reconcile;
            current_step = some step_id;
          }
          else record run {
            steps =
                change
                  (λ s. record s { status = StepStatus.claimed; claimed_by = some event.agent });
            status = recovered run.status;
            current_step = some step_id;
          })
      else if str_eq action "failed_step"
      then record run {
        steps = change (λ s. record s { status = StepStatus.failed; output = value });
        status = RunStatus.failed;
      }
      -- "completed_step" and "reconciled"
      else record run {
        steps = change (λ s. record s { status = StepStatus.completed; output = value });
        current_step = none;
        status = RunStatus.active;
      }

  abbrev pub is_step_action : String → Bool
  is_step_action action =
      is_claim action
      || str_eq action "completed_step"
      || str_eq action "failed_step"
      || str_eq action "reconciled"

  unfoldable pub apply_action :
      WorkflowRun Value → Event Value → String → Result (WorkflowRun Value)
  apply_action run event action =
      let touched = record run {
        updated_at = event.created_at;
        source_event_ids = run.source_event_ids ++ event.id ∷ [];
      } in
      if is_step_action action
      then (do
        step_id ← metadata_string event "step_id"
        step ← ok_or (find (named step_id) run.steps) (store ("unknown workflow step: " & step_id))
        ok (apply_step_action touched event action step_id step))
      else if str_eq action "completed"
      then ok (record touched { status = RunStatus.completed })
      else if str_eq action "aborted"
      then ok (record touched { status = RunStatus.aborted })
      else err (store ("unknown workflow action: " & action))

  unfoldable pub pending_step : WorkflowStep → StepSummary Value
  pending_step step = record {
    id = step.id;
    title = step.title;
    kind = step.kind;
    approval_required = step.approval_required;
    status = StepStatus.pending;
    claimed_by = none;
    output = none;
  }

module _ (c : Crates) (codec : StepsCodec c) where
  open c use {Value, null, get, uuid_text}

  -- The run that a "started" event inserts.
  unfoldable pub started_run : Event Value → ℕ → Result (WorkflowRun Value)
  unfolding metadata_string pending_step
  started_run event run_id = do
    let value = unwrap_or (get event.metadata_json "steps") null
    steps ← ok_or (codec.from_value value) (serialization (codec.from_value_error value))
    workflow_id ← metadata_string c event "workflow_id"
    title ← metadata_string c event "title"
    spec ← metadata_string c event "spec"
    ok (record {
      id = run_id;
      workflow_id = workflow_id;
      title = title;
      spec = spec;
      status = RunStatus.active;
      input = unwrap_or (get event.metadata_json "input") null;
      steps = map (pending_step c) steps;
      current_step = none;
      created_at = event.created_at;
      updated_at = event.created_at;
      source_event_ids = event.id ∷ [];
    })

  -- One round of the loop of `project_runs`.
  unfoldable pub project_event :
      Map (WorkflowRun Value) → Event Value → Result (Map (WorkflowRun Value))
  unfolding metadata_uuid metadata_string started_run apply_action apply_step_action
  project_event runs event = do
    run_id ← metadata_uuid c event "run_id"
    action ← metadata_string c event "action"
    if str_eq action "started"
        then (do run ← started_run event run_id; ok (Maps.insert run_id run runs))
        else (do
          run ←
              ok_or (Maps.get run_id runs)
                (store ("workflow action before start: " & uuid_text run_id))
          changed ← apply_action c run event action
          ok (Maps.insert run_id changed runs))

  unfoldable pub project_events :
      Map (WorkflowRun Value) → List (Event Value) → Result (Map (WorkflowRun Value))
  unfolding project_event
  project_events runs [] = ok runs
  project_events runs (event ∷ events) = do
    next ← project_event runs event
    project_events next events

  unfoldable pub project_runs : List (Event Value) → Result (List (WorkflowRun Value))
  unfolding project_events
  project_runs events = do
    runs ← project_events [] (sort_by (by_ascending (λ e. e.created_at) (λ e. e.id)) events)
    ok (sort_by (by_descending (λ r. r.updated_at) (λ r. r.id)) (Maps.values runs))

  module _ {S : Type 0} (s : EventStore S Value) where
    unfoldable pub runs : String → S → Result (List (WorkflowRun Value))
    unfolding project_runs
    runs workspace_id state = do
      events ←
          s.list
            (record default_filter {
              event_type = some workflow;
              workspace_id = some workspace_id;
              limit = some u32_max;
            })
            state
      project_runs events

    unfoldable pub run_by_id : String → ℕ → S → Result (WorkflowRun Value)
    unfolding runs
    run_by_id workspace_id id state = do
      found ← runs workspace_id state
      ok_or (find (λ r. r.id == id) found) (store ("workflow run not found: " & uuid_text id))

    unfoldable pub active_runs : String → S → Result (List (WorkflowRun Value))
    unfolding runs
    active_runs workspace_id state = do
      found ← runs workspace_id state
      ok (retain (λ r. is_live r.status) found)
