-- ===== src/Task/Project.antt =====
-- src/task.rs: `project_tasks` and `project_handoffs`, the fold of the event log into summaries.
use shuttle_rs.Prelude.{
  ℕ, String, Option, none, some, List, [], ◌∷◌, ◌++◌, Bool, ◌&◌, str_eq, if◌then◌else◌, is_text,
  unwrap_or, or_else, any, strip_prefix, find_map, and_then,
}
use mathlib.Core.List.{foldl}
use shuttle_rs.Prelude.Sorting.{sort_by, by_ascending}
use shuttle_rs.Prelude.Maps
use shuttle_rs.Prelude.Maps.{Map}
use shuttle_rs.Crates.{Crates}
use shuttle_rs.Core.{Event}
use shuttle_rs.Task.Events.{
  TaskStatus, TaskSummary, HandoffStatus, HandoffSummary, tag_open, tag_claimed,
}

module _ (c : Crates) where
  open c use {Value, get, as_str, parse_str}

  unfoldable pub string_metadata : Value → String → Option String
  string_metadata metadata key = and_then (get metadata key) as_str

  unfoldable pub action : Event Value → Option String
  unfolding string_metadata
  action event = string_metadata event.metadata_json "action"

  unfoldable pub referenced_id : Event Value → String → String → Option ℕ
  unfolding string_metadata
  referenced_id event metadata_key tag_prefix =
      or_else (and_then (string_metadata event.metadata_json metadata_key) parse_str)
        (find_map (λ tag. and_then (strip_prefix (tag_prefix & ":") tag) parse_str) event.tags)

  abbrev has_tag : String → Event Value → Bool
  has_tag t event = any (λ tag. str_eq tag t) event.tags

  -- The arms of the `match` on one event; the guards follow the three actions.
  unfoldable pub claim_task : Event Value → Option String → TaskSummary → TaskSummary
  claim_task event by t = record t {
    status = TaskStatus.claimed;
    claimed_by = by;
    updated_at = event.created_at;
    source_event_ids = t.source_event_ids ++ event.id ∷ [];
  }

  unfoldable pub update_task : Event Value → TaskSummary → TaskSummary
  update_task event t = record t {
    content = event.content;
    updated_at = event.created_at;
    source_event_ids = t.source_event_ids ++ event.id ∷ [];
  }

  unfoldable pub complete_task : Event Value → TaskSummary → TaskSummary
  complete_task event t = record t {
    status = TaskStatus.completed;
    updated_at = event.created_at;
    source_event_ids = t.source_event_ids ++ event.id ∷ [];
  }

  unfoldable pub created_task : Event Value → ℕ → TaskSummary
  created_task event task_id = record {
    id = task_id;
    status = TaskStatus.open_task;
    content = event.content;
    created_by = event.agent;
    claimed_by = none;
    created_at = event.created_at;
    updated_at = event.created_at;
    source_event_ids = event.id ∷ [];
  }

  unfoldable pub apply_task : Map TaskSummary → Event Value → Map TaskSummary
  apply_task tasks event =
      let act = action event in
      let task_id = unwrap_or (referenced_id event "task_id" "task_ref") event.id in
      if is_text act "claimed"
      then Maps.modify task_id
          (claim_task event
            (some (unwrap_or (string_metadata event.metadata_json "claimed_by") event.agent)))
          tasks
      else if is_text act "updated"
      then Maps.modify task_id (update_task event) tasks
      else if is_text act "completed"
      then Maps.modify task_id (complete_task event) tasks
      else if has_tag tag_open event
      then Maps.or_insert task_id (created_task event task_id) tasks
      else if has_tag tag_claimed event
      then Maps.modify task_id (claim_task event (some event.agent)) tasks
      else tasks

  unfoldable pub oldest_first : List (Event Value) → List (Event Value)
  oldest_first = sort_by (by_ascending (λ e. e.created_at) (λ e. e.id))

  unfoldable pub project_tasks : List (Event Value) → List TaskSummary
  unfolding oldest_first
  project_tasks events = Maps.values (foldl apply_task [] (oldest_first events))

  unfoldable pub accept_handoff : Event Value → HandoffSummary → HandoffSummary
  accept_handoff event h = record h {
    status = HandoffStatus.accepted;
    accepted_by = some (unwrap_or (string_metadata event.metadata_json "accepted_by") event.agent);
    updated_at = event.created_at;
    source_event_ids = h.source_event_ids ++ event.id ∷ [];
  }

  unfoldable pub complete_handoff : Event Value → HandoffSummary → HandoffSummary
  complete_handoff event h = record h {
    status = HandoffStatus.completed;
    updated_at = event.created_at;
    source_event_ids = h.source_event_ids ++ event.id ∷ [];
  }

  unfoldable pub requested_handoff : Event Value → ℕ → String → HandoffSummary
  requested_handoff event handoff_id to_agent = record {
    id = handoff_id;
    status = HandoffStatus.pending;
    content = event.content;
    from_agent = unwrap_or (string_metadata event.metadata_json "from") event.agent;
    to_agent = to_agent;
    accepted_by = none;
    created_at = event.created_at;
    updated_at = event.created_at;
    source_event_ids = event.id ∷ [];
  }

  unfoldable pub apply_handoff : Map HandoffSummary → Event Value → Map HandoffSummary
  apply_handoff handoffs event =
      let act = action event in
      let handoff_id = unwrap_or (referenced_id event "handoff_id" "handoff_ref") event.id in
      if is_text act "accepted"
      then Maps.modify handoff_id (accept_handoff event) handoffs
      else if is_text act "completed"
      then Maps.modify handoff_id (complete_handoff event) handoffs
      else elim (string_metadata event.metadata_json "to") [
        | none ↦ handoffs
        | some to_agent ↦
            Maps.or_insert handoff_id (requested_handoff event handoff_id to_agent) handoffs
      ]

  unfoldable pub project_handoffs : List (Event Value) → List HandoffSummary
  unfolding oldest_first
  project_handoffs events = Maps.values (foldl apply_handoff [] (oldest_first events))
