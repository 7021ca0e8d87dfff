-- ===== src/Collab/Events.antt =====
-- src/collab.rs: the events and the status of a collaboration.
use shuttle_rs.Prelude.{
  ℕ, String, none, some, List, [], ◌∷◌, ◌++◌, ◌+◌, Bool, true, false, not, ◌&&◌, ◌&◌, str_eq, trim,
  any, retain, take, if◌then◌else◌,
}
use shuttle_rs.Prelude.Sorting.{sort_by, by_descending}
use shuttle_rs.Crates.{Crates}
use shuttle_rs.Core.{Event, EventType, EventStore, Stamp, Result, ok, ◌>>=◌, default_filter}
use shuttle_rs.Message.{new_message}
use shuttle_rs.Task.Events.{
  TaskStatus, TaskSummary, HandoffSummary, new_task, new_task_update, new_handoff,
}
use shuttle_rs.Task.Queries.{tasks, handoffs, is_pending}

pub record CollabStart (V : Type 0) : Type 0 where
  pub task : Event V
  pub messages : List (Event V)

pub record CollabNudge (V : Type 0) : Type 0 where
  pub message : Event V

pub record CollabPass (V : Type 0) : Type 0 where
  pub task_update : Event V
  pub handoff : Event V

pub record CollabStatus (V : Type 0) : Type 0 where
  pub tasks : List TaskSummary
  pub pending_handoffs : List HandoffSummary
  pub recent_messages : List (Event V)

-- The loop of `normalized_agents`, with the names so far.
unfoldable pub normalize_from : List String → List String → List String
unfolding trim
normalize_from normalized [] = normalized
normalize_from normalized (name ∷ rest) =
    let agent = trim name in
    normalize_from
      (if not (str_eq agent "") && not (any (λ existing. str_eq existing agent) normalized)
        then normalized ++ agent ∷ []
        else normalized)
      rest

abbrev pub or_default : List String → List String
or_default [] = "codex" ∷ "claude" ∷ []
or_default (agent ∷ agents) = agent ∷ agents

unfoldable pub normalized_agents : List String → List String
unfolding normalize_from
normalized_agents agents = or_default (normalize_from [] agents)

module _ (c : Crates) where
  open c use {Value, text, texts, bool, insert_field, uuid_text}

  -- One message for each agent; the k-th takes the k-th stamp.
  unfoldable pub start_messages :
      (ℕ → Stamp) → ℕ → String → String → String → String → List String → List (Event Value)
  unfolding new_message
  start_messages stamps k workspace_id from_agent session_id content [] = []
  start_messages stamps k workspace_id from_agent session_id content (agent ∷ agents) =
      new_message c (stamps k) workspace_id from_agent session_id agent
        ("Collab task started: " & content)
      ∷ start_messages stamps (k + 1) workspace_id from_agent session_id content agents

  -- The first stamp is that of the task.
  unfoldable pub start_events :
      (ℕ → Stamp) → String → String → String → String → List String → CollabStart Value
  unfolding normalized_agents start_messages new_task
  start_events stamps workspace_id from_agent session_id content agents =
      let agents = normalized_agents agents in
      let task = new_task c (stamps 0) workspace_id from_agent session_id content in
      record {
        task = record task {
          metadata_json =
              insert_field (insert_field task.metadata_json "collab" (bool true)) "agents"
                (texts agents);
        };
        messages =
            start_messages stamps 1 workspace_id from_agent session_id content
              (retain (λ agent. not (str_eq agent from_agent)) agents);
      }

  unfoldable pub nudge_event :
      Stamp → String → String → String → String → String → CollabNudge Value
  unfolding new_message
  nudge_event stamp workspace_id from_agent session_id to_agent content = record {
    message = new_message c stamp workspace_id from_agent session_id to_agent content;
  }

  -- The stamps of the handoff and of the task update, in the order in which they are made.
  unfoldable pub pass_events :
      Stamp → Stamp → String → String → String → String → ℕ → String → CollabPass Value
  unfolding new_handoff new_task_update
  pass_events first second workspace_id from_agent session_id to_agent task_id note =
      let handoff = new_handoff c first workspace_id from_agent session_id to_agent note in
      record {
        task_update = new_task_update c second workspace_id from_agent session_id task_id note;
        handoff = record handoff {
          metadata_json =
              insert_field (insert_field handoff.metadata_json "collab" (bool true)) "task_id"
                (text (uuid_text task_id));
        };
      }

  abbrev is_unfinished : TaskSummary → Bool
  is_unfinished t = elim t.status [ TaskStatus.completed ↦ false | _ ↦ true ]

  unfoldable pub status :
      {S : Type 0} → EventStore S Value → String → S → Result (CollabStatus Value)
  unfolding tasks handoffs
  status s workspace_id state = do
    all_tasks ← tasks c s (some workspace_id) none state
    all_handoffs ← handoffs c s (some workspace_id) none state
    recent_messages ←
        s.list
          (record default_filter {
            event_type = some EventType.message;
            workspace_id = some workspace_id;
            limit = some 20;
          })
          state
    ok (record {
      tasks = take 20 (retain is_unfinished all_tasks);
      pending_handoffs = take 20 (retain is_pending all_handoffs);
      recent_messages =
          take 20 (sort_by (by_descending (λ e. e.created_at) (λ e. e.id)) recent_messages);
    })
