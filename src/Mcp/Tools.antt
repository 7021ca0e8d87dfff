-- ===== src/Mcp/Tools.antt =====
-- src/mcp.rs: the tools, by the arms of the `match` of `call_tool`.
use shuttle_rs.Prelude.{
  ℕ, String, Option, none, some, List, [], ◌∷◌, and_then, unwrap_or, map, filter_map, trim,
  split_at,
}
use shuttle_rs.Crates.{Crates}
use shuttle_rs.Core.{Event, EventStore, Stamp, ok, ◌>>=◌}
use shuttle_rs.Memory.Recall.{recall, new_memory}
use shuttle_rs.Message.{inbox, history, new_message}
use shuttle_rs.Task.Events.{
  new_task, new_claim, new_task_update, new_task_done, new_handoff, new_handoff_accept,
  new_handoff_done,
}
use shuttle_rs.Task.Queries
use shuttle_rs.Task.Queries.{ensure_task_exists, ensure_handoff_exists}
use shuttle_rs.Collab.Events
use shuttle_rs.Collab.Events.{start_events, nudge_event, pass_events}
use shuttle_rs.Mcp.Commands.{McpRuntime, string_arg, uuid_arg}
use shuttle_rs.Mcp.Answers.{
  events_answer, tasks_answer, handoffs_answer, collab_start_answer, collab_status_answer,
  collab_nudge_answer, collab_pass_answer, Tool, Arm, answering, reading, after_check, committing,
  store_event, storing, store_each,
}

module _ (c : Crates) where
  open c use {Value, get, as_str, as_array}

  abbrev given_list : Value → Option (List Value) → Option (List String)
  given_list value (some items) = some (filter_map as_str items)
  given_list value none = and_then (as_str value) (λ items. some (map trim (split_at b',' items)))

  unfoldable pub string_list_arg : Value → String → Option (List String)
  unfolding trim
  string_list_arg args name = and_then (get args name) (λ value. given_list value (as_array value))

  -- The calls of `Uuid::new_v4` and `Utc::now` get the stamps in their order.
  module _ {S : Type 0} (s : EventStore S Value) (runtime : McpRuntime) (stamps : ℕ → Stamp)
      (args : Value) where
    -- `string_arg(&args, name)?` and the parsed identifier
    abbrev text_given : String → (String → Tool c s) → Tool c s
    text_given name = after_check c s (λ state. string_arg c args name)

    abbrev id_given : String → (ℕ → Tool c s) → Tool c s
    id_given name = after_check c s (λ state. uuid_arg c args name)

    abbrev ws : String
    ws = runtime.workspace_id

    unfoldable pub memory_arms : List (Arm c s)
    unfolding string_arg recall new_memory
    memory_arms =
        (
          "shuttle_memory_search" ∷ "recall" ∷ [],
          text_given "query" (λ query.
              reading c s (λ state. do found ← recall s query state; ok (events_answer found))),
        )
        ∷ (
          "shuttle_memory_store" ∷ "remember" ∷ [],
          text_given "content" (λ content.
              storing c s runtime
                (new_memory c (stamps 0) ws runtime.agent runtime.session_id content)),
        )
        ∷ []

    unfoldable pub message_arms : List (Arm c s)
    unfolding string_arg inbox history new_message
    message_arms =
        (
          "shuttle_message_inbox" ∷ "inbox" ∷ [],
          reading c s (λ state. do
            found ← inbox s (unwrap_or (and_then (get args "agent") as_str) runtime.agent) state
            ok (events_answer found)),
        )
        ∷ (
          "shuttle_message_history" ∷ "history" ∷ [],
          reading c s (λ state. do found ← history s state; ok (events_answer found)),
        )
        ∷ (
          "shuttle_message_send" ∷ "send" ∷ [],
          text_given "agent" (λ to_agent. text_given "content" (λ content.
              storing c s runtime
                (new_message c (stamps 0) ws runtime.agent runtime.session_id to_agent content))),
        )
        ∷ []

    -- A tool that stores an event of a task that exists.
    abbrev for_task : ℕ → Event Value → Tool c s
    for_task id event =
        after_check c s (ensure_task_exists c s ws id) (λ exists. storing c s runtime event)

    unfoldable pub task_arms : List (Arm c s)
    unfolding string_arg uuid_arg ensure_task_exists Queries.tasks new_task new_claim
        new_task_update new_task_done
    task_arms =
        (
          "shuttle_task_list" ∷ "tasks" ∷ [],
          reading c s
              (λ state. do found ← Queries.tasks c s (some ws) none state; ok (tasks_answer found)),
        )
        ∷ (
          "shuttle_task_create" ∷ [],
          text_given "content" (λ content.
              storing c s runtime
                (new_task c (stamps 0) ws runtime.agent runtime.session_id content)),
        )
        ∷ (
          "shuttle_task_claim" ∷ [],
          id_given "id"
              (λ id. for_task id (new_claim c (stamps 0) ws runtime.agent runtime.session_id id)),
        )
        ∷ (
          "shuttle_task_update" ∷ [],
          id_given "id" (λ id. text_given "content" (λ content.
              for_task id
                (new_task_update c (stamps 0) ws runtime.agent runtime.session_id id content))),
        )
        ∷ (
          "shuttle_task_done" ∷ [],
          id_given "id" (λ id.
              for_task id (new_task_done c (stamps 0) ws runtime.agent runtime.session_id id)),
        )
        ∷ []

    -- A tool that stores an event of a handoff that exists.
    abbrev for_handoff : ℕ → Event Value → Tool c s
    for_handoff id event =
        after_check c s (ensure_handoff_exists c s ws id) (λ exists. storing c s runtime event)

    unfoldable pub handoff_arms : List (Arm c s)
    unfolding string_arg uuid_arg ensure_handoff_exists Queries.handoffs new_handoff
        new_handoff_accept new_handoff_done
    handoff_arms =
        (
          "shuttle_handoff_request" ∷ [],
          text_given "agent" (λ to_agent. text_given "content" (λ content.
              storing c s runtime
                (new_handoff c (stamps 0) ws runtime.agent runtime.session_id to_agent content))),
        )
        ∷ (
          "shuttle_handoff_list" ∷ [],
          reading c s (λ state. do
            found ← Queries.handoffs c s (some ws) none state
            ok (handoffs_answer found)),
        )
        ∷ (
          "shuttle_handoff_accept" ∷ [],
          id_given "id" (λ id.
              for_handoff id
                (new_handoff_accept c (stamps 0) ws runtime.agent runtime.session_id id)),
        )
        ∷ (
          "shuttle_handoff_done" ∷ [],
          id_given "id" (λ id.
              for_handoff id
                (new_handoff_done c (stamps 0) ws runtime.agent runtime.session_id id)),
        )
        ∷ []

    unfoldable pub collab_arms : List (Arm c s)
    unfolding string_arg string_list_arg uuid_arg start_events store_each nudge_event pass_events
        Events.status ensure_task_exists
    collab_arms =
        (
          "shuttle_collab_start" ∷ [],
          text_given "content" (λ content.
              let agents = unwrap_or (string_list_arg args "agents") ("codex" ∷ "claude" ∷ []) in
              let start =
                start_events c stamps ws runtime.agent runtime.session_id content agents in
              committing c s (store_event c s runtime start.task) (λ task.
                store_each c s runtime start.messages (λ messages.
                  answering c s
                    (collab_start_answer (record { task = task; messages = messages }))))),
        )
        ∷ (
          "shuttle_collab_status" ∷ [],
          reading c s
              (λ state. do found ← Events.status c s ws state; ok (collab_status_answer found)),
        )
        ∷ (
          "shuttle_collab_nudge" ∷ [],
          text_given "agent" (λ to_agent. text_given "content" (λ content.
              let nudge =
                nudge_event c (stamps 0) ws runtime.agent runtime.session_id to_agent content in
              committing c s (store_event c s runtime nudge.message)
                (λ message. answering c s (collab_nudge_answer (record { message = message }))))),
        )
        ∷ (
          "shuttle_collab_pass" ∷ [],
          text_given "agent" (λ to_agent. id_given "task_id" (λ task_id. text_given "note" (λ note.
              after_check c s (ensure_task_exists c s ws task_id) (λ exists.
                let pass =
                  pass_events c (stamps 0) (stamps 1) ws runtime.agent runtime.session_id to_agent
                    task_id note in
                committing c s (store_event c s runtime pass.task_update) (λ task_update.
                  committing c s (store_event c s runtime pass.handoff) (λ handoff. answering c s (
                    collab_pass_answer
                      (record { task_update = task_update; handoff = handoff })))))))),
        )
        ∷ []
