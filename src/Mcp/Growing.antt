-- ===== src/Mcp/Growing.antt =====
-- Each of the tools of src/mcp.rs only adds events, under the name of the server.
use shuttle_rs.Prelude.{ℕ, String, ◌≡◌, refl, List, [], ◌∷◌, ◌++◌, ◌+◌, All, All-append}
use shuttle_rs.Crates.{Crates}
use shuttle_rs.Core.{Event, Stamp, ok, >>=-eq-ok, new_event}
use shuttle_rs.Memory.Recall.{new_memory, new_typed_memory}
use shuttle_rs.Message.{new_message}
use shuttle_rs.Task.Events.{
  new_task, new_claim, new_task_update, new_task_done, new_handoff, new_handoff_accept,
  new_handoff_done,
}
use shuttle_rs.Collab.Events.{start_events, start_messages, nudge_event, pass_events}
use shuttle_rs.Store.Tables.{Sqlite, Tables, event_to_row}
use shuttle_rs.Store.Events.{event_store}
use shuttle_rs.Workflow.Project.{StepsCodec, start_event, action_event, workflow_event, run_by_id}
use shuttle_rs.Mcp.Commands.{
  McpRuntime, WorkflowAction, workflow_args, checked_action, perform, workflow_tool,
}
use shuttle_rs.Mcp.Answers.{McpCrates, Arm, store_event}
use shuttle_rs.Mcp.Tools.{memory_arms, message_arms, task_arms, handoff_arms, collab_arms}
use shuttle_rs.Mcp.Workflows.{workflow_arms, repo_arms, action_arm}
use shuttle_rs.Mcp.Requests.{arms}
use shuttle_rs.Mcp.Growth.{
  Own, Grown, Grows, WriteGrows, answering-Grows, reading-Grows, after_check-Grows,
  committing-Grows, store_event-WriteGrows, storing-Grows, store_each-Grows,
}

module _ (c : Crates) (q : Sqlite c) (runtime : McpRuntime) (stamps : ℕ → Stamp)
    (args : c.Value) where
  open c use {Value}

  -- The tools of some arms only add events of the server.
  pub record AllGrow (given : List (Arm c (event_store c q))) : Type 0 where
    pub all_grow : All (λ arm. Grows c q runtime arm.1) given

  join-AllGrow :
      {some_arms more : List (Arm c (event_store c q))}
      → AllGrow some_arms
      → AllGrow more
      → AllGrow (some_arms ++ more)
  join-AllGrow {some_arms} {more} h k = record {
    all_grow = All-append (λ arm. Grows c q runtime arm.1) some_arms more h.all_grow k.all_grow;
  }

  memory_arms-AllGrow : AllGrow (memory_arms c (event_store c q) runtime stamps args)
  unfolding memory_arms event_to_row new_memory new_typed_memory new_event
  memory_arms-AllGrow = record {
    all_grow = (
      after_check-Grows c q runtime _ (λ query. reading-Grows c q runtime _),
      (
        after_check-Grows c q runtime _
            (λ content. storing-Grows c q runtime (record { own = (refl, refl, refl) })),
        tt,
      ),
    );
  }

  message_arms-AllGrow : AllGrow (message_arms c (event_store c q) runtime stamps args)
  unfolding message_arms event_to_row new_message new_event
  message_arms-AllGrow = record {
    all_grow = (
      reading-Grows c q runtime _,
      (
        reading-Grows c q runtime _,
        (
          after_check-Grows c q runtime _ (λ to_agent.
              after_check-Grows c q runtime _
                (λ content. storing-Grows c q runtime (record { own = (refl, refl, refl) }))),
          tt,
        ),
      ),
    );
  }

  task_arms-AllGrow : AllGrow (task_arms c (event_store c q) runtime stamps args)
  unfolding task_arms event_to_row new_task new_claim new_task_update new_task_done new_event
  task_arms-AllGrow = record {
    all_grow = (
      reading-Grows c q runtime _,
      (
        after_check-Grows c q runtime _
            (λ content. storing-Grows c q runtime (record { own = (refl, refl, refl) })),
        (
          after_check-Grows c q runtime _ (λ id.
              after_check-Grows c q runtime _
                (λ exists. storing-Grows c q runtime (record { own = (refl, refl, refl) }))),
          (
            after_check-Grows c q runtime _ (λ id. after_check-Grows c q runtime _ (λ content.
                after_check-Grows c q runtime _
                  (λ exists. storing-Grows c q runtime (record { own = (refl, refl, refl) })))),
            (
              after_check-Grows c q runtime _ (λ id.
                  after_check-Grows c q runtime _
                    (λ exists. storing-Grows c q runtime (record { own = (refl, refl, refl) }))),
              tt,
            ),
          ),
        ),
      ),
    );
  }

  handoff_arms-AllGrow : AllGrow (handoff_arms c (event_store c q) runtime stamps args)
  unfolding handoff_arms event_to_row new_handoff new_handoff_accept new_handoff_done new_event
  handoff_arms-AllGrow = record {
    all_grow = (
      after_check-Grows c q runtime _ (λ to_agent.
          after_check-Grows c q runtime _
            (λ content. storing-Grows c q runtime (record { own = (refl, refl, refl) }))),
      (
        reading-Grows c q runtime _,
        (
          after_check-Grows c q runtime _ (λ id.
              after_check-Grows c q runtime _
                (λ exists. storing-Grows c q runtime (record { own = (refl, refl, refl) }))),
          (
            after_check-Grows c q runtime _ (λ id.
                after_check-Grows c q runtime _
                  (λ exists. storing-Grows c q runtime (record { own = (refl, refl, refl) }))),
            tt,
          ),
        ),
      ),
    );
  }

  start_messages-Own :
      (content : String) (k : ℕ) (agents : List String)
      → All (Own c q runtime) (
          start_messages c stamps k runtime.workspace_id runtime.agent runtime.session_id content
            agents)
  unfolding start_messages new_message new_event event_to_row
  start_messages-Own content k [] = tt
  start_messages-Own content k (agent ∷ agents) =
      (record { own = (refl, refl, refl) }, start_messages-Own content (k + 1) agents)

  collab_arms-AllGrow : AllGrow (collab_arms c (event_store c q) runtime stamps args)
  unfolding collab_arms event_to_row start_events new_task nudge_event pass_events new_message
      new_handoff new_task_update new_event
  collab_arms-AllGrow = record {
    all_grow = (
      after_check-Grows c q runtime _ (λ content.
          committing-Grows c q runtime
            (store_event-WriteGrows c q runtime (record { own = (refl, refl, refl) }))
            (λ task.
              store_each-Grows c q runtime _ (start_messages-Own _ _ _)
                (λ messages. answering-Grows c q runtime _))),
      (
        reading-Grows c q runtime _,
        (
          after_check-Grows c q runtime _ (λ to_agent. after_check-Grows c q runtime _ (λ content.
              committing-Grows c q runtime
                (store_event-WriteGrows c q runtime (record { own = (refl, refl, refl) }))
                (λ message. answering-Grows c q runtime _))),
          (
            after_check-Grows c q runtime _ (λ to_agent. after_check-Grows c q runtime _ (λ task_id.
                after_check-Grows c q runtime _ (λ note. after_check-Grows c q runtime _ (λ exists.
                  committing-Grows c q runtime
                    (store_event-WriteGrows c q runtime (record { own = (refl, refl, refl) }))
                    (λ update.
                      committing-Grows c q runtime
                        (store_event-WriteGrows c q runtime (record { own = (refl, refl, refl) }))
                        (λ handoff. answering-Grows c q runtime _)))))),
            tt,
          ),
        ),
      ),
    );
  }

  module _ (m : McpCrates c) (codec : StepsCodec c) (cwd : String) where
    perform-WriteGrows :
        (stamp : Stamp) (run_id : ℕ) (requested : WorkflowAction Value) (tables : Tables Value)
        (e : Event Value) (after : Tables Value)
        → perform c codec (event_store c q) runtime stamp run_id requested tables ≡ ok (e, after)
        → Grown c q runtime tables after
    unfolding perform store_event action_event workflow_event new_event event_to_row
    perform-WriteGrows stamp run_id requested tables e after h =
        let (r, read, h1) =
          >>=-eq-ok (run_by_id c codec (event_store c q) runtime.workspace_id run_id tables) _ h in
        let ((action, step_id, value), checked, h2) =
          >>=-eq-ok (checked_action c runtime.agent r requested) _ h1 in
        let plain =
          action_event c stamp runtime.workspace_id runtime.agent runtime.session_id run_id action
            step_id value in
        (store_event-WriteGrows c q runtime {e = plain}
            (record { own = (refl, refl, refl) })).write_grown
          tables e after h2

    workflow_tool-WriteGrows :
        (name : String)
        → WriteGrows c q runtime
            (workflow_tool c codec (event_store c q) runtime (stamps 0) name args)
    unfolding workflow_tool
    workflow_tool-WriteGrows name = record {
      write_grown = λ tables written after h.
          let ((run_id, requested), read, h1) = >>=-eq-ok (workflow_args c name args) _ h in
          perform-WriteGrows (stamps 0) run_id requested tables written after h1;
    }

    workflow_arms-AllGrow :
        AllGrow (workflow_arms c m codec (event_store c q) runtime cwd stamps args)
    unfolding workflow_arms start_event workflow_event new_event event_to_row
    workflow_arms-AllGrow = record {
      all_grow =
          let action : (name : String)
              → Grows c q runtime
                  (action_arm c m codec (event_store c q) runtime cwd stamps args name).1 =
            λ name.
              committing-Grows c q runtime (workflow_tool-WriteGrows name)
                (λ stored. answering-Grows c q runtime _) in
          (
            reading-Grows c q runtime _,
            (
              after_check-Grows c q runtime _
                  (λ workflow. storing-Grows c q runtime (record { own = (refl, refl, refl) })),
              (
                reading-Grows c q runtime _,
                (
                  action "shuttle_workflow_step_claim",
                  (
                    action "shuttle_workflow_step_complete",
                    (
                      action "shuttle_workflow_step_fail",
                      (
                        action "shuttle_workflow_reconcile",
                        (action "shuttle_workflow_complete", (action "shuttle_workflow_abort", tt)),
                      ),
                    ),
                  ),
                ),
              ),
            ),
          );
    }

    repo_arms-AllGrow : AllGrow (repo_arms c m codec (event_store c q) runtime cwd stamps args)
    unfolding repo_arms
    repo_arms-AllGrow = record {
      all_grow = let read = reading-Grows c q runtime in (read _, (read _, (read _, (read _, tt))));
    }

    pub arms-AllGrow : AllGrow (arms c m codec (event_store c q) runtime cwd stamps args)
    unfolding arms
    arms-AllGrow = join-AllGrow memory_arms-AllGrow (
        join-AllGrow message_arms-AllGrow (
          join-AllGrow task_arms-AllGrow (
            join-AllGrow handoff_arms-AllGrow (
              join-AllGrow collab_arms-AllGrow
                (join-AllGrow workflow_arms-AllGrow repo_arms-AllGrow)))))
