-- ===== src/Mcp/Workflows.antt =====
-- src/mcp.rs: the tools of workflows and of the repository, by the arms of the `match` of `call_tool`.
use shuttle_rs.Prelude.{
  ℕ, String, Option, none, some, List, [], ◌∷◌, not, if◌then◌else◌, and_then, unwrap_or, retain,
  length, lines, is_blank, take_chars, leb, ltb,
}
use shuttle_rs.Prelude.Bytes.{as_bytes}
use shuttle_rs.Crates.{Crates}
use shuttle_rs.Core.{EventStore, Stamp, Result, ok, store, ok_or, ◌>>=◌}
use shuttle_rs.Context.Status.{git}
use shuttle_rs.Context.Assemble.{assemble_context}
use shuttle_rs.Workflow.Manifest.{definition}
use shuttle_rs.Workflow.Load.{load_manifest}
use shuttle_rs.Workflow.Project.{StepsCodec, start_event, runs, run_by_id}
use shuttle_rs.Mcp.Commands.{McpRuntime, string_arg, workflow_tool}
use shuttle_rs.Mcp.Answers.{
  Answer, event_answer, workflows_answer, run_answer, runs_answer, context_answer,
  repo_status_answer, value_answer, McpCrates, Arm, answering, reading, after_check, committing,
  storing,
}

abbrev min : ℕ → ℕ → ℕ
min a b = if leb a b then a else b

module _ (c : Crates) (m : McpCrates c) (codec : StepsCodec c) {S : Type 0}
    (s : EventStore S c.Value) (runtime : McpRuntime) (cwd : String) (stamps : ℕ → Stamp)
    (args : c.Value) where
  open c use {Value, text, texts, bool, object, get, as_str, as_u64, parse_str, parse_error}

  -- The run that the arguments name, or else all of them.
  unfoldable pub status_of : Option String → S → Result (Answer Value)
  unfolding run_by_id runs
  status_of none state = do
    found ← runs c codec s runtime.workspace_id state
    ok (runs_answer found)
  status_of (some given) state = do
    run_id ← ok_or (parse_str given) (store (parse_error given))
    found ← run_by_id c codec s runtime.workspace_id run_id state
    ok (run_answer found)

  -- An arm for an action on a run.
  abbrev pub action_arm : String → Arm c s
  action_arm name = (
    name ∷ [],
    committing c s (workflow_tool c codec s runtime (stamps 0) name args)
        (λ stored. answering c s (event_answer stored)),
  )

  unfoldable pub workflow_arms : List (Arm c s)
  unfolding string_arg load_manifest definition start_event status_of workflow_tool
  workflow_arms =
      (
        "shuttle_workflow_list" ∷ [],
        reading c s (λ state. do
          status ← runtime.status
          manifest ← load_manifest m.disk status.repo_path
          ok (workflows_answer manifest.workflows)),
      )
      ∷ (
        "shuttle_workflow_start" ∷ [],
        after_check c s
            (λ state. do
              workflow_id ← string_arg c args "workflow_id"
              status ← runtime.status
              manifest ← load_manifest m.disk status.repo_path
              definition manifest workflow_id)
            (λ workflow. storing c s runtime (
              start_event c (stamps 1) codec (stamps 0).new_id runtime.workspace_id runtime.agent
                runtime.session_id workflow (unwrap_or (get args "input") (object [])))),
      )
      ∷ (
        "shuttle_workflow_status" ∷ [],
        reading c s (status_of (and_then (get args "run_id") as_str)),
      )
      ∷ action_arm "shuttle_workflow_step_claim"
      ∷ action_arm "shuttle_workflow_step_complete"
      ∷ action_arm "shuttle_workflow_step_fail"
      ∷ action_arm "shuttle_workflow_reconcile"
      ∷ action_arm "shuttle_workflow_complete"
      ∷ action_arm "shuttle_workflow_abort"
      ∷ []

  -- A diff that has more bytes than allowed is cut to as many characters.
  unfoldable pub diff_value : ℕ → String → Value
  unfolding as_bytes
  diff_value max_bytes diff =
      let truncated = ltb max_bytes (length (as_bytes diff)) in
      object (
        ("diff", text (if truncated then take_chars max_bytes diff else diff))
        ∷ ("truncated", bool truncated)
        ∷ [])

  abbrev diff_arguments : Option String → List String
  diff_arguments none = "diff" ∷ []
  diff_arguments (some path) = "diff" ∷ "--" ∷ path ∷ []

  unfoldable pub repo_arms : List (Arm c s)
  unfolding assemble_context git diff_value is_blank
  repo_arms =
      (
        "shuttle_repo_context" ∷ "context" ∷ [],
        reading c s (λ state. do
          found ← assemble_context c codec s runtime.status runtime.workspace_id runtime.agent state
          ok (context_answer found)),
      )
      ∷ (
        "shuttle_repo_status" ∷ [],
        reading c s (λ state. do status ← runtime.status; ok (repo_status_answer status)),
      )
      ∷ (
        "shuttle_repo_changed_files" ∷ [],
        reading c s (λ state. do
          files ← git m.command cwd ("diff" ∷ "--name-only" ∷ [])
          ok (
              value_answer (
                object
                  (("files", texts (retain (λ line. not (is_blank line)) (lines files))) ∷ [])))),
      )
      ∷ (
        "shuttle_repo_diff" ∷ [],
        reading c s (λ state. do
          let max_bytes = min (unwrap_or (and_then (get args "max_bytes") as_u64) 60_000) 200_000
          diff ← git m.command cwd (diff_arguments (and_then (get args "path") as_str))
          ok (value_answer (diff_value max_bytes diff))),
      )
      ∷ []
