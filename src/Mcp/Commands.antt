-- ===== src/Mcp/Commands.antt =====
-- src/mcp.rs: the tools that act on a run of a workflow. A tool reads its arguments, and then performs
-- an action: the run is read, the action is checked on it, and its event is appended.
use shuttle_rs.Prelude.{
  ℕ, String, Option, none, some, [], ◌∷◌, Bool, false, not, ◌&◌, str_eq, if◌then◌else◌, and_then,
  unwrap_or, is_text,
}
use shuttle_rs.Crates.{Crates}
use shuttle_rs.Core.{
  ok_value, Event, EventStore, Stamp, Result, ok, store, ok_or, reject_if, ◌>>=◌, ◌>>◌,
}
use shuttle_rs.Context.{RepoStatus, with_repo_metadata}
use shuttle_rs.Workflow.Run.{
  WorkflowRun, validate_claim, validate_complete, validate_step_claimed, validate_reconcile,
  validate_run_complete,
}
use shuttle_rs.Workflow.Project.{StepsCodec, action_event, run_by_id}

-- The runtime, less its store; `status` is what `repo_status` returns of its directory.
pub record McpRuntime : Type 0 where
  pub status : Result RepoStatus
  pub workspace_id : String
  pub agent : String
  pub session_id : String

-- The arguments that the tools read.
pub data WorkflowAction (V : Type 0) : Type 0 where
  claim_step : (step_id : String) (takeover : Bool) → WorkflowAction V
  complete_step : (step_id : String) (approval : Option String) (output : V) → WorkflowAction V
  fail_step : (step_id : String) (error : Option V) → WorkflowAction V
  reconcile_step : (step_id : String) (approval : Option String) (output : V) → WorkflowAction V
  complete_run abort_run : WorkflowAction V

module _ (c : Crates) where
  open c use {Value, null, text, bool, object, get, as_str, as_bool, parse_str, parse_error}

  unfoldable pub string_arg : Value → String → Result String
  string_arg args name =
      ok_or (and_then (get args name) as_str) (store ("missing string argument: " & name))

  -- `Uuid::parse_str(&string_arg(&args, name)?)`
  unfoldable pub uuid_arg : Value → String → Result ℕ
  unfolding string_arg
  uuid_arg args name = do
    given ← string_arg args name
    ok_or (parse_str given) (store (parse_error given))

  -- The run and the action that the arguments of a tool name.
  unfoldable pub workflow_args : String → Value → Result (ℕ × WorkflowAction Value)
  unfolding string_arg uuid_arg
  workflow_args name args = do
    run_id ← uuid_arg args "run_id"
    let approval = and_then (get args "approval") as_str
    let output = unwrap_or (get args "output") (object [])
    if str_eq name "shuttle_workflow_step_claim"
        then (do
          step_id ← string_arg args "step_id"
          ok (
            run_id,
            claim_step step_id (unwrap_or (and_then (get args "takeover") as_bool) false),
          ))
        else if str_eq name "shuttle_workflow_step_complete"
        then (do
          step_id ← string_arg args "step_id"
          ok (run_id, complete_step step_id approval output))
        else if str_eq name "shuttle_workflow_step_fail"
        then (do
          step_id ← string_arg args "step_id"
          ok (run_id, fail_step step_id (get args "error")))
        else if str_eq name "shuttle_workflow_reconcile"
        then (do
          step_id ← string_arg args "step_id"
          ok (run_id, reconcile_step step_id approval output))
        else if str_eq name "shuttle_workflow_complete"
        then ok (run_id, complete_run)
        else ok (run_id, abort_run)

  -- `json!({ "output": .., "approval": approval })`
  abbrev pub checkpoint : Option String → Value → Value
  checkpoint none output = object (("output", output) ∷ ("approval", null) ∷ [])
  checkpoint (some approval) output = object (("output", output) ∷ ("approval", text approval) ∷ [])

  -- The check of an action on a run: the name of the event's action, its step and its value.
  unfoldable pub checked_action :
      String
      → WorkflowRun Value
      → WorkflowAction Value
      → Result (String × Option String × Option Value)
  unfolding validate_claim validate_complete validate_step_claimed validate_reconcile
      validate_run_complete
  checked_action agent run (claim_step step_id takeover) = do
    action ← validate_claim c run step_id takeover
    ok (action, some step_id, some (object (("takeover", bool takeover) ∷ [])))
  checked_action agent run (complete_step step_id approval output) = do
    validate_complete c run step_id agent approval
    ok ("completed_step", some step_id, some (checkpoint approval output))
  checked_action agent run (fail_step step_id error) = do
    step ← validate_step_claimed c run step_id
    reject_if (not (is_text step.claimed_by agent))
        (store "workflow step is claimed by another agent; use takeover first")
    ok ("failed_step", some step_id, error)
  checked_action agent run (reconcile_step step_id approval output) = do
    validate_reconcile c run step_id approval
    ok ("reconciled", some step_id, some (checkpoint approval output))
  checked_action agent run complete_run = do
    validate_run_complete c run
    ok ("completed", none, none)
  checked_action agent run abort_run = ok ("aborted", none, none)

  module _ (codec : StepsCodec c) {S : Type 0} (s : EventStore S Value) where
    unfoldable pub perform :
        McpRuntime → Stamp → ℕ → WorkflowAction Value → S → Result (Event Value × S)
    unfolding run_by_id checked_action action_event with_repo_metadata
    perform runtime stamp run_id requested state = do
      run ← run_by_id c codec s runtime.workspace_id run_id state
      (action, step_id, value) ← checked_action runtime.agent run requested
      let event =
          action_event c stamp runtime.workspace_id runtime.agent runtime.session_id run_id action
            step_id value
      s.append (with_repo_metadata c event (ok_value runtime.status)) state

    unfoldable pub workflow_tool :
        McpRuntime → Stamp → String → Value → S → Result (Event Value × S)
    unfolding workflow_args perform
    workflow_tool runtime stamp name args state = do
      (run_id, requested) ← workflow_args name args
      perform runtime stamp run_id requested state
