-- ===== src/Workflow/Run.antt =====
-- src/workflow.rs: runs of workflows, and the checks that guard the actions on a run.
use shuttle_rs.Prelude.{
  ℕ, String, Option, none, some, List, Bool, true, false, not, ◌&&◌, ◌&◌, str_eq, if◌then◌else◌,
  is_text, any, find, is_blank, and_then, unwrap_or,
}
use shuttle_rs.Crates.{Crates}
use shuttle_rs.Core.{Result, ok, store, ◌>>=◌, ◌>>◌, ok_or, reject_if}
use shuttle_rs.Workflow.Manifest.{StepKind, non_idempotent, invalid}

pub data RunStatus : Type 0 where
  active needs_reconcile failed completed aborted : RunStatus

pub data StepStatus : Type 0 where
  pending claimed completed failed needs_reconcile : StepStatus

-- `V` is the type of JSON values.
pub record StepSummary (V : Type 0) : Type 0 where
  pub id : String
  pub title : String
  pub kind : StepKind
  pub approval_required : Bool
  pub status : StepStatus
  pub claimed_by : Option String
  pub output : Option V

pub record WorkflowRun (V : Type 0) : Type 0 where
  pub id : ℕ
  pub workflow_id : String
  pub title : String
  pub spec : String
  pub status : RunStatus
  pub input : V
  pub steps : List (StepSummary V)
  pub current_step : Option String
  pub created_at : ℕ
  pub updated_at : ℕ
  pub source_event_ids : List ℕ

abbrev pub is_completed : StepStatus → Bool
is_completed StepStatus.completed = true
is_completed _ = false

abbrev pub is_claimed : StepStatus → Bool
is_claimed StepStatus.claimed = true
is_claimed _ = false

abbrev pub is_needs_reconcile : StepStatus → Bool
is_needs_reconcile StepStatus.needs_reconcile = true
is_needs_reconcile _ = false

abbrev pub is_non_idempotent : StepKind → Bool
is_non_idempotent non_idempotent = true
is_non_idempotent _ = false

-- `matches!(status, Active | NeedsReconcile | Failed)`
abbrev pub is_live : RunStatus → Bool
is_live RunStatus.active = true
is_live RunStatus.needs_reconcile = true
is_live RunStatus.failed = true
is_live _ = false

-- `if run.status == RunStatus::Failed { run.status = RunStatus::Active; }`
abbrev pub recovered : RunStatus → RunStatus
recovered RunStatus.failed = RunStatus.active
recovered status = status

-- `approval.is_none_or(|approval| approval.trim().is_empty())`
abbrev pub lacks_approval : Option String → Bool
lacks_approval none = true
lacks_approval (some approval) = is_blank approval

module _ {V : Type 0} where
  abbrev pub named : String → StepSummary V → Bool
  named step_id step = str_eq step.id step_id

  abbrev pub is_open : StepSummary V → Bool
  is_open step = not (is_completed step.status)

module _ (c : Crates) where
  open c use {Value, uuid_text}

  -- The `match expected.status` of `validate_claim_for_agent`.
  unfoldable pub claim_action :
      WorkflowRun Value → StepStatus → String → Bool → Option String → Result String
  claim_action run StepStatus.pending step_id true agent =
      invalid ("workflow step " & step_id & " is not claimed; claim it without takeover")
  claim_action run StepStatus.failed step_id true agent =
      invalid ("workflow step " & step_id & " is not claimed; claim it without takeover")
  claim_action run StepStatus.pending step_id false agent = ok "claimed"
  claim_action run StepStatus.failed step_id false agent = ok "reclaimed"
  claim_action run StepStatus.claimed step_id true agent = ok "taken_over"
  claim_action run StepStatus.claimed step_id false agent =
      if elim agent [
        | none ↦ false
        | some a ↦ is_text (and_then (find (named step_id) run.steps) (λ s. s.claimed_by)) a
      ]
      then ok "claimed"
      else invalid ("workflow step " & step_id & " is already claimed")
  claim_action run StepStatus.needs_reconcile step_id takeover agent =
      invalid ("workflow step " & step_id & " needs reconciliation")
  -- `unreachable!()`: the step was found as one that is not completed
  claim_action run StepStatus.completed step_id takeover agent = invalid "unreachable"

  unfoldable pub validate_claim_for_agent :
      WorkflowRun Value → String → Bool → Option String → Result String
  unfolding claim_action
  validate_claim_for_agent run step_id takeover agent = do
    reject_if (not (is_live run.status))
        (store ("workflow run " & uuid_text run.id & " is not active"))
    expected ← ok_or (find is_open run.steps) (store "all workflow steps are completed")
    reject_if (not (str_eq expected.id step_id))
        (store ("next workflow step is " & expected.id & ", not " & step_id))
    claim_action run expected.status step_id takeover agent

  unfoldable pub validate_claim : WorkflowRun Value → String → Bool → Result String
  unfolding validate_claim_for_agent
  validate_claim run step_id takeover = validate_claim_for_agent run step_id takeover none

  unfoldable pub validate_reconcile : WorkflowRun Value → String → Option String → Result (Unit {0})
  validate_reconcile run step_id approval = do
    step ← ok_or (find (named step_id) run.steps) (store ("unknown workflow step: " & step_id))
    reject_if (not (is_needs_reconcile step.status))
        (store ("workflow step " & step_id & " does not need reconciliation"))
    reject_if (step.approval_required && lacks_approval approval)
        (store ("workflow step " & step_id & " requires approval evidence"))
    ok tt

  unfoldable pub validate_step_claimed : WorkflowRun Value → String → Result (StepSummary Value)
  validate_step_claimed run step_id = do
    step ← ok_or (find (named step_id) run.steps) (store ("unknown workflow step: " & step_id))
    reject_if (not (is_claimed step.status))
        (store ("workflow step " & step_id & " is not claimed"))
    ok step

  unfoldable pub validate_complete :
      WorkflowRun Value → String → String → Option String → Result (Unit {0})
  unfolding validate_step_claimed
  validate_complete run step_id agent approval = do
    step ← validate_step_claimed run step_id
    reject_if (not (is_text step.claimed_by agent)) (
        store (
          "workflow step "
          & step_id
          & " is claimed by "
          & unwrap_or step.claimed_by "unknown"
          & "; use takeover before completing it"))
    reject_if (step.approval_required && lacks_approval approval)
        (store ("workflow step " & step_id & " requires approval evidence"))
    ok tt

  unfoldable pub validate_run_complete : WorkflowRun Value → Result (Unit {0})
  validate_run_complete run = do
    reject_if (any is_open run.steps) (store "workflow still has incomplete steps")
    ok tt
