-- ===== src/Tests/WorkflowTests.antt =====
-- The theorems on src/workflow.rs at a workflow of two steps, and runs of its functions.
use shuttle_rs.Prelude.{
  ℕ, String, ◌≡◌, refl, Option, none, some, List, [], ◌∷◌, Bool, true, false, ◌↔◌, ◌⊎◌, find, inl,
  inr, is_blank,
}
use shuttle_rs.Crates.{field}
use shuttle_rs.Core.{Event, EventType, Stamp, ok}
use shuttle_rs.Workflow.Manifest.{
  StepKind, FilePath, Component, WorkflowStep, WorkflowDefinition, WorkflowManifest,
  validate_manifest,
}
use shuttle_rs.Workflow.Run.{
  RunStatus, StepStatus, StepSummary, WorkflowRun, named, is_live, is_open, is_claimed,
  is_needs_reconcile, validate_claim_for_agent, validate_complete, validate_reconcile,
  lacks_approval,
}
use shuttle_rs.Workflow.Project.{
  metadata_uuid, metadata_string, start_event, started_run, apply_action, apply_step_action,
  pending_step,
}
use shuttle_rs.Workflow.Valid.{IsValidWorkflow, IsValidManifest, validate_manifest_iff}
use shuttle_rs.Workflow.Claims.{
  MayClaim, IsApproved, validate_claim_for_agent_iff, validate_complete_iff, validate_reconcile_iff,
}
use shuttle_rs.Workflow.Protocol.{Step, claim, reconcile, Reach, here, next, IsOrderly}
use shuttle_rs.Workflow.Start.{started_run-start_event, workflow_in_order}
use shuttle_rs.Workflow.Effects.{
  needs_reconcile_blocks, claim_effect, ReconciledBy, ClaimedBy, aborted_run_revives,
}
use shuttle_rs.Tests.Sample.{Json, crates, codec}

abbrev stamp : ℕ → Stamp
stamp n = record { new_id = n; now = n }

abbrev read_step : WorkflowStep
read_step = record {
  id = "read";
  title = "Read";
  kind = StepKind.read_only;
  approval_required = false;
}

abbrev write_step : WorkflowStep
write_step = record {
  id = "write";
  title = "Write";
  kind = StepKind.non_idempotent;
  approval_required = true;
}

abbrev pub triage : WorkflowDefinition
triage = record {
  id = "daily-triage";
  title = "Daily triage";
  spec = record {
    text = "docs/spec.md";
    components = Component.normal "docs" ∷ Component.normal "spec.md" ∷ [];
  };
  steps = read_step ∷ write_step ∷ [];
}

abbrev manifest : WorkflowManifest
manifest = record { version = 1; workflows = triage ∷ [] }

abbrev every_file : FilePath → Bool
every_file path = true

triage-IsValid : IsValidWorkflow every_file triage
triage-IsValid = record {
  id = refl;
  inside = (refl, refl);
  file = refl;
  nonempty = refl;
  step_ids = (refl, (refl, tt));
  distinct = ((refl, tt), (tt, tt));
}

abbrev step_at : WorkflowStep → StepStatus → Option String → StepSummary Json
step_at step status owner = record {
  id = step.id;
  title = step.title;
  kind = step.kind;
  approval_required = step.approval_required;
  status = status;
  claimed_by = owner;
  output = none;
}

abbrev run_at : RunStatus → List (StepSummary Json) → WorkflowRun Json
run_at status steps = record {
  id = 1;
  workflow_id = "daily-triage";
  title = "Daily triage";
  spec = "docs/spec.md";
  status = status;
  input = Json.null;
  steps = steps;
  current_step = none;
  created_at = 1;
  updated_at = 1;
  source_event_ids = 1 ∷ [];
}

-- The first step is done, and codex has claimed the second.
abbrev writing : StepStatus → RunStatus → WorkflowRun Json
writing status run_status = run_at run_status (
    step_at read_step StepStatus.completed (some "claude")
    ∷ step_at write_step status (some "codex")
    ∷ [])

abbrev event_of : String → String → String → Event Json
event_of agent action step_id = record {
  id = 7;
  event_type = EventType.workflow;
  workspace_id = "ws";
  repo_id = none;
  repo_path = none;
  git_remote = none;
  bit_repo_id = none;
  branch = none;
  commit = none;
  repo_dirty = none;
  agent = agent;
  session_id = "s";
  title = none;
  content = "";
  tags = [];
  metadata_json =
      crates.object (("action", Json.text action) ∷ ("step_id", Json.text step_id) ∷ []);
  created_at = 9;
}

validate_manifest_iff_example :
    (validate_manifest (λ n. "1") every_file manifest ≡ ok tt) ↔ IsValidManifest every_file manifest
validate_manifest_iff_example = validate_manifest_iff every_file (λ n. "1") manifest

manifest_accepted : validate_manifest (λ n. "1") every_file manifest ≡ ok tt
unfolding validate_manifest
manifest_accepted = refl

validate_claim_for_agent_iff_example :
    (validate_claim_for_agent crates
        (writing StepStatus.claimed RunStatus.active)
        "write"
        false
        (some "codex")
      ≡ ok "claimed")
    ↔ ((is_live RunStatus.active ≡ true)
        × ((s : StepSummary Json) × (find is_open
                (writing StepStatus.claimed RunStatus.active).steps
              ≡ some s)
            × (s.id ≡ "write")
            × MayClaim
                (writing StepStatus.claimed RunStatus.active)
                "write"
                (some "codex")
                s.status
                false
                "claimed"))
validate_claim_for_agent_iff_example =
    validate_claim_for_agent_iff crates (writing StepStatus.claimed RunStatus.active) "write" false
      (some "codex") "claimed"

own_claim_retried :
    validate_claim_for_agent crates
      (writing StepStatus.claimed RunStatus.active)
      "write"
      false
      (some "codex")
    ≡ ok "claimed"
unfolding validate_claim_for_agent
own_claim_retried = refl

validate_complete_iff_example :
    (validate_complete crates
        (writing StepStatus.claimed RunStatus.active)
        "write"
        "codex"
        (some "yes")
      ≡ ok tt)
    ↔ ((s : StepSummary Json) × (find
            (named "write")
            (writing StepStatus.claimed RunStatus.active).steps
          ≡ some s)
        × (is_claimed s.status ≡ true)
        × (s.claimed_by ≡ some "codex")
        × IsApproved crates (writing StepStatus.claimed RunStatus.active) "write" s (some "yes"))
validate_complete_iff_example =
    validate_complete_iff crates (writing StepStatus.claimed RunStatus.active) "write" "codex"
      (some "yes")

validate_reconcile_iff_example :
    (validate_reconcile crates
        (writing StepStatus.needs_reconcile RunStatus.needs_reconcile)
        "write"
        (some "yes")
      ≡ ok tt)
    ↔ ((s : StepSummary Json) × (find
            (named "write")
            (writing StepStatus.needs_reconcile RunStatus.needs_reconcile).steps
          ≡ some s)
        × (is_needs_reconcile s.status ≡ true)
        × IsApproved crates
            (writing StepStatus.needs_reconcile RunStatus.needs_reconcile)
            "write"
            s
            (some "yes"))
validate_reconcile_iff_example =
    validate_reconcile_iff crates (writing StepStatus.needs_reconcile RunStatus.needs_reconcile)
      "write" (some "yes")

-- The run after claude has taken the second step over: it may not be repeated.
abbrev taken : WorkflowRun Json
taken =
    record (run_at RunStatus.needs_reconcile (
      step_at read_step StepStatus.completed (some "claude")
      ∷ step_at write_step StepStatus.needs_reconcile (some "claude")
      ∷ [])) { current_step = some "write"; updated_at = 9; source_event_ids = 1 ∷ 7 ∷ [] }

claim_effect_example :
    (old : StepSummary Json) × (find
        (named "write")
        (writing StepStatus.claimed RunStatus.active).steps
      ≡ some old)
    × (taken.current_step ≡ some "write")
    × ClaimedBy taken "write" old "taken_over" "claude"
unfolding validate_claim_for_agent apply_action apply_step_action metadata_string
claim_effect_example =
    claim_effect crates (writing StepStatus.claimed RunStatus.active)
      (event_of "claude" "taken_over" "write") "write" true none "taken_over" refl refl refl

abbrev done_value : Event Json
done_value = event_of "codex" "reconciled" "write"

abbrev reconciled_taken : WorkflowRun Json
reconciled_taken = record taken {
  steps =
      step_at read_step StepStatus.completed (some "claude")
      ∷ step_at write_step StepStatus.completed (some "claude")
      ∷ [];
  status = RunStatus.active;
  current_step = none;
  updated_at = 9;
  source_event_ids = 1 ∷ 7 ∷ 7 ∷ [];
}

taken-IsOrderly : IsOrderly crates taken
taken-IsOrderly = record {
  distinct = ((refl, tt), (tt, tt));
  in_order = inl (refl, inr tt);
  done = λ e. cc;
}

needs_reconcile_blocks_example :
    ((reconciled_taken.status ≡ RunStatus.aborted) × (reconciled_taken.steps ≡ taken.steps))
    ⊎ ReconciledBy crates taken "write" reconciled_taken
unfolding apply_action apply_step_action metadata_string validate_reconcile lacks_approval is_blank
needs_reconcile_blocks_example =
    needs_reconcile_blocks crates taken taken-IsOrderly "write" {r' = reconciled_taken} refl refl
      (reconcile done_value "write" (some "yes") refl refl refl)

aborted_run_revives_example :
    (r' : WorkflowRun Json) × (apply_action crates
        (writing StepStatus.claimed RunStatus.aborted)
        (event_of "codex" "completed_step" "write")
        "completed_step"
      ≡ ok r')
    × Step crates (writing StepStatus.claimed RunStatus.aborted) r'
    × (r'.status ≡ RunStatus.active)
unfolding metadata_string is_blank
aborted_run_revives_example =
    aborted_run_revives crates (writing StepStatus.claimed RunStatus.aborted)
      (event_of "codex" "completed_step" "write") "write"
      (step_at write_step StepStatus.claimed (some "codex")) (some "yes") refl refl refl refl refl
      refl

abbrev start : Event Json
start = start_event crates (stamp 1) codec 1 "ws" "claude" "s" triage Json.null

abbrev started : WorkflowRun Json
started =
    run_at RunStatus.active
      (step_at read_step StepStatus.pending none ∷ step_at write_step StepStatus.pending none ∷ [])

started_run-start_event_example :
    (metadata_uuid crates start "run_id" ≡ ok 1)
    × (metadata_string crates start "action" ≡ ok "started")
    × (started_run crates codec start 1 ≡ ok started)
unfolding pending_step
started_run-start_event_example =
    started_run-start_event crates codec (stamp 1) "ws" "claude" "s" 1 triage Json.null

-- The run after claude has claimed the first step.
abbrev reading : WorkflowRun Json
reading =
    record (run_at RunStatus.active (
      step_at read_step StepStatus.claimed (some "claude")
      ∷ step_at write_step StepStatus.pending none
      ∷ [])) { current_step = some "read"; updated_at = 9; source_event_ids = 1 ∷ 7 ∷ [] }

claimed_first : Reach crates started reading
unfolding validate_claim_for_agent metadata_string apply_action apply_step_action
claimed_first =
    next here
      (claim (event_of "claude" "claimed" "read") "read" "claimed" false none refl refl refl)

workflow_in_order_example : IsOrderly crates reading
unfolding started_run start_event field pending_step
workflow_in_order_example =
    workflow_in_order crates codec (stamp 1) "ws" "claude" "s" every_file 1 triage Json.null
      triage-IsValid refl claimed_first
