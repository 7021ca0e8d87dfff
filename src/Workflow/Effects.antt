-- ===== src/Workflow/Effects.antt =====
-- What the accepted actions on a run do to it.
use shuttle_rs.Prelude.{
  String, ◌≡◌, ◌≢◌, refl, sym, ap, subst, ◌∙◌, Option, some, Bool, true, false, ◌&&◌, ◌⊎◌, inl, inr,
  str_eq, str_eq_iff, if◌then◌else◌, find, update_first, arith, Bool-cases,
}
use shuttle_rs.Crates.{Crates}
use shuttle_rs.Core.{Event, ok}
use shuttle_rs.Workflow.Run.{
  RunStatus, StepStatus, StepSummary, WorkflowRun, named, is_open, is_claimed, is_needs_reconcile,
  is_non_idempotent, validate_claim_for_agent, validate_reconcile,
}
use shuttle_rs.Workflow.Project.{metadata_string, apply_action, apply_step_action, is_claim}
use shuttle_rs.Workflow.Steps.{busy_is_next, find_holds, find-update_first, any-false-find}
use shuttle_rs.Workflow.Claims.{
  IsApproved, MayClaim, validate_claim_for_agent_iff, validate_complete_iff, validate_reconcile_iff,
  validate_step_claimed-eq-ok,
}
use shuttle_rs.Workflow.Protocol.{
  Step, claim, complete, fail, reconcile, finish, abort, IsOrderly, claimed_busy, reconcile_busy,
  apply_action-step, apply_action_found, MayClaim-is_step_action, touched, apply_action-aborted,
  validate_run_complete-eq-ok,
}

claimed-not_reconcile :
    (status : StepStatus) → is_claimed status ≡ true → ¬ (is_needs_reconcile status ≡ true)
claimed-not_reconcile status h k = ground arith

MayClaim-not_reconcile :
    {V : Type 0} (r : WorkflowRun V) (id : String) (agent : Option String) (status : StepStatus)
    (t : Bool) (action : String)
    → is_needs_reconcile status ≡ true
    → ¬ (MayClaim r id agent status t action)
MayClaim-not_reconcile r id agent StepStatus.needs_reconcile t action h k = k
MayClaim-not_reconcile r id agent _ t action h k = cc

-- An event that records an accepted reconciliation of the step completes that step, with the value
-- that the event carries, and is all that changes the steps.
abbrev pub ReconciledBy : (c : Crates) → WorkflowRun c.Value → String → WorkflowRun c.Value → Type 0
ReconciledBy c r id r' =
    (e : Event c.Value) × (approval : Option String) × (validate_reconcile c r id approval ≡ ok tt)
    × (metadata_string c e "step_id" ≡ ok id)
    × (apply_action c r e "reconciled" ≡ ok r')
    × (r'.steps
        ≡ update_first (named id)
            (λ s. record s {
              status = StepStatus.completed;
              output = c.get e.metadata_json "value";
            })
            r.steps)

reconciled_steps :
    (c : Crates) (r : WorkflowRun c.Value) (e : Event c.Value) (id : String)
    {r' : WorkflowRun c.Value}
    → metadata_string c e "step_id" ≡ ok id
    → apply_action c r e "reconciled" ≡ ok r'
    → r'.steps
      ≡ update_first
          (named id)
          (λ s. record s { status = StepStatus.completed; output = c.get e.metadata_json "value" })
          r.steps
unfolding apply_step_action touched
reconciled_steps c r e id named_id h =
    let (_, _, end) = apply_action-step c r e "reconciled" id refl named_id h in
    ap (λ v. v.steps) end

module _ (c : Crates) (r : WorkflowRun c.Value) (o : IsOrderly c r) where
  open c use {Value}

  -- Two steps that are neither completed nor pending are one.
  one_busy :
      (i j : String) {s t : StepSummary Value}
      → find (named i) r.steps ≡ some s
      → find (named j) r.steps ≡ some t
      → (is_open s ≡ true) × (s.status ≢ StepStatus.pending)
      → (is_open t ≡ true) × (t.status ≢ StepStatus.pending)
      → s ≡ t
  one_busy i j e f h k =
      cc (busy_is_next i r.steps o.in_order e h.0 h.1, busy_is_next j r.steps o.in_order f k.0 k.1)

  -- While a step of an orderly run needs reconciliation, an action of the commands either aborts the
  -- run, which leaves the steps as they are, or is an accepted reconciliation of that step, which
  -- completes it with the value of its event and changes no other step.
  pub needs_reconcile_blocks :
      (id : String) {s : StepSummary Value} {r' : WorkflowRun Value}
      → find (named id) r.steps ≡ some s
      → is_needs_reconcile s.status ≡ true
      → Step c r r'
      → ((r'.status ≡ RunStatus.aborted) × (r'.steps ≡ r.steps)) ⊎ ReconciledBy c r id r'
  needs_reconcile_blocks id {s} found needs (claim e i action t agent checked _ _) =
      let (_, (u, at, _, may)) = (validate_claim_for_agent_iff c r i t agent action).0 checked in
      let (y, busy) = reconcile_busy c s needs in
      let next = busy_is_next id r.steps o.in_order found y busy in
      let same : s ≡ u = cc (next, at) in
      absurd (
        MayClaim-not_reconcile r i agent u.status t action
          (subst (λ v. is_needs_reconcile v.status ≡ true) same needs) may)
  needs_reconcile_blocks id {s} found needs (complete e i approval checked _ _) =
      let (u, at, claimed, _, _) = (validate_complete_iff c r i e.agent approval).0 checked in
      let same = one_busy id i found at (reconcile_busy c s needs) (claimed_busy c u claimed) in
      absurd (
        claimed-not_reconcile u.status claimed
          (subst (λ v. is_needs_reconcile v.status ≡ true) same needs))
  needs_reconcile_blocks id {s} found needs (fail e i u checked _ _ _) =
      let (at, claimed) = validate_step_claimed-eq-ok c r i checked in
      let same = one_busy id i found at (reconcile_busy c s needs) (claimed_busy c u claimed) in
      absurd (
        claimed-not_reconcile u.status claimed
          (subst (λ v. is_needs_reconcile v.status ≡ true) same needs))
  needs_reconcile_blocks id {s} {r'} found needs (reconcile e i approval checked named_id applied) =
      let (u, at, need, _) = (validate_reconcile_iff c r i approval).0 checked in
      let same = one_busy id i found at (reconcile_busy c s needs) (reconcile_busy c u need) in
      let left = (str_eq_iff s.id id).0 (find_holds (named id) r.steps found) in
      let right = (str_eq_iff u.id i).0 (find_holds (named i) r.steps at) in
      let one : i ≡ id = sym right ∙ sym (ap (λ v. v.id) same) ∙ left in
      inr (
        subst (λ j. ReconciledBy c r j r') one
          (e, approval, checked, named_id, applied, reconciled_steps c r e i named_id applied))
  needs_reconcile_blocks id {s} found needs (finish e checked h) = cc (
    any-false-find (named id) is_open r.steps (validate_run_complete-eq-ok c r checked) found,
    (reconcile_busy c s needs).0,
  )
  needs_reconcile_blocks id found needs (abort e h) =
      let (steps, status) = apply_action-aborted c r e h in inl (status, steps)

-- What the step is after an accepted claim: claimed by the agent, but in need of reconciliation where
-- the agent took over a step that may not be repeated.
abbrev pub ClaimedBy :
    {V : Type 0} → WorkflowRun V → String → StepSummary V → String → String → Type 0
ClaimedBy r id old action agent =
    (new : StepSummary _) × (find (named id) r.steps ≡ some new)
    × (new.claimed_by ≡ some agent)
    × (new.status ≡ (
        if str_eq action "taken_over" && is_claimed old.status && is_non_idempotent old.kind
        then StepStatus.needs_reconcile
        else StepStatus.claimed))

module _ (c : Crates) (r : WorkflowRun c.Value) (e : Event c.Value) (id : String) where
  open c use {Value}

  MayClaim-is_claim :
      (agent : Option String) (status : StepStatus) (t : Bool) (action : String)
      → MayClaim r id agent status t action
      → is_claim c action ≡ true
  MayClaim-is_claim agent StepStatus.pending false action h = rw (← h)
  MayClaim-is_claim agent StepStatus.failed false action h = rw (← h)
  MayClaim-is_claim agent StepStatus.claimed true action h = rw (← h)
  MayClaim-is_claim agent StepStatus.claimed false action h = rw (← h.0)
  MayClaim-is_claim agent _ _ action h = absurd h

  claimed_step :
      (action : String) {s : StepSummary Value}
      → is_claim c action ≡ true
      → find (named id) r.steps ≡ some s
      → let r' = apply_step_action c (touched c r e) e action id s in
        (r'.current_step ≡ some id) × ClaimedBy r' id s action e.agent
  unfolding apply_step_action touched
  claimed_step action {s} y found =
      elim (Bool-cases
        (str_eq action "taken_over" && is_claimed s.status && is_non_idempotent s.kind)) [
          | inl z ↦
              rw (y, z) (refl, (_, find-update_first id _ r.steps (λ t. refl) found, refl, refl))
          | inr z ↦
              rw (y, z) (refl, (_, find-update_first id _ r.steps (λ t. refl) found, refl, refl))
        ]

  -- An accepted claim makes its step the run's current one, owned by the agent of the event and
  -- claimed, or in need of reconciliation where the agent took over a claimed step that may not be
  -- repeated.
  pub claim_effect :
      (takeover : Bool) (agent : Option String) (action : String) {r' : WorkflowRun Value}
      → validate_claim_for_agent c r id takeover agent ≡ ok action
      → metadata_string c e "step_id" ≡ ok id
      → apply_action c r e action ≡ ok r'
      → (old : StepSummary Value) × (find (named id) r.steps ≡ some old)
        × (r'.current_step ≡ some id)
        × ClaimedBy r' id old action e.agent
  claim_effect takeover agent action {r'} checked named_id h =
      let (_, (u, _, _, may)) =
        (validate_claim_for_agent_iff c r id takeover agent action).0 checked in
      let (s, found, end) =
        apply_action-step c r e action id
          (MayClaim-is_step_action c r id agent u.status takeover action may) named_id h in
      let (current, by) =
        claimed_step action (MayClaim-is_claim agent u.status takeover action may) found in
      (s, found, rw end current, rw end by)

  -- A run that was aborted while a step was claimed is active again once the agent of the claim
  -- completes the step: the check of a completion accepts it, and the projection sets the status.
  pub aborted_run_revives :
      (s : StepSummary Value) (approval : Option String)
      → r.status ≡ RunStatus.aborted
      → find (named id) r.steps ≡ some s
      → is_claimed s.status ≡ true
      → s.claimed_by ≡ some e.agent
      → IsApproved c r id s approval
      → metadata_string c e "step_id" ≡ ok id
      → (r' : WorkflowRun Value) × (apply_action c r e "completed_step" ≡ ok r')
        × Step c r r'
        × (r'.status ≡ RunStatus.active)
  unfolding apply_step_action
  aborted_run_revives s approval was found claimed owner evidence named_id =
      let checked =
        (validate_complete_iff c r id e.agent approval).1 (s, found, claimed, owner, evidence) in
      let applied = apply_action_found c r e "completed_step" id refl named_id found in
      (_, applied, complete e id approval checked named_id applied, refl)
