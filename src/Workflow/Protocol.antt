-- ===== src/Workflow/Protocol.antt =====
-- The actions on a run of a workflow as the commands perform them: a check on the projected run,
-- then an event, which the projection applies. (src/mcp.rs, src/bin/stl.rs, src/workflow.rs)
use shuttle_rs.Prelude.{
  String, ◌≡◌, ◌≢◌, refl, Option, some, [], ◌∷◌, ◌++◌, Bool, true, false, ◌&&◌, inl, inr, str_eq,
  ◌&◌, is_text, find, any, update_first, arith, Bool-cases,
}
use shuttle_rs.Crates.{Crates}
use shuttle_rs.Core.{Event, ok, >>=-eq-ok, reject_if-eq-ok, ok_or-eq-ok, ok_or, store}
use shuttle_rs.Workflow.Run.{
  RunStatus, StepStatus, StepSummary, WorkflowRun, named, is_open, is_live, is_claimed,
  is_needs_reconcile, is_non_idempotent, recovered, validate_claim_for_agent, validate_step_claimed,
  validate_complete, validate_reconcile, validate_run_complete,
}
use shuttle_rs.Workflow.Project.{
  metadata_string, apply_action, apply_step_action, is_step_action, is_claim,
}
use shuttle_rs.Workflow.Steps.{
  InOrder, DistinctIds, update_next-InOrder, update_busy-InOrder, update_first-DistinctIds,
  any-false-find,
}
use shuttle_rs.Workflow.Claims.{
  MayClaim, validate_claim_for_agent_iff, validate_complete_iff, validate_reconcile_iff,
  validate_step_claimed-eq-ok,
}

module _ (c : Crates) where
  open c use {Value}

  -- One action; `e` is the event that it appends, and its agent is the one who acts.
  pub data Step : WorkflowRun Value → WorkflowRun Value → Type 0 where
    claim :
        {r r' : WorkflowRun Value} (e : Event Value) (id action : String) (takeover : Bool)
        (agent : Option String)
        → validate_claim_for_agent c r id takeover agent ≡ ok action
        → metadata_string c e "step_id" ≡ ok id
        → apply_action c r e action ≡ ok r'
        → Step r r'
    complete :
        {r r' : WorkflowRun Value} (e : Event Value) (id : String) (approval : Option String)
        → validate_complete c r id e.agent approval ≡ ok tt
        → metadata_string c e "step_id" ≡ ok id
        → apply_action c r e "completed_step" ≡ ok r'
        → Step r r'
    fail :
        {r r' : WorkflowRun Value} (e : Event Value) (id : String) (s : StepSummary Value)
        → validate_step_claimed c r id ≡ ok s
        → is_text s.claimed_by e.agent ≡ true
        → metadata_string c e "step_id" ≡ ok id
        → apply_action c r e "failed_step" ≡ ok r'
        → Step r r'
    reconcile :
        {r r' : WorkflowRun Value} (e : Event Value) (id : String) (approval : Option String)
        → validate_reconcile c r id approval ≡ ok tt
        → metadata_string c e "step_id" ≡ ok id
        → apply_action c r e "reconciled" ≡ ok r'
        → Step r r'
    finish :
        {r r' : WorkflowRun Value} (e : Event Value)
        → validate_run_complete c r ≡ ok tt
        → apply_action c r e "completed" ≡ ok r'
        → Step r r'
    abort :
        {r r' : WorkflowRun Value} (e : Event Value)
        → apply_action c r e "aborted" ≡ ok r'
        → Step r r'

  pub data Reach (r : WorkflowRun Value) : WorkflowRun Value → Type 0 where
    here : Reach r r
    next : {t u : WorkflowRun Value} → Reach r t → Step t u → Reach r u

  -- Steps are worked on one at a time and in order, and a run that counts as completed has no step
  -- left.
  pub record IsOrderly (r : WorkflowRun Value) : Type 0 where
    pub distinct : DistinctIds r.steps
    pub in_order : InOrder r.steps
    pub done : r.status ≡ RunStatus.completed → any is_open r.steps ≡ false

  unfoldable pub touched : WorkflowRun Value → Event Value → WorkflowRun Value
  touched r e = record r {
    updated_at = e.created_at;
    source_event_ids = r.source_event_ids ++ e.id ∷ [];
  }

  -- An accepted action on a step changes the step that the event names.
  pub apply_action-step :
      (r : WorkflowRun Value) (e : Event Value) (action id : String) {r' : WorkflowRun Value}
      → is_step_action c action ≡ true
      → metadata_string c e "step_id" ≡ ok id
      → apply_action c r e action ≡ ok r'
      → (s : StepSummary Value) × (find (named id) r.steps ≡ some s)
        × (r' ≡ apply_step_action c (touched r e) e action id s)
  unfolding apply_action touched
  apply_action-step r e action id {r'} is named_id h =
      let (s, found, end) =
        >>=-eq-ok (ok_or (find (named id) r.steps) (store ("unknown workflow step: " & id)))
          (λ step. ok (apply_step_action c (touched r e) e action id step))
          (rw (is, named_id) at h) in
      (s, ok_or-eq-ok _ _ found, cc)

  pub apply_action_found :
      (r : WorkflowRun Value) (e : Event Value) (action id : String) {s : StepSummary Value}
      → is_step_action c action ≡ true
      → metadata_string c e "step_id" ≡ ok id
      → find (named id) r.steps ≡ some s
      → apply_action c r e action ≡ ok (apply_step_action c (touched r e) e action id s)
  unfolding apply_action touched
  apply_action_found r e action id is named_id found = rw (is, named_id, found)

  recovered-ne-completed :
      (status : RunStatus) → status ≢ RunStatus.completed → recovered status ≢ RunStatus.completed
  recovered-ne-completed status h = ground (arith, h)

  -- What an action on a step does to the steps, and what it leaves the run's status at.
  record Changed (r : WorkflowRun Value) (id : String) (r' : WorkflowRun Value) : Type 0 where
    change : StepSummary Value → StepSummary Value
    keeps_id : (s : StepSummary Value) → (change s).id ≡ s.id
    steps : r'.steps ≡ update_first (named id) change r.steps
    status : r.status ≢ RunStatus.completed → r'.status ≢ RunStatus.completed

  apply_step_action-Changed :
      (r : WorkflowRun Value) (e : Event Value) (action id : String) (s : StepSummary Value)
      → Changed r id (apply_step_action c (touched r e) e action id s)
  unfolding apply_step_action touched
  apply_step_action-Changed r e action id s = elim (Bool-cases (is_claim c action)) [
    | inl y ↦
        elim (Bool-cases
          (str_eq action "taken_over" && is_claimed s.status && is_non_idempotent s.kind)) [
            | inl z ↦
                rw (y, z)
                  (record { change = _; keeps_id = λ t. refl; steps = refl; status = λ h k. cc })
            | inr z ↦
                rw (y, z)
                  (record {
                    change = _;
                    keeps_id = λ t. refl;
                    steps = refl;
                    status = λ h. recovered-ne-completed r.status h;
                  })
          ]
    | inr y ↦ elim (Bool-cases (str_eq action "failed_step")) [
      | inl z ↦
          rw (y, z) (record { change = _; keeps_id = λ t. refl; steps = refl; status = λ h k. cc })
      | inr z ↦
          rw (y, z) (record { change = _; keeps_id = λ t. refl; steps = refl; status = λ h k. cc })
    ]
  ]

  Changed-IsOrderly :
      (r : WorkflowRun Value) (id : String) {r' : WorkflowRun Value}
      → IsOrderly r
      → r.status ≢ RunStatus.completed
      → ((f : StepSummary Value → StepSummary Value) → InOrder (update_first (named id) f r.steps))
      → Changed r id r'
      → IsOrderly r'
  Changed-IsOrderly r id o live in_order ch = record {
    distinct =
        rw ch.steps (update_first-DistinctIds ch.change ch.keeps_id (named id) r.steps o.distinct);
    in_order = rw ch.steps (in_order ch.change);
    done = λ e. absurd (ch.status live e);
  }

  -- An action on a step that is claimed or that needs reconciliation.
  busy-IsOrderly :
      (r : WorkflowRun Value) (e : Event Value) (action id : String) (s : StepSummary Value)
      {r' : WorkflowRun Value}
      → IsOrderly r
      → is_step_action c action ≡ true
      → find (named id) r.steps ≡ some s
      → is_open s ≡ true
      → s.status ≢ StepStatus.pending
      → metadata_string c e "step_id" ≡ ok id
      → apply_action c r e action ≡ ok r'
      → IsOrderly r'
  busy-IsOrderly r e action id s o is found open_step busy named_id h =
      let (t, _, end) = apply_action-step r e action id is named_id h in
      rw end (
        Changed-IsOrderly r id o
          (λ done. cc (any-false-find (named id) is_open r.steps (o.done done) found))
          (λ f. update_busy-InOrder f id r.steps found open_step busy o.in_order)
          (apply_step_action-Changed r e action id t))

  pub claimed_busy :
      (s : StepSummary Value)
      → is_claimed s.status ≡ true
      → (is_open s ≡ true) × (s.status ≢ StepStatus.pending)
  claimed_busy s h = ground arith

  pub reconcile_busy :
      (s : StepSummary Value)
      → is_needs_reconcile s.status ≡ true
      → (is_open s ≡ true) × (s.status ≢ StepStatus.pending)
  reconcile_busy s h = ground arith

  pub MayClaim-is_step_action :
      (r : WorkflowRun Value) (id : String) (agent : Option String) (status : StepStatus) (t : Bool)
      (action : String)
      → MayClaim r id agent status t action
      → is_step_action c action ≡ true
  MayClaim-is_step_action r id agent StepStatus.pending false action h = rw (← h)
  MayClaim-is_step_action r id agent StepStatus.failed false action h = rw (← h)
  MayClaim-is_step_action r id agent StepStatus.claimed true action h = rw (← h)
  MayClaim-is_step_action r id agent StepStatus.claimed false action h = rw (← h.0)
  MayClaim-is_step_action r id agent _ _ action h = absurd h

  live-ne-completed : (status : RunStatus) → is_live status ≡ true → status ≢ RunStatus.completed
  live-ne-completed status h = ground arith

  apply_action-completed :
      (r : WorkflowRun Value) (e : Event Value) {r' : WorkflowRun Value}
      → apply_action c r e "completed" ≡ ok r'
      → (r'.steps ≡ r.steps) × (r'.status ≡ RunStatus.completed)
  unfolding apply_action
  apply_action-completed r e h = ground arith

  pub apply_action-aborted :
      (r : WorkflowRun Value) (e : Event Value) {r' : WorkflowRun Value}
      → apply_action c r e "aborted" ≡ ok r'
      → (r'.steps ≡ r.steps) × (r'.status ≡ RunStatus.aborted)
  unfolding apply_action
  apply_action-aborted r e h = ground arith

  pub validate_run_complete-eq-ok :
      (r : WorkflowRun Value) → validate_run_complete c r ≡ ok tt → any is_open r.steps ≡ false
  unfolding validate_run_complete
  validate_run_complete-eq-ok r h =
      let (_, checked, _) = >>=-eq-ok _ _ h in reject_if-eq-ok _ _ checked

  -- Whatever the commands accept keeps a run orderly.
  pub Step-IsOrderly : {r r' : WorkflowRun Value} → Step r r' → IsOrderly r → IsOrderly r'
  Step-IsOrderly {r} (claim e id action t agent checked named_id h) o =
      let (live, (s, found, same, may)) =
        (validate_claim_for_agent_iff c r id t agent action).0 checked in
      let is = MayClaim-is_step_action r id agent s.status t action may in
      let (u, _, end) = apply_action-step r e action id is named_id h in
      rw end (
        Changed-IsOrderly r id o (live-ne-completed r.status live)
          (λ f. update_next-InOrder f id r.steps o.distinct found same o.in_order)
          (apply_step_action-Changed r e action id u))
  Step-IsOrderly {r} (complete e id approval checked named_id h) o =
      let (s, found, claimed, _, _) = (validate_complete_iff c r id e.agent approval).0 checked in
      let (open_step, busy) = claimed_busy s claimed in
      busy-IsOrderly r e "completed_step" id s o refl found open_step busy named_id h
  Step-IsOrderly {r} (fail e id s checked _ named_id h) o =
      let (found, claimed) = validate_step_claimed-eq-ok c r id checked in
      let (open_step, busy) = claimed_busy s claimed in
      busy-IsOrderly r e "failed_step" id s o refl found open_step busy named_id h
  Step-IsOrderly {r} (reconcile e id approval checked named_id h) o =
      let (s, found, needs, _) = (validate_reconcile_iff c r id approval).0 checked in
      let (open_step, busy) = reconcile_busy s needs in
      busy-IsOrderly r e "reconciled" id s o refl found open_step busy named_id h
  Step-IsOrderly {r} (finish e checked h) o =
      let (steps, _) = apply_action-completed r e h in
      record {
        distinct = rw steps o.distinct;
        in_order = rw steps o.in_order;
        done = λ _. rw steps (validate_run_complete-eq-ok r checked);
      }
  Step-IsOrderly {r} (abort e h) o =
      let (steps, status) = apply_action-aborted r e h in
      record { distinct = rw steps o.distinct; in_order = rw steps o.in_order; done = λ done. cc }

  pub Reach-IsOrderly : {r r' : WorkflowRun Value} → IsOrderly r → Reach r r' → IsOrderly r'
  Reach-IsOrderly o here = o
  Reach-IsOrderly o (next reach step) = Step-IsOrderly step (Reach-IsOrderly o reach)
