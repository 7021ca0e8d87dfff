-- ===== src/Workflow/Claims.antt =====
-- What the checks of src/workflow.rs accept.
use shuttle_rs.Prelude.{
  String, ◌≡◌, refl, Option, none, some, Bool, true, false, ◌&&◌, str_eq_iff, is_text, find,
  and_then, Option-cases, Bool-cases, not-eq-false, inl, inr, ap, ◌∙◌, ◌↔◌,
}
use shuttle_rs.Crates.{Crates}
use shuttle_rs.Core.{ok, >>=-eq-ok, reject_if-eq-ok, ok_or-eq-ok}
use shuttle_rs.Workflow.Run.{
  StepStatus, StepSummary, WorkflowRun, named, is_open, is_live, is_claimed, is_needs_reconcile,
  lacks_approval, claim_action, validate_claim_for_agent, validate_step_claimed, validate_complete,
  validate_reconcile,
}

-- The agent who asks is the one that the step's claim names.
abbrev pub IsOwner : {V : Type 0} → WorkflowRun V → String → Option String → Type 0
IsOwner {V} run step_id agent =
    (a : String) × (s : StepSummary V) × (agent ≡ some a)
    × (find (named step_id) run.steps ≡ some s)
    × (s.claimed_by ≡ some a)

-- When the first step that is not completed may be claimed, and the action that records the claim.
abbrev pub MayClaim :
    {V : Type 0} → WorkflowRun V → String → Option String → StepStatus → Bool → String → Type 0
MayClaim run step_id agent StepStatus.pending false action = "claimed" ≡ action
MayClaim run step_id agent StepStatus.failed false action = "reclaimed" ≡ action
MayClaim run step_id agent StepStatus.claimed true action = "taken_over" ≡ action
MayClaim run step_id agent StepStatus.claimed false action =
    ("claimed" ≡ action) × IsOwner run step_id agent
MayClaim run step_id agent _ _ action = ⊥

module _ (c : Crates) (run : WorkflowRun c.Value) (step_id : String) where
  open c use {Value}

  abbrev owns : Option String → Bool
  owns agent = elim agent [
    | none ↦ false
    | some a ↦ is_text (and_then (find (named step_id) run.steps) (λ s. s.claimed_by)) a
  ]

  owns_by :
      (a : String) (o : Option (StepSummary Value))
      → is_text (and_then o (λ s. s.claimed_by)) a ≡ true
      → (s : StepSummary Value) × (o ≡ some s) × (s.claimed_by ≡ some a)
  owns_by a none h = cc
  owns_by a (some s) h = elim (Option-cases s.claimed_by) [
    | inl e ↦ cc (rw e at h)
    | inr (b, e) ↦ (s, refl, e ∙ ap some ((str_eq_iff b a).0 (rw e at h)))
  ]

  owns-IsOwner : (agent : Option String) → owns agent ≡ true → IsOwner run step_id agent
  owns-IsOwner none h = cc
  owns-IsOwner (some a) h =
      let (s, found, by) = owns_by a (find (named step_id) run.steps) h in (a, s, refl, found, by)

  IsOwner-owns : (agent : Option String) → IsOwner run step_id agent → owns agent ≡ true
  IsOwner-owns agent (a, s, e, found, by) = rw (e, found, by) ((str_eq_iff a a).1 refl)

  claim_action-MayClaim :
      (status : StepStatus) (t : Bool) (agent : Option String) (action : String)
      → claim_action c run status step_id t agent ≡ ok action
      → MayClaim run step_id agent status t action
  unfolding claim_action
  claim_action-MayClaim StepStatus.pending true agent action h = cc
  claim_action-MayClaim StepStatus.pending false agent action h = cc
  claim_action-MayClaim StepStatus.failed true agent action h = cc
  claim_action-MayClaim StepStatus.failed false agent action h = cc
  claim_action-MayClaim StepStatus.claimed true agent action h = cc
  claim_action-MayClaim StepStatus.claimed false agent action h = elim (Bool-cases (owns agent)) [
    | inl e ↦ (cc (rw e at h), owns-IsOwner agent e)
    | inr e ↦ cc (rw e at h)
  ]
  claim_action-MayClaim StepStatus.needs_reconcile t agent action h = cc
  claim_action-MayClaim StepStatus.completed t agent action h = cc

  MayClaim-claim_action :
      (status : StepStatus) (t : Bool) (agent : Option String) (action : String)
      → MayClaim run step_id agent status t action
      → claim_action c run status step_id t agent ≡ ok action
  unfolding claim_action
  MayClaim-claim_action StepStatus.pending true agent action h = absurd h
  MayClaim-claim_action StepStatus.pending false agent action h = ap ok h
  MayClaim-claim_action StepStatus.failed true agent action h = absurd h
  MayClaim-claim_action StepStatus.failed false agent action h = ap ok h
  MayClaim-claim_action StepStatus.claimed true agent action h = ap ok h
  MayClaim-claim_action StepStatus.claimed false agent action h =
      rw (IsOwner-owns agent h.1) (ap ok h.0)
  MayClaim-claim_action StepStatus.needs_reconcile t agent action h = absurd h
  MayClaim-claim_action StepStatus.completed t agent action h = absurd h

  -- A claim is accepted, with the given action, exactly if the run is live and the step is the first
  -- one that is not completed: a pending step without takeover ("claimed"), a failed one without
  -- takeover ("reclaimed"), a claimed one with takeover ("taken_over"), or a claimed one without
  -- takeover by the agent who owns the claim ("claimed").
  pub validate_claim_for_agent_iff :
      (t : Bool) (agent : Option String) (action : String)
      → (validate_claim_for_agent c run step_id t agent ≡ ok action) ↔ (
          (is_live run.status ≡ true)
          × ((s : StepSummary Value) × (find is_open run.steps ≡ some s)
              × (s.id ≡ step_id)
              × MayClaim run step_id agent s.status t action))
  unfolding validate_claim_for_agent
  validate_claim_for_agent_iff t agent action = (
    λ h.
        let (_, live, h') = >>=-eq-ok _ _ h in
        let (s, found, h'') = >>=-eq-ok _ _ h' in
        let (_, same, chosen) = >>=-eq-ok _ _ h'' in
        (
          not-eq-false (is_live run.status) (reject_if-eq-ok _ _ live),
          (
            s,
            ok_or-eq-ok _ _ found,
            (str_eq_iff s.id step_id).0 (not-eq-false _ (reject_if-eq-ok _ _ same)),
            claim_action-MayClaim s.status t agent action chosen,
          ),
        ),
    λ (live, (s, found, same, may)).
        rw (live, found, (str_eq_iff s.id step_id).1 same)
          (MayClaim-claim_action s.status t agent action may),
  )

  -- Evidence that is not blank is at hand where the step demands approval.
  abbrev pub IsApproved : StepSummary Value → Option String → Type 0
  IsApproved s approval = (s.approval_required && lacks_approval approval) ≡ false

  is_text-eq : (o : Option String) (a : String) → is_text o a ≡ true → o ≡ some a
  is_text-eq none a h = cc
  is_text-eq (some b) a h = ap some ((str_eq_iff b a).0 h)

  pub validate_step_claimed-eq-ok :
      {s : StepSummary Value}
      → validate_step_claimed c run step_id ≡ ok s
      → (find (named step_id) run.steps ≡ some s) × (is_claimed s.status ≡ true)
  unfolding validate_step_claimed
  validate_step_claimed-eq-ok {s} h =
      let (t, found, h') = >>=-eq-ok _ _ h in
      let (_, claimed, same) = >>=-eq-ok _ _ h' in
      let e : t ≡ s = cc in
      (rw (← e) (ok_or-eq-ok _ _ found), rw (← e) (not-eq-false _ (reject_if-eq-ok _ _ claimed)))

  validate_step_claimed_ok :
      (s : StepSummary Value)
      → find (named step_id) run.steps ≡ some s
      → is_claimed s.status ≡ true
      → validate_step_claimed c run step_id ≡ ok s
  unfolding validate_step_claimed
  validate_step_claimed_ok s found claimed = rw (found, claimed)

  -- A completion is accepted exactly if the step that the identifier names is claimed by the agent,
  -- and evidence that is not blank comes with it where the step demands approval. The status of the
  -- run is not among the conditions.
  pub validate_complete_iff :
      (agent : String) (approval : Option String)
      → (validate_complete c run step_id agent approval ≡ ok tt) ↔ (
          (s : StepSummary Value) × (find (named step_id) run.steps ≡ some s)
          × (is_claimed s.status ≡ true)
          × (s.claimed_by ≡ some agent)
          × IsApproved s approval)
  unfolding validate_complete
  validate_complete_iff agent approval = (
    λ h.
        let (s, claimed, h') = >>=-eq-ok _ _ h in
        let (_, owned, h'') = >>=-eq-ok _ _ h' in
        let (_, evidence, _) = >>=-eq-ok _ _ h'' in
        let (found, is) = validate_step_claimed-eq-ok claimed in
        (
          s,
          found,
          is,
          is_text-eq s.claimed_by agent (not-eq-false _ (reject_if-eq-ok _ _ owned)),
          reject_if-eq-ok _ _ evidence,
        ),
    λ (s, found, is, owned, evidence).
        rw (validate_step_claimed_ok s found is, owned, (str_eq_iff agent agent).1 refl, evidence),
  )

  -- A reconciliation is accepted exactly if the step that the identifier names needs it, and evidence
  -- that is not blank comes with it where the step demands approval.
  pub validate_reconcile_iff :
      (approval : Option String)
      → (validate_reconcile c run step_id approval ≡ ok tt) ↔ (
          (s : StepSummary Value) × (find (named step_id) run.steps ≡ some s)
          × (is_needs_reconcile s.status ≡ true)
          × IsApproved s approval)
  unfolding validate_reconcile
  validate_reconcile_iff approval = (
    λ h.
        let (s, found, h') = >>=-eq-ok _ _ h in
        let (_, needs, h'') = >>=-eq-ok _ _ h' in
        let (_, evidence, _) = >>=-eq-ok _ _ h'' in
        (
          s,
          ok_or-eq-ok _ _ found,
          not-eq-false _ (reject_if-eq-ok _ _ needs),
          reject_if-eq-ok _ _ evidence,
        ),
    λ (s, found, needs, evidence). rw (found, needs, evidence),
  )
