-- ===== src/Mcp/Checks.antt =====
-- An action that the checks of src/mcp.rs accept is a step of the protocol, by the event that is
-- appended for it.
use shuttle_rs.Prelude.{
  String, ◌≡◌, refl, subst, Option, none, some, List, [], ◌∷◌, Bool, true, false, not, str_eq,
  str_eq_iff, find, is_text, Bool-cases, inl, inr, not-eq-false,
}
use shuttle_rs.Crates.{Crates}
use shuttle_rs.Core.{Event, ok, reject_if, >>=-eq-ok, reject_if-eq-ok}
use shuttle_rs.Workflow.Run.{
  WorkflowRun, StepSummary, named, is_open, validate_claim, validate_complete,
  validate_step_claimed, validate_reconcile, validate_run_complete,
}
use shuttle_rs.Workflow.Project.{metadata_string, apply_action, is_step_action}
use shuttle_rs.Workflow.Claims.{
  validate_claim_for_agent_iff, validate_complete_iff, validate_reconcile_iff,
  validate_step_claimed-eq-ok,
}
use shuttle_rs.Workflow.Protocol.{
  Step, claim, complete, fail, reconcile, finish, abort, apply_action_found,
  MayClaim-is_step_action,
}
use shuttle_rs.Mcp.Commands.{
  WorkflowAction, claim_step, complete_step, fail_step, reconcile_step, complete_run, abort_run,
  checkpoint, checked_action,
}

find-some :
    {A : Type 0} (p q : A → Bool) (xs : List A) {a : A}
    → find q xs ≡ some a
    → p a ≡ true
    → (b : A) × (find p xs ≡ some b)
find-some p q [] h k = cc h
find-some p q (x ∷ xs) {a} h k = elim (Bool-cases (p x)) [
  | inl y ↦ (x, rw y refl)
  | inr n ↦
      let rest : find q xs ≡ some a = elim (Bool-cases (q x)) [
        | inl is ↦ let same : x ≡ a = cc (rw is at h) in cc (n, k, same)
        | inr is ↦ rw is at h
      ] in
      let (b, found) = find-some p q xs rest k in (b, rw n found)
]

module _ (c : Crates) where
  open c use {Value}

  step_action-not_started :
      (action : String) → is_step_action c action ≡ true → str_eq action "started" ≡ false
  step_action-not_started action h = elim (Bool-cases (str_eq action "started")) [
    | inl y ↦
        let same = (str_eq_iff action "started").0 y in
        let k : is_step_action c "started" ≡ true = subst (λ a. is_step_action c a ≡ true) same h in
        cc k
    | inr n ↦ n
  ]

  -- What an action that is checked does to the run, by its event.
  abbrev pub Performed : WorkflowRun Value → Event Value → String → Type 0
  Performed r e action =
      (r' : WorkflowRun Value) × (apply_action c r e action ≡ ok r')
      × Step c r r'
      × (str_eq action "started" ≡ false)

  -- The metadata of the event names the step that the action is on.
  abbrev pub Says : Event Value → Option String → Type 0
  Says e none = Unit
  Says e (some id) = metadata_string c e "step_id" ≡ ok id

  module _ (r : WorkflowRun Value) (e : Event Value) where
    named-Step :
        (action id : String) {s : StepSummary Value}
        → is_step_action c action ≡ true
        → find (named id) r.steps ≡ some s
        → metadata_string c e "step_id" ≡ ok id
        → ((r' : WorkflowRun Value) → apply_action c r e action ≡ ok r' → Step c r r')
        → Performed r e action
    named-Step action id is found says step =
        let applied = apply_action_found c r e action id is says found in
        (_, applied, step _ applied, step_action-not_started action is)

    completes : (r' : WorkflowRun Value) × (apply_action c r e "completed" ≡ ok r')
    unfolding apply_action
    completes = (_, refl)

    aborts : (r' : WorkflowRun Value) × (apply_action c r e "aborted" ≡ ok r')
    unfolding apply_action
    aborts = (_, refl)

    -- What a check that accepts promises.
    abbrev pub Kept : String × Option String × Option Value → Type 0
    Kept (action, step_id, value) = Says e step_id → Performed r e action

    pub checked_action-Kept :
        (requested : WorkflowAction Value) {out : String × Option String × Option Value}
        → checked_action c e.agent r requested ≡ ok out
        → Kept out
    unfolding checked_action validate_claim
    checked_action-Kept (claim_step id takeover) {out} h =
        let (action, checked, end) = >>=-eq-ok (validate_claim c r id takeover) _ h in
        let (live, (s, next, same, may)) =
          (validate_claim_for_agent_iff c r id takeover none action).0 checked in
        let is = MayClaim-is_step_action c r id none s.status takeover action may in
        let (t, found) = find-some (named id) is_open r.steps next ((str_eq_iff s.id id).1 same) in
        let last : (action, some id, some (c.object (("takeover", c.bool takeover) ∷ []))) ≡ out =
          cc end in
        subst Kept last (λ says.
          named-Step action id is found says
            (λ r' applied. claim e id action takeover none checked says applied))
    checked_action-Kept (complete_step id approval output) {out} h =
        let (_, checked, end) = >>=-eq-ok (validate_complete c r id e.agent approval) _ h in
        let (s, found, _, _, _) = (validate_complete_iff c r id e.agent approval).0 checked in
        let last : ("completed_step", some id, some (checkpoint c approval output)) ≡ out =
          cc end in
        subst Kept last (λ says.
          named-Step "completed_step" id refl found says
            (λ r' applied. complete e id approval checked says applied))
    checked_action-Kept (fail_step id error) {out} h =
        let (s, checked, h1) = >>=-eq-ok (validate_step_claimed c r id) _ h in
        let (_, owned, end) = >>=-eq-ok (reject_if (not (is_text s.claimed_by e.agent)) _) _ h1 in
        let (found, _) = validate_step_claimed-eq-ok c r id checked in
        let mine = not-eq-false (is_text s.claimed_by e.agent) (reject_if-eq-ok _ _ owned) in
        let last : ("failed_step", some id, error) ≡ out = cc end in
        subst Kept last (λ says.
          named-Step "failed_step" id refl found says
            (λ r' applied. fail e id s checked mine says applied))
    checked_action-Kept (reconcile_step id approval output) {out} h =
        let (_, checked, end) = >>=-eq-ok (validate_reconcile c r id approval) _ h in
        let (s, found, _, _) = (validate_reconcile_iff c r id approval).0 checked in
        let last : ("reconciled", some id, some (checkpoint c approval output)) ≡ out = cc end in
        subst Kept last (λ says.
          named-Step "reconciled" id refl found says
            (λ r' applied. reconcile e id approval checked says applied))
    checked_action-Kept complete_run {out} h =
        let (_, checked, end) = >>=-eq-ok (validate_run_complete c r) _ h in
        let last : ("completed", none, none) ≡ out = cc end in
        subst Kept last
          (λ _. let (r', applied) = completes in (r', applied, finish e checked applied, refl))
    checked_action-Kept abort_run {out} h =
        let last : ("aborted", none, none) ≡ out = cc h in
        subst Kept last (λ _. let (r', applied) = aborts in (r', applied, abort e applied, refl))
