-- ===== src/Workflow/Start.antt =====
-- A run that starts from an accepted manifest, and the actions that need a step to be claimed.
use shuttle_rs.Prelude.{
  ℕ, String, ◌≡◌, refl, none, some, List, [], ◌∷◌, Bool, false, str_eq, map, All, inr,
}
use shuttle_rs.Crates.{Crates, field}
use shuttle_rs.Core.{Event, Stamp, ok}
use shuttle_rs.Workflow.Manifest.{FilePath, WorkflowStep, WorkflowDefinition}
use shuttle_rs.Workflow.Run.{RunStatus, StepSummary, WorkflowRun}
use shuttle_rs.Workflow.Project.{
  StepsCodec, start_event, action_event, metadata_string, metadata_uuid, pending_step, started_run,
}
use shuttle_rs.Workflow.Valid.{Distinct, IsValidWorkflow}
use shuttle_rs.Workflow.Steps.{InOrder, DistinctIds, IsPending}
use shuttle_rs.Workflow.Protocol.{Reach, IsOrderly, Reach-IsOrderly}

module _ (c : Crates) where
  metadata_string-object :
      (e : Event c.Value) (fields : List (String × c.Value)) (k s : String)
      → e.metadata_json ≡ c.object fields
      → field k fields ≡ some (c.text s)
      → metadata_string c e k ≡ ok s
  unfolding metadata_string
  metadata_string-object e fields k s m f = rw (m, c.get-object fields k, f, c.as_str-text s)

  map-IsPending : (steps : List WorkflowStep) → All IsPending (map (pending_step c) steps)
  unfolding pending_step
  map-IsPending [] = tt
  map-IsPending (s ∷ steps) = (refl, map-IsPending steps)

  map-DistinctIds :
      (steps : List WorkflowStep)
      → Distinct (λ s. s.id) steps
      → DistinctIds (map (pending_step c) steps)
  unfolding pending_step
  map-DistinctIds [] h = tt
  map-DistinctIds (s ∷ steps) h = (apart steps h.0, map-DistinctIds steps h.1)
    where
      apart :
          (l : List WorkflowStep)
          → All (λ t. str_eq s.id t.id ≡ false) l
          → All (λ (t : StepSummary c.Value). str_eq s.id t.id ≡ false) (map (pending_step c) l)
      apart [] k = tt
      apart (t ∷ l) k = (k.0, apart l k.1)

  IsPending-InOrder : (steps : List (StepSummary c.Value)) → All IsPending steps → InOrder steps
  IsPending-InOrder [] h = tt
  IsPending-InOrder (s ∷ steps) h = inr h.1

module _ (c : Crates) (codec : StepsCodec c) (st : Stamp) (workspace agent session : String) where
  -- The event that starts a workflow is read back as an active run with the workflow's identifier,
  -- title, path and input, whose steps are those of the workflow, all pending and unclaimed.
  pub started_run-start_event :
      (run_id : ℕ) (w : WorkflowDefinition) (input : c.Value)
      → let e = start_event c st codec run_id workspace agent session w input in
        (metadata_uuid c e "run_id" ≡ ok run_id)
        × (metadata_string c e "action" ≡ ok "started")
        × (started_run c codec e run_id
            ≡ ok (record {
              id = run_id;
              workflow_id = w.id;
              title = w.title;
              spec = w.spec.text;
              status = RunStatus.active;
              input = input;
              steps = map (pending_step c) w.steps;
              current_step = none;
              created_at = st.now;
              updated_at = st.now;
              source_event_ids = st.new_id ∷ [];
            }))
  unfolding start_event metadata_uuid started_run field
  started_run-start_event run_id w input = (
    simp (c.get-object, c.as_str-text, c.parse-uuid_text),
    simp (c.get-object, c.as_str-text),
    simp (c.get-object, c.as_str-text, codec.from-to_value),
  )

  -- The event of an action is read back with its run, its action, its step and its value.
  action_event_lem :
      (run_id : ℕ) (action id : String) (value : c.Value)
      → let e = action_event c st workspace agent session run_id action (some id) (some value) in
        (metadata_uuid c e "run_id" ≡ ok run_id)
        × (metadata_string c e "action" ≡ ok action)
        × (metadata_string c e "step_id" ≡ ok id)
        × (c.get e.metadata_json "value" ≡ some value)
  unfolding action_event metadata_uuid field
  action_event_lem run_id action id value = (
    simp (c.get-object, c.as_str-text, c.parse-uuid_text),
    simp (c.get-object, c.as_str-text),
    simp (c.get-object, c.as_str-text),
    simp c.get-object,
  )

  -- However the commands act on a run of a workflow that a valid manifest defines, its steps are
  -- worked on one at a time and in order, and the run counts as completed only with no step left.
  pub workflow_in_order :
      (is_file : FilePath → Bool) (run_id : ℕ) (w : WorkflowDefinition) (input : c.Value)
      {r r' : WorkflowRun c.Value}
      → IsValidWorkflow is_file w
      → started_run c codec (start_event c st codec run_id workspace agent session w input) run_id
        ≡ ok r
      → Reach c r r'
      → IsOrderly c r'
  workflow_in_order is_file run_id w input {r} valid started reach =
      let (_, _, is) = started_run-start_event run_id w input in
      let steps : r.steps ≡ map (pending_step c) w.steps = cc (is, started) in
      let status : r.status ≡ RunStatus.active = cc (is, started) in
      Reach-IsOrderly c
        (record {
          distinct = rw steps (map-DistinctIds c w.steps valid.distinct);
          in_order = rw steps (IsPending-InOrder c _ (map-IsPending c w.steps));
          done = λ e. cc;
        })
        reach
