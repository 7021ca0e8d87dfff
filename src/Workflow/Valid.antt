-- ===== src/Workflow/Valid.antt =====
-- What `validate_manifest` of src/workflow.rs accepts, stated without its loops and sets.
use shuttle_rs.Prelude.{
  ℕ, String, ◌≡◌, refl, List, [], ◌∷◌, Bool, true, false, ==_iff, ◌↔◌, str_eq, any, is_empty,
  contains, All, arith, not-eq-false,
}
use shuttle_rs.Core.{ok, >>=-eq-ok, reject_if-eq-ok}
use shuttle_rs.Workflow.Manifest.{
  FilePath, WorkflowStep, WorkflowDefinition, WorkflowManifest, is_id, is_absolute, is_parent_dir,
  validate_id, validate_repo_path, validate_steps, validate_workflows, validate_manifest,
}

-- No two members have one identifier.
abbrev pub Distinct : {A : Type 0} → (A → String) → List A → Type 0
Distinct id [] = Unit
Distinct id (x ∷ xs) = All (λ y. str_eq (id x) (id y) ≡ false) xs × Distinct id xs

-- A path that stays in the repository.
abbrev pub IsInside : FilePath → Type 0
IsInside path = (is_absolute path ≡ false) × (any is_parent_dir path.components ≡ false)

pub record IsValidWorkflow (is_file : FilePath → Bool) (w : WorkflowDefinition) : Type 0 where
  pub id : is_id w.id ≡ true
  pub inside : IsInside w.spec
  pub file : is_file w.spec ≡ true
  pub nonempty : is_empty w.steps ≡ false
  pub step_ids : All (λ s. is_id s.id ≡ true) w.steps
  pub distinct : Distinct (λ s. s.id) w.steps

pub record IsValidManifest (is_file : FilePath → Bool) (m : WorkflowManifest) : Type 0 where
  pub version : m.version ≡ 1
  pub workflows : All (IsValidWorkflow is_file) m.workflows
  pub distinct : Distinct (λ w. w.id) m.workflows

module _ {A : Type 0} (id : A → String) where
  abbrev Unseen : List String → List A → Type 0
  Unseen seen xs = All (λ x. contains seen (id x) ≡ false) xs

  Unseen-split :
      (x : A) (seen : List String) (xs : List A)
      → Unseen (id x ∷ seen) xs
      → All (λ y. str_eq (id x) (id y) ≡ false) xs × Unseen seen xs
  Unseen-split x seen [] h = (tt, tt)
  Unseen-split x seen (y ∷ ys) h =
      let (a, b) = Unseen-split x seen ys h.1 in
      ((ground (arith, h.0), a), (ground (arith, h.0), b))

  Unseen-join :
      (x : A) (seen : List String) (xs : List A)
      → All (λ y. str_eq (id x) (id y) ≡ false) xs
      → Unseen seen xs
      → Unseen (id x ∷ seen) xs
  Unseen-join x seen [] h k = tt
  Unseen-join x seen (y ∷ ys) h k = (ground (arith, h.0, k.0), Unseen-join x seen ys h.1 k.1)

  Unseen-none : (xs : List A) → Unseen [] xs
  Unseen-none [] = tt
  Unseen-none (x ∷ xs) = (refl, Unseen-none xs)

validate_id_iff : (kind id : String) → (validate_id kind id ≡ ok tt) ↔ (is_id id ≡ true)
unfolding validate_id
validate_id_iff kind id = (λ h. ground arith, λ h. ground arith)

validate_repo_path_iff :
    (is_file : FilePath → Bool) (path : FilePath)
    → (validate_repo_path is_file path ≡ ok tt) ↔ (IsInside path × (is_file path ≡ true))
unfolding validate_repo_path
validate_repo_path_iff is_file path = (λ h. ground arith, λ h. ground arith)

validate_steps_sound :
    (id : String) (seen : List String) (steps : List WorkflowStep)
    → validate_steps id seen steps ≡ ok tt
    → All (λ s. is_id s.id ≡ true) steps
      × Unseen (λ s. s.id) seen steps
      × Distinct (λ s. s.id) steps
unfolding validate_steps
validate_steps_sound id seen [] h = (tt, tt, tt)
validate_steps_sound id seen (s ∷ steps) h =
    let (_, valid, h') = >>=-eq-ok _ _ h in
    let (_, fresh, h'') = >>=-eq-ok _ _ h' in
    let (ids, unseen, distinct) = validate_steps_sound id (s.id ∷ seen) steps h'' in
    let (apart, rest) = Unseen-split (λ t. t.id) s seen steps unseen in
    (
      ((validate_id_iff "step" s.id).0 valid, ids),
      (reject_if-eq-ok _ _ fresh, rest),
      (apart, distinct),
    )

validate_steps_complete :
    (id : String) (seen : List String) (steps : List WorkflowStep)
    → All (λ s. is_id s.id ≡ true) steps
    → Unseen (λ s. s.id) seen steps
    → Distinct (λ s. s.id) steps
    → validate_steps id seen steps ≡ ok tt
unfolding validate_steps
validate_steps_complete id seen [] ids unseen distinct = refl
validate_steps_complete id seen (s ∷ steps) ids unseen distinct =
    rw ((validate_id_iff "step" s.id).1 ids.0, unseen.0)
      (validate_steps_complete id (s.id ∷ seen) steps ids.1
        (Unseen-join (λ t. t.id) s seen steps distinct.0 unseen.1) distinct.1)

module _ (is_file : FilePath → Bool) where
  validate_workflows_sound :
      (seen : List String) (ws : List WorkflowDefinition)
      → validate_workflows is_file seen ws ≡ ok tt
      → All (IsValidWorkflow is_file) ws × Unseen (λ w. w.id) seen ws × Distinct (λ w. w.id) ws
  unfolding validate_workflows
  validate_workflows_sound seen [] h = (tt, tt, tt)
  validate_workflows_sound seen (w ∷ ws) h =
      let (_, valid, h₁) = >>=-eq-ok _ _ h in
      let (_, fresh, h₂) = >>=-eq-ok _ _ h₁ in
      let (_, path, h₃) = >>=-eq-ok _ _ h₂ in
      let (_, nonempty, h₄) = >>=-eq-ok _ _ h₃ in
      let (_, steps, h₅) = >>=-eq-ok _ _ h₄ in
      let (workflows, unseen, distinct) = validate_workflows_sound (w.id ∷ seen) ws h₅ in
      let (apart, rest) = Unseen-split (λ t. t.id) w seen ws unseen in
      let (inside, file) = (validate_repo_path_iff is_file w.spec).0 path in
      let (step_ids, _, step_distinct) = validate_steps_sound w.id [] w.steps steps in
      (
        (
          record {
            id = (validate_id_iff "workflow" w.id).0 valid;
            inside = inside;
            file = file;
            nonempty = reject_if-eq-ok _ _ nonempty;
            step_ids = step_ids;
            distinct = step_distinct;
          },
          workflows,
        ),
        (reject_if-eq-ok _ _ fresh, rest),
        (apart, distinct),
      )

  validate_workflows_complete :
      (seen : List String) (ws : List WorkflowDefinition)
      → All (IsValidWorkflow is_file) ws
      → Unseen (λ w. w.id) seen ws
      → Distinct (λ w. w.id) ws
      → validate_workflows is_file seen ws ≡ ok tt
  unfolding validate_workflows
  validate_workflows_complete seen [] valid unseen distinct = refl
  validate_workflows_complete seen (w ∷ ws) (v, valid) unseen distinct =
      rw
        (
          (validate_id_iff "workflow" w.id).1 v.id,
          unseen.0,
          (validate_repo_path_iff is_file w.spec).1 (v.inside, v.file),
          v.nonempty,
          validate_steps_complete w.id [] w.steps v.step_ids (Unseen-none (λ s. s.id) w.steps)
              v.distinct,
        )
        (validate_workflows_complete (w.id ∷ seen) ws valid
          (Unseen-join (λ t. t.id) w seen ws distinct.0 unseen.1) distinct.1)

  -- A manifest is accepted exactly if its version is 1, its workflows have distinct identifiers, and
  -- each of them has a well-formed identifier, a specification that is a file inside the repository,
  -- and at least one step, with well-formed and distinct step identifiers.
  pub validate_manifest_iff :
      (version_text : ℕ → String) (m : WorkflowManifest)
      → (validate_manifest version_text is_file m ≡ ok tt) ↔ IsValidManifest is_file m
  unfolding validate_manifest
  validate_manifest_iff version_text m = (
    λ h.
        let (_, version, h') = >>=-eq-ok _ _ h in
        let (workflows, _, distinct) = validate_workflows_sound [] m.workflows h' in
        record {
          version = (==_iff m.version 1).0 (not-eq-false _ (reject_if-eq-ok _ _ version));
          workflows = workflows;
          distinct = distinct;
        },
    λ v. rw v.version (
        validate_workflows_complete [] m.workflows v.workflows (Unseen-none (λ w. w.id) m.workflows)
          v.distinct),
  )
