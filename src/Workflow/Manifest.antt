-- ===== src/Workflow/Manifest.antt =====
-- src/workflow.rs: the manifest, and `validate_manifest` with what it calls. A path is the list of
-- its components, as `Path::components` gives it; which files exist is a parameter.
use shuttle_rs.Prelude.{
  ℕ, String, List, [], ◌∷◌, Bool, true, false, not, ◌&&◌, ◌||◌, ◌==◌, leb, ◌&◌, str_eq,
  if◌then◌else◌, any, all, find, is_empty, codes, contains,
}
use shuttle_rs.Core.{Result, ok, err, store, ◌>>◌, ok_or, reject_if}

pub data StepKind : Type 0 where
  read_only idempotent non_idempotent : StepKind

pub data Component : Type 0 where
  root_dir cur_dir parent_dir : Component
  normal : String → Component

-- `PathBuf`: its text, and its components on Unix.
pub record FilePath : Type 0 where
  pub text : String
  pub components : List Component

abbrev pub is_parent_dir : Component → Bool
is_parent_dir parent_dir = true
is_parent_dir _ = false

-- `Path::is_absolute` on Unix
abbrev pub is_absolute : FilePath → Bool
is_absolute path = elim path.components [
  | [] ↦ false
  | d ∷ ds ↦ elim d [ root_dir ↦ true | _ ↦ false ]
]

pub record WorkflowStep : Type 0 where
  pub id : String
  pub title : String
  pub kind : StepKind
  pub approval_required : Bool

pub record WorkflowDefinition : Type 0 where
  pub id : String
  pub title : String
  pub spec : FilePath
  pub steps : List WorkflowStep

pub record WorkflowManifest : Type 0 where
  pub version : ℕ
  pub workflows : List WorkflowDefinition

abbrev pub invalid {ℓ} : {A : Type ℓ} → String → Result A
invalid message = err (store message)

-- `byte.is_ascii_lowercase() || byte.is_ascii_digit() || byte == b'-'`
abbrev pub is_id_byte : ℕ → Bool
is_id_byte byte =
    (leb b'a' byte && leb byte b'z') || (leb b'0' byte && leb byte b'9') || byte == b'-'

abbrev pub is_id : String → Bool
is_id id = not (is_empty (codes id)) && all is_id_byte (codes id)

unfoldable pub validate_id : String → String → Result (Unit {0})
validate_id kind id =
    if is_empty (codes id) || not (all is_id_byte (codes id))
    then invalid ("invalid " & kind & " id: " & id)
    else ok tt

-- `is_file` tells whether `repo.join(path)` is a file.
unfoldable pub validate_repo_path : (FilePath → Bool) → FilePath → Result (Unit {0})
validate_repo_path is_file path = do
  reject_if (is_absolute path || any is_parent_dir path.components)
      (store ("spec path must stay inside the repository: " & path.text))
  reject_if (not (is_file path)) (store ("workflow spec does not exist: " & path.text))
  ok tt

-- The loop over the steps of a workflow; `seen` is the set `step_ids`.
unfoldable pub validate_steps : String → List String → List WorkflowStep → Result (Unit {0})
unfolding validate_id
validate_steps workflow_id seen [] = ok tt
validate_steps workflow_id seen (step ∷ steps) = do
  validate_id "step" step.id
  reject_if (contains seen step.id) (store ("duplicate step id in " & workflow_id & ": " & step.id))
  validate_steps workflow_id (step.id ∷ seen) steps

-- The loop over the workflows; `seen` is the set `workflow_ids`.
unfoldable pub validate_workflows :
    (FilePath → Bool) → List String → List WorkflowDefinition → Result (Unit {0})
unfolding validate_id validate_repo_path validate_steps
validate_workflows is_file seen [] = ok tt
validate_workflows is_file seen (workflow ∷ workflows) = do
  validate_id "workflow" workflow.id
  reject_if (contains seen workflow.id) (store ("duplicate workflow id: " & workflow.id))
  validate_repo_path is_file workflow.spec
  reject_if (is_empty workflow.steps) (store ("workflow " & workflow.id & " has no steps"))
  validate_steps workflow.id [] workflow.steps
  validate_workflows is_file (workflow.id ∷ seen) workflows

-- `version_text` is `Display for u32`.
unfoldable pub validate_manifest :
    (ℕ → String) → (FilePath → Bool) → WorkflowManifest → Result (Unit {0})
unfolding validate_workflows
validate_manifest version_text is_file manifest = do
  reject_if (not (manifest.version == 1))
      (store ("unsupported workflow manifest version " & version_text manifest.version))
  validate_workflows is_file [] manifest.workflows

unfoldable pub definition : WorkflowManifest → String → Result WorkflowDefinition
definition manifest id =
    ok_or (find (λ w. str_eq w.id id) manifest.workflows) (store ("unknown workflow: " & id))
