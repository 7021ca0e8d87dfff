-- ===== src/Workflow/Load.antt =====
-- src/workflow.rs: the manifest of a repository, from its file. Reading the file and parsing TOML are
-- parameters.
use shuttle_rs.Prelude.{ℕ, String, ◌⊎◌, inl, inr, Option, none, some, Bool, not, ◌&◌, if◌then◌else◌}
use shuttle_rs.Core.{Result, ok, err, store, serialization, ◌>>=◌, ◌>>◌}
use shuttle_rs.Workflow.Manifest.{FilePath, WorkflowManifest, validate_manifest}

abbrev pub manifest_file : String
manifest_file = "shuttle.workflows.toml"

-- What the code reads from a disk, and the TOML parser. A failure is the text of its error.
pub record Disk : Type 0 where
  pub read_to_string : String → String ⊎ String
  pub from_str : String → String ⊎ WorkflowManifest
  pub is_file : String → Bool
  -- whether a path is a file in the repository
  pub holds_file : String → FilePath → Bool
  -- `repo.join(name)`, for a name that is no path
  pub join : String → String → String
  -- `Display for u32`
  pub version_text : ℕ → String

module _ (disk : Disk) where
  abbrev content_of : String → String ⊎ String → Result String
  content_of path (inl error) = err (store ("failed to read " & path & ": " & error))
  content_of path (inr content) = ok content

  abbrev manifest_of : String → String ⊎ WorkflowManifest → Result WorkflowManifest
  manifest_of path (inl error) = err (serialization ("invalid " & path & ": " & error))
  manifest_of path (inr manifest) = ok manifest

  unfoldable pub load_manifest : String → Result WorkflowManifest
  unfolding validate_manifest
  load_manifest repo = do
    let path = disk.join repo manifest_file
    content ← content_of path (disk.read_to_string path)
    manifest ← manifest_of path (disk.from_str content)
    validate_manifest disk.version_text (disk.holds_file repo) manifest
    ok manifest

  unfoldable pub load_manifest_if_present : String → Result (Option WorkflowManifest)
  unfolding load_manifest
  load_manifest_if_present repo =
      if not (disk.is_file (disk.join repo manifest_file))
      then ok none
      else (load_manifest repo >>= λ manifest. ok (some manifest))
