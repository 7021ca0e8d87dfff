-- ===== src/Context/Status.antt =====
-- src/context.rs: what git reports of a repository. The run of a command is a parameter.
use Prim.Native.Char.{code}
use shuttle_rs.Prelude.{
  ℕ, String, ◌⊎◌, inl, inr, Option, none, some, List, [], ◌∷◌, Bool, not, ◌&◌, ◌-◌, leb, ◌==◌,
  str_eq, if◌then◌else◌, and_then, filter_map, is_empty, length, lines, split_once, trim,
}
use shuttle_rs.Prelude.Bytes.{encoded}
use shuttle_rs.Core.{Result, ok, err, store, ◌>>=◌}
use shuttle_rs.Context.{RepoStatus}

-- `Output`, with the texts of `String::from_utf8_lossy`
pub record Output : Type 0 where
  pub success : Bool
  pub stdout : String
  pub stderr : String

-- `Command::new("git")` in a directory, with its arguments; it fails with the text of its error.
abbrev pub Command : Type 0
Command = String → List String → String ⊎ Output

abbrev output_of : String ⊎ Output → Result String
output_of (inl error) = err (store ("failed to run git: " & error))
output_of (inr output) =
    if not output.success
    then err (store ("git command failed: " & trim output.stderr))
    else ok output.stdout

unfoldable pub git : Command → String → List String → Result String
git command path args = output_of (command path args)

-- `line.get(n..)`, which is none beyond the end and inside of a character
abbrev pub from_byte : ℕ → String → Option String
from_byte n String.[] = if n == 0 then some "" else none
from_byte n (String.◌∷◌ c rest) =
    let width = length (encoded (code c)) in
    let after = from_byte (n - width) rest in
    if n == 0 then some (String.◌∷◌ c rest) else if leb width n then after else none

-- The path that a line of `git status --porcelain` reports as changed.
abbrev pub destination : String → Option (String × String) → String
destination path none = path
destination path (some (source, renamed)) = renamed

abbrev pub dirty_file : String → Option String
dirty_file line = and_then (from_byte 3 line) (λ rest.
    let path = trim rest in
    if str_eq path "" then none else some (destination path (split_once path " -> ")))

unfoldable pub parse_dirty_files : String → List String
unfolding trim
parse_dirty_files status = filter_map dirty_file (lines status)

abbrev pub non_empty : String → Option String
non_empty value = if str_eq value "" then none else some value

abbrev pub remote_of : Result String → Option String
remote_of (err failure) = none
remote_of (ok value) = non_empty (trim value)

unfoldable pub repo_status : Command → String → Result RepoStatus
unfolding git parse_dirty_files trim
repo_status command path = do
  top ← git command path ("rev-parse" ∷ "--show-toplevel" ∷ [])
  let repo_path = trim top
  branch ← git command repo_path ("rev-parse" ∷ "--abbrev-ref" ∷ "HEAD" ∷ [])
  commit ← git command repo_path ("rev-parse" ∷ "HEAD" ∷ [])
  let remote = git command repo_path ("config" ∷ "--get" ∷ "remote.origin.url" ∷ [])
  status ← git command repo_path ("status" ∷ "--porcelain" ∷ [])
  let dirty_files = parse_dirty_files status
  ok (record {
    repo_path = repo_path;
    git_remote = remote_of remote;
    branch = trim branch;
    commit = trim commit;
    dirty = not (is_empty dirty_files);
    dirty_files = dirty_files;
  })
