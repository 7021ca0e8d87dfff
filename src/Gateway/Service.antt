-- ===== src/Gateway/Service.antt =====
-- src/gateway.rs: the commands of the service. The state of the backends is of a type `B`, and a
-- runner gives an error's text or a JSON value for a project and a command, and changes that state.
use shuttle_rs.Prelude.{
  String, Option, none, some, List, [], ◌∷◌, Bool, true, false, ◌||◌, ◌⊎◌, inl, inr, str_eq,
  is_blank, any, if◌then◌else◌, ◌&◌,
}
use shuttle_rs.Core.{
  EventType, memory, decision, observation, pattern, fact, bug, Result, ok, err, store, reject_if,
}
use shuttle_rs.Gateway.Registry.{Project, GatewayService, resolve, debug}

pub record ServiceResponse (V : Type 0) : Type 0 where
  pub project : String
  pub result : V
  pub stored : Option Bool

abbrev pub Runner : Type 0 → Type 0 → Type 0
Runner B V = Project → List String → B → (String ⊎ V) × B

unfoldable pub require_non_empty : String → String → Result (Unit {0})
unfolding is_blank
require_non_empty value message = reject_if (is_blank value) (store message)

-- The `match` on the kind of a memory.
unfoldable pub memory_command : String → Result String
memory_command kind =
    if str_eq kind "" || str_eq kind "memory"
    then ok "remember"
    else if str_eq kind "decision"
    then ok "decide"
    else if str_eq kind "observation"
    then ok "observe"
    else if str_eq kind "pattern"
    then ok "pattern"
    else if str_eq kind "fact"
    then ok "fact"
    else if str_eq kind "bug"
    then ok "bug"
    else err (store ("unknown memory kind " & debug kind))

unfoldable pub is_memory_command : String → Bool
is_memory_command command =
    any (str_eq command) ("remember" ∷ "decide" ∷ "observe" ∷ "pattern" ∷ "fact" ∷ "bug" ∷ [])

unfoldable pub memory_event_type_for_command : String → EventType
memory_event_type_for_command command =
    if str_eq command "decide"
    then decision
    else if str_eq command "observe"
    then observation
    else if str_eq command "pattern"
    then pattern
    else if str_eq command "fact"
    then fact
    else if str_eq command "bug"
    then bug
    else memory

unfoldable pub memory_kind_for_command : String → String
memory_kind_for_command command =
    if str_eq command "decide"
    then "decision"
    else if str_eq command "observe"
    then "observation"
    else if str_eq command "pattern"
    then "pattern"
    else if str_eq command "fact"
    then "fact"
    else if str_eq command "bug"
    then "bug"
    else "memory"

module _ {B V : Type 0} (runner : Runner B V) where
  -- An operation that does not fail before it starts leaves the backends to the runner.
  abbrev pub Call : Type 0
  Call = B → Result (ServiceResponse V) × B

  -- `?` on a check, before the state is touched
  abbrev pub checked : {A : Type 0} → Result A → (A → Call) → Call
  checked (err failure) rest b = (err failure, b)
  checked (ok value) rest b = rest value b

  abbrev pub settled : Project → Bool → (String ⊎ V) × B → Result (ServiceResponse V) × B
  settled project write (inl error, b) =
      (err (store ("stl failed for project " & project.name & ": " & error)), b)
  settled project write (inr value, b) = (
    ok (record {
      project = project.name;
      result = value;
      stored = if write then some true else none;
    }),
    b,
  )

  unfoldable pub run : GatewayService → String → Bool → List String → Call
  unfolding resolve
  run service project write args =
      checked (resolve project write service.projects)
        (λ found b. settled found write (runner found args b))

  unfoldable pub context : GatewayService → String → Call
  unfolding run
  context service project = run service project false ("context" ∷ [])

  unfoldable pub recall : GatewayService → String → String → Call
  unfolding run require_non_empty
  recall service project query =
      checked (require_non_empty query "query is required")
        (λ _. run service project false ("recall" ∷ query ∷ []))

  unfoldable pub remember : GatewayService → String → String → String → Call
  unfolding run require_non_empty memory_command
  remember service project kind text = checked (require_non_empty text "text is required") (λ _.
      checked (memory_command kind) (λ command. run service project true (command ∷ text ∷ [])))

  unfoldable pub task_list : GatewayService → String → Call
  unfolding run
  task_list service project = run service project false ("task" ∷ "list" ∷ [])

  unfoldable pub task_create : GatewayService → String → String → String → Call
  unfolding run require_non_empty
  task_create service project title body =
      let content = if str_eq body "" then title else title & "\n\n" & body in
      checked (require_non_empty title "title is required")
        (λ _. run service project true ("task" ∷ "create" ∷ content ∷ []))

  unfoldable pub task_update : GatewayService → String → String → String → Call
  unfolding run require_non_empty
  task_update service project id text = checked (require_non_empty id "task id is required") (λ _.
      checked (require_non_empty text "text is required")
        (λ _. run service project true ("task" ∷ "update" ∷ id ∷ text ∷ [])))

  unfoldable pub task_done : GatewayService → String → String → Call
  unfolding run require_non_empty
  task_done service project id =
      checked (require_non_empty id "task id is required")
        (λ _. run service project true ("task" ∷ "done" ∷ id ∷ []))
