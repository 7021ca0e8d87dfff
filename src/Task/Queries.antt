-- ===== src/Task/Queries.antt =====
-- src/task.rs: the queries on tasks and handoffs, over any event store.
use shuttle_rs.Prelude.{
  ℕ, String, Option, none, some, List, ◌==◌, Bool, true, false, ◌&◌, if◌then◌else◌, unwrap_or, any,
  retain, take,
}
use shuttle_rs.Prelude.Sorting.{sort_by, by_descending}
use shuttle_rs.Crates.{Crates}
use shuttle_rs.Core.{
  EventStore, Result, ok, err, store, ◌>>=◌, default_filter, u32_max, task, handoff,
}
use shuttle_rs.Task.Events.{TaskStatus, TaskSummary, HandoffStatus, HandoffSummary}
use shuttle_rs.Task.Project.{project_tasks, project_handoffs}

abbrev pub is_open : TaskSummary → Bool
is_open t = elim t.status [ TaskStatus.open_task ↦ true | _ ↦ false ]

abbrev pub is_claimed : TaskSummary → Bool
is_claimed t = elim t.status [ TaskStatus.claimed ↦ true | _ ↦ false ]

abbrev pub is_pending : HandoffSummary → Bool
is_pending h = elim h.status [ HandoffStatus.pending ↦ true | _ ↦ false ]

abbrev pub is_completed : HandoffSummary → Bool
is_completed h = elim h.status [ HandoffStatus.completed ↦ true | _ ↦ false ]

-- `if let Some(limit) = limit { list.truncate(limit) }`
abbrev pub truncate_opt {ℓ} : {A : Type ℓ} → Option ℕ → List A → List A
truncate_opt none xs = xs
truncate_opt (some n) xs = take n xs

unfoldable pub latest_tasks_first : List TaskSummary → List TaskSummary
latest_tasks_first = sort_by (by_descending (λ t. t.updated_at) (λ t. t.id))

unfoldable pub latest_handoffs_first : List HandoffSummary → List HandoffSummary
latest_handoffs_first = sort_by (by_descending (λ h. h.updated_at) (λ h. h.id))

module _ (c : Crates) {S : Type 0} (s : EventStore S c.Value) where
  unfoldable pub tasks : Option String → Option ℕ → S → Result (List TaskSummary)
  unfolding latest_tasks_first
  tasks workspace_id limit state = do
    events ←
        s.list
          (record default_filter {
            event_type = some task;
            workspace_id = workspace_id;
            limit = some u32_max;
          })
          state
    ok (truncate_opt limit (latest_tasks_first (project_tasks c events)))

  unfoldable pub list : S → Result (List TaskSummary)
  unfolding tasks
  list = tasks none none

  unfoldable pub open_tasks : String → Option ℕ → S → Result (List TaskSummary)
  unfolding tasks
  open_tasks workspace_id limit state = do
    found ← tasks (some workspace_id) none state
    ok (take (unwrap_or limit 20) (retain is_open found))

  unfoldable pub ensure_task_exists : String → ℕ → S → Result (Unit {0})
  unfolding tasks
  ensure_task_exists workspace_id task_id state = do
    found ← tasks (some workspace_id) none state
    if any (λ t. t.id == task_id) found
        then ok tt
        else err (store ("unknown task id: " & c.uuid_text task_id))

  unfoldable pub claimed_tasks : String → Option ℕ → S → Result (List TaskSummary)
  unfolding tasks
  claimed_tasks workspace_id limit state = do
    found ← tasks (some workspace_id) none state
    ok (take (unwrap_or limit 20) (retain is_claimed found))

  unfoldable pub handoffs : Option String → Option ℕ → S → Result (List HandoffSummary)
  unfolding latest_handoffs_first
  handoffs workspace_id limit state = do
    events ←
        s.list
          (record default_filter {
            event_type = some handoff;
            workspace_id = workspace_id;
            limit = some u32_max;
          })
          state
    ok (truncate_opt limit (latest_handoffs_first (project_handoffs c events)))

  unfoldable pub pending_handoffs : String → Option ℕ → S → Result (List HandoffSummary)
  unfolding handoffs
  pending_handoffs workspace_id limit state = do
    found ← handoffs (some workspace_id) none state
    ok (take (unwrap_or limit 20) (retain is_pending found))

  unfoldable pub completed_handoffs : String → Option ℕ → S → Result (List HandoffSummary)
  unfolding handoffs
  completed_handoffs workspace_id limit state = do
    found ← handoffs (some workspace_id) none state
    ok (take (unwrap_or limit 20) (retain is_completed found))

  unfoldable pub ensure_handoff_exists : String → ℕ → S → Result (Unit {0})
  unfolding handoffs
  ensure_handoff_exists workspace_id handoff_id state = do
    found ← handoffs (some workspace_id) none state
    if any (λ h. h.id == handoff_id) found
        then ok tt
        else err (store ("unknown handoff id: " & c.uuid_text handoff_id))
