-- ===== src/Tests/TaskTests.antt =====
-- The theorems on src/core.rs and src/task.rs at a log of three events, and runs of the projections.
use mathlib.Core.List.{Permᴰ}
use shuttle_rs.Prelude.{All, ℕ, ◌≡◌, refl, some, none, List, [], ◌∷◌, strip_prefix}
use shuttle_rs.Prelude.Maps
use shuttle_rs.Prelude.Maps.{Map}
use shuttle_rs.Prelude.Sorting.{AllDistinct, sort_by}
use shuttle_rs.Core.{Event, Stamp}
use shuttle_rs.Crates.{field}
use shuttle_rs.Task.Events.{
  TaskSummary, TaskStatus, HandoffSummary, HandoffStatus, new_task, new_claim, new_task_update,
  new_task_done, new_handoff, new_handoff_accept, new_handoff_done,
}
use shuttle_rs.Task.Project.{
  claim_task, created_task, apply_task, apply_handoff, action, referenced_id, project_tasks,
  project_handoffs,
}
use shuttle_rs.Task.Order.{project_order_independent}
use shuttle_rs.Task.Lifecycle.{apply_task_lem, apply_handoff_lem}
use shuttle_rs.Task.Summaries.{IsSound, project_tasks-IsSound}
use shuttle_rs.Tests.Sample.{Json, crates}

abbrev at : ℕ → Stamp
at n = record { new_id = n; now = n }

abbrev created : Event Json
created = new_task crates (at 1) "ws" "claude" "s" "write the docs"

abbrev claimed : Event Json
claimed = new_claim crates (at 2) "ws" "codex" "s" 1

abbrev other : Event Json
other = new_task crates (at 3) "ws" "claude" "s" "review them"

abbrev log : List (Event Json)
log = created ∷ claimed ∷ other ∷ []

abbrev first_task : TaskSummary
first_task = record {
  id = 1;
  status = TaskStatus.claimed;
  content = "write the docs";
  created_by = "claude";
  claimed_by = some "codex";
  created_at = 1;
  updated_at = 2;
  source_event_ids = 1 ∷ 2 ∷ [];
}

abbrev second_task : TaskSummary
second_task = record {
  id = 3;
  status = TaskStatus.open_task;
  content = "review them";
  created_by = "claude";
  claimed_by = none;
  created_at = 3;
  updated_at = 3;
  source_event_ids = 3 ∷ [];
}

log_projected : project_tasks crates log ≡ first_task ∷ second_task ∷ []
unfolding project_tasks apply_task new_task new_claim created_task claim_task field Maps.values
    sort_by action Maps.or_insert Maps.modify referenced_id strip_prefix
log_projected = refl

project_order_independent_example :
    (project_tasks crates log ≡ project_tasks crates (claimed ∷ created ∷ other ∷ []))
    × (project_handoffs crates log ≡ project_handoffs crates (claimed ∷ created ∷ other ∷ []))
unfolding new_task new_claim
project_order_independent_example =
    project_order_independent crates (Permᴰ.swap refl refl)
      ((refl, (refl, tt)), ((refl, tt), (tt, tt)))

project_tasks-IsSound_example :
    All IsSound (project_tasks crates log)
    × AllDistinct (λ t. t.updated_at) (λ t. t.id) (project_tasks crates log)
project_tasks-IsSound_example = project_tasks-IsSound crates log

abbrev tasks : Map TaskSummary
tasks = (1, first_task) ∷ (3, second_task) ∷ []

apply_task_lem_example :
    (Maps.get 1 (apply_task crates tasks (new_task crates (at 4) "ws" "codex" "s" "new"))
      ≡ some first_task)
    × (Maps.get 1 (apply_task crates tasks (new_claim crates (at 4) "ws" "codex" "s" 1))
        ≡ some (record first_task { updated_at = 4; source_event_ids = 1 ∷ 2 ∷ 4 ∷ [] }))
    × (Maps.get 1 (apply_task crates tasks (new_task_update crates (at 4) "ws" "codex" "s" 1 "new"))
        ≡ some (record first_task {
          content = "new";
          updated_at = 4;
          source_event_ids = 1 ∷ 2 ∷ 4 ∷ [];
        }))
    × (Maps.get 1 (apply_task crates tasks (new_task_done crates (at 4) "ws" "codex" "s" 1))
        ≡ some (record first_task {
          status = TaskStatus.completed;
          updated_at = 4;
          source_event_ids = 1 ∷ 2 ∷ 4 ∷ [];
        }))
unfolding Maps.get
apply_task_lem_example = apply_task_lem crates (at 4) "ws" "codex" "s" 1 "new" 1 tasks

abbrev asked : HandoffSummary
asked = record {
  id = 5;
  status = HandoffStatus.pending;
  content = "please merge";
  from_agent = "claude";
  to_agent = "codex";
  accepted_by = none;
  created_at = 5;
  updated_at = 5;
  source_event_ids = 5 ∷ [];
}

abbrev handoffs : Map HandoffSummary
handoffs = (5, asked) ∷ []

apply_handoff_lem_example :
    (Maps.get 5 (
        apply_handoff crates handoffs
          (new_handoff crates (at 6) "ws" "codex" "s" "claude" "thanks"))
      ≡ some asked)
    × (Maps.get 5
          (apply_handoff crates handoffs (new_handoff_accept crates (at 6) "ws" "codex" "s" 5))
        ≡ some (record asked {
          status = HandoffStatus.accepted;
          accepted_by = some "codex";
          updated_at = 6;
          source_event_ids = 5 ∷ 6 ∷ [];
        }))
    × (Maps.get 5
          (apply_handoff crates handoffs (new_handoff_done crates (at 6) "ws" "codex" "s" 5))
        ≡ some (record asked {
          status = HandoffStatus.completed;
          updated_at = 6;
          source_event_ids = 5 ∷ 6 ∷ [];
        }))
unfolding Maps.get
apply_handoff_lem_example =
    apply_handoff_lem crates (at 6) "ws" "codex" "s" 5 "claude" "thanks" 5 handoffs
