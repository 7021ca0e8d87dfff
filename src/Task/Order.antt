-- ===== src/Task/Order.antt =====
-- The projections of src/task.rs do not depend on the order in which the store returns the events.
use mathlib.Core.List.{Permᴰ, foldl}
use shuttle_rs.Prelude.{◌≡◌, ap, List, []}
use shuttle_rs.Prelude.Maps
use shuttle_rs.Prelude.Sorting.{
  AllDistinct, AllApart-ascending, by_ascending-IsOrder, sort_by-Permᴰ,
}
use shuttle_rs.Crates.{Crates}
use shuttle_rs.Core.{Event}
use shuttle_rs.Task.Project.{
  apply_task, apply_handoff, oldest_first, project_tasks, project_handoffs,
}

module _ (c : Crates) where
  pub oldest_first-Permᴰ :
      {es fs : List (Event c.Value)}
      → Permᴰ es fs
      → AllDistinct (λ e. e.created_at) (λ e. e.id) es
      → oldest_first c es ≡ oldest_first c fs
  unfolding oldest_first
  oldest_first-Permᴰ {es} p d =
      sort_by-Permᴰ _ (by_ascending-IsOrder (λ e. e.created_at) (λ e. e.id)) p
        (AllApart-ascending (λ e. e.created_at) (λ e. e.id) es d)

  -- Events with distinct identifiers project to the same task summaries, and to the same handoff
  -- summaries, in whatever order the store lists them.
  pub project_order_independent :
      {es fs : List (Event c.Value)}
      → Permᴰ es fs
      → AllDistinct (λ e. e.created_at) (λ e. e.id) es
      → (project_tasks c es ≡ project_tasks c fs) × (project_handoffs c es ≡ project_handoffs c fs)
  unfolding project_tasks project_handoffs
  project_order_independent p d = (
    ap (λ l. Maps.values (foldl (apply_task c) [] l)) (oldest_first-Permᴰ p d),
    ap (λ l. Maps.values (foldl (apply_handoff c) [] l)) (oldest_first-Permᴰ p d),
  )
