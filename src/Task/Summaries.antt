-- ===== src/Task/Summaries.antt =====
-- What holds of every summary that src/task.rs projects from an event log.
use mathlib.Core.List.{foldl, Permᴰ}
use shuttle_rs.Prelude.{
  ℕ, String, ◌≤◌, ◌≡◌, List, [], ◌∷◌, ◌++◌, true, some, arith, All, All-map, is_some, ◌<◌, length,
}
use shuttle_rs.Prelude.Maps
use shuttle_rs.Prelude.Maps.{Map, KeysDistinct}
use shuttle_rs.Prelude.Sorting.{
  Sorted, by_ascending, by_ascending-IsOrder, sort_by-Sorted, sort_by-Permᴰ, AllDistinct,
  AllApart-descending, by_descending-IsOrder,
}
use shuttle_rs.Crates.{Crates}
use shuttle_rs.Core.{Event}
use shuttle_rs.Task.Events.{TaskSummary, TaskStatus}
use shuttle_rs.Task.Queries.{latest_tasks_first}
use shuttle_rs.Task.Project.{
  claim_task, update_task, complete_task, created_task, apply_task, oldest_first, project_tasks,
}

-- A task is changed no earlier than it was created, a claimed task names who claimed it, and the
-- events that a task stems from are at least one.
pub record IsSound (t : TaskSummary) : Type 0 where
  pub created : t.created_at ≤ t.updated_at
  pub claimant : t.status ≡ TaskStatus.claimed → is_some t.claimed_by ≡ true
  pub sourced : 0 < length t.source_event_ids

-- The same with the clock: nothing in the map was changed after `now`.
record Entry (now : ℕ) (e : ℕ × TaskSummary) : Type 0 where
  keyed : e.0 ≡ e.1.id
  sound : IsSound e.1
  past : e.1.updated_at ≤ now

nonempty-append {ℓ} : {A : Type ℓ} (xs : List A) (x : A) → 0 < length (xs ++ x ∷ [])
nonempty-append [] x = omega arith
nonempty-append (y ∷ ys) x = omega arith

Entry-later : (now next : ℕ) → now ≤ next → (e : ℕ × TaskSummary) → Entry now e → Entry next e
Entry-later now next later e h = record { keyed = h.keyed; sound = h.sound; past = omega arith }

module _ (c : Crates) (event : Event c.Value) where
  Entry-created : (id : ℕ) → Entry event.created_at (id, created_task c event id)
  unfolding created_task
  Entry-created id = ground arith

  module _ (now : ℕ) (later : now ≤ event.created_at) (j : ℕ) (t : TaskSummary)
      (h : Entry now (j, t)) where
    Entry-claim : (by : String) → Entry event.created_at (j, claim_task c event (some by) t)
    unfolding claim_task
    Entry-claim by = ground (arith, nonempty-append t.source_event_ids event.id)

    Entry-update : Entry event.created_at (j, update_task c event t)
    unfolding update_task
    Entry-update = ground (arith, nonempty-append t.source_event_ids event.id)

    Entry-complete : Entry event.created_at (j, complete_task c event t)
    unfolding complete_task
    Entry-complete = ground (arith, nonempty-append t.source_event_ids event.id)

-- How one event changes the map of tasks.
data Change (c : Crates) (event : Event c.Value) (m : Map TaskSummary)
    : Map TaskSummary → Type 0 where
  claim :
      (id : ℕ) (by : String) → Change c event m (Maps.modify id (claim_task c event (some by)) m)
  update : (id : ℕ) → Change c event m (Maps.modify id (update_task c event) m)
  complete : (id : ℕ) → Change c event m (Maps.modify id (complete_task c event) m)
  create : (id : ℕ) → Change c event m (Maps.or_insert id (created_task c event id) m)
  skip : Change c event m m

module _ (c : Crates) (event : Event c.Value) where
  apply_task-Change : (m : Map TaskSummary) → Change c event m (apply_task c m event)
  unfolding apply_task
  apply_task-Change m = grind (arith, claim, update, complete, create, skip)

  Change-KeysDistinct :
      {m n : Map TaskSummary} → Change c event m n → KeysDistinct m → KeysDistinct n
  Change-KeysDistinct {m} (claim id by) h = Maps.modify-KeysDistinct id _ m h
  Change-KeysDistinct {m} (update id) h = Maps.modify-KeysDistinct id _ m h
  Change-KeysDistinct {m} (complete id) h = Maps.modify-KeysDistinct id _ m h
  Change-KeysDistinct {m} (create id) h = Maps.or_insert-KeysDistinct id _ m h
  Change-KeysDistinct skip h = h

  -- An event that is not older than what the map has seen keeps every entry in order.
  Change-Entry :
      (now : ℕ) {m n : Map TaskSummary}
      → now ≤ event.created_at
      → Change c event m n
      → All (Entry now) m
      → All (Entry event.created_at) n
  Change-Entry now {m} later step h = go step
    where
      P : ℕ × TaskSummary → Type 0
      P = Entry event.created_at

      old : All P m
      old = All-map (Entry now) P (Entry-later now event.created_at later) m h

      at : event.created_at ≤ event.created_at
      at = omega arith

      go : {n : Map TaskSummary} → Change c event m n → All P n
      go (claim id by) =
          Maps.All-modify P id (claim_task c event (some by)) m
            (λ j t k. Entry-claim c event event.created_at at j t k by) old
      go (update id) =
          Maps.All-modify P id (update_task c event) m (Entry-update c event event.created_at at)
            old
      go (complete id) =
          Maps.All-modify P id (complete_task c event) m
            (Entry-complete c event event.created_at at) old
      go (create id) =
          Maps.All-or_insert P id (created_task c event id) m (Entry-created c event id) old
      go skip = old

module _ (c : Crates) where
  created_before :
      (e f : Event c.Value)
      → by_ascending (λ x. x.created_at) (λ x. x.id) e f ≡ true
      → e.created_at ≤ f.created_at
  created_before e f h = ground arith

  fold-Entry :
      (now : ℕ) (events : List (Event c.Value)) (m : Map TaskSummary)
      → All (λ e. now ≤ e.created_at) events
      → Sorted (by_ascending (λ e. e.created_at) (λ e. e.id)) events
      → All (Entry now) m
      → KeysDistinct m
      → (last : ℕ) × All (Entry last) (foldl (apply_task c) m events)
        × KeysDistinct (foldl (apply_task c) m events)
  fold-Entry now [] m later sorted h k = (now, h, k)
  fold-Entry now (e ∷ es) m later sorted h k =
      let step = apply_task-Change c e m in
      fold-Entry e.created_at es (apply_task c m e)
        (All-map (λ f. by_ascending (λ x. x.created_at) (λ x. x.id) e f ≡ true)
          (λ f. e.created_at ≤ f.created_at) (created_before e) es sorted.0)
        sorted.1 (Change-Entry c e now later.0 step h) (Change-KeysDistinct c e step k)

  All-zero : (es : List (Event c.Value)) → All (λ e. 0 ≤ e.created_at) es
  All-zero [] = tt
  All-zero (e ∷ es) = (omega arith, All-zero es)

  project-Entry :
      (events : List (Event c.Value))
      → let m = foldl (apply_task c) [] (oldest_first c events) in
        (last : ℕ) × All (Entry last) m × KeysDistinct m
  unfolding oldest_first
  project-Entry events =
      fold-Entry 0 (oldest_first c events) [] (All-zero (oldest_first c events))
        (sort_by-Sorted _ (by_ascending-IsOrder (λ e. e.created_at) (λ e. e.id)) events) tt tt

  -- Whatever events a store holds, every projected task is sound, and no two tasks have one
  -- identifier.
  pub project_tasks-IsSound :
      (events : List (Event c.Value))
      → All IsSound (project_tasks c events)
        × AllDistinct (λ t. t.updated_at) (λ t. t.id) (project_tasks c events)
  unfolding project_tasks
  project_tasks-IsSound events =
      let (last, entries, distinct) = project-Entry events in
      let m = foldl (apply_task c) [] (oldest_first c events) in
      (
        Maps.All-values IsSound m
            (All-map (Entry last) (λ e. IsSound e.1) (λ e h. h.sound) m entries),
        Maps.values-AllDistinct (λ t. t.updated_at) (λ t. t.id) m distinct
            (All-map (Entry last) (λ e. e.0 ≡ e.1.id) (λ e h. h.keyed) m entries),
      )

  -- The list that `tasks` returns is the same for every iteration order of the hash map.
  latest_tasks_first-perm :
      (events : List (Event c.Value)) {found : List TaskSummary}
      → Permᴰ (project_tasks c events) found
      → latest_tasks_first (project_tasks c events) ≡ latest_tasks_first found
  unfolding latest_tasks_first
  latest_tasks_first-perm events p =
      sort_by-Permᴰ _ (by_descending-IsOrder (λ t. t.updated_at) (λ t. t.id)) p (
        AllApart-descending (λ t. t.updated_at) (λ t. t.id) (project_tasks c events)
          (project_tasks-IsSound events).1)
