-- ===== src/Store/Latest.antt =====
-- What `list` of src/store.rs returns after an event is appended that is later than all others.
use shuttle_rs.Prelude.{
  ℕ, ◌<◌, ◌≤◌, String, ◌≡◌, refl, sym, ap, ◌∙◌, subst, some, List, [], ◌∷◌, ◌++◌, Bool, true, false,
  ◌&&◌, str_eq, str_eq_iff, All, All-retain, arith, retain, take_all, length, length-append,
}
use shuttle_rs.Prelude.Sorting.{sort_by, insert_sorted, by_ascending, length-sort_by, All-sort_by}
use shuttle_rs.Prelude.Texts.{sort_dedup}
use shuttle_rs.Crates.{Crates}
use shuttle_rs.Core.{
  Event, EventFilter, ok, workflow, default_filter, u32_max, as_str, try_from, >>=-eq-ok,
}
use shuttle_rs.Store.Tables.{Sqlite, EventRow, Tables, event_to_row, row_to_event, column}
use shuttle_rs.Store.Events.{
  filter_tags, read_rows, newest_first, selects, selects_columns, list_events, append,
}
use shuttle_rs.Store.Lookup.{IsReadBack, row_to_event-event_to_row, append-eq-ok}

-- Every row is older.
abbrev pub AllOlder : {V : Type 0} → ℕ → List (EventRow V) → Type 0
AllOlder now rows = All (λ row. row.created_at < now) rows

abbrev newer : {V : Type 0} → EventRow V → EventRow V → Bool
newer x y = by_ascending (λ r. r.created_at) (λ r. r.id) y x

newest_first-append :
    {V : Type 0} (rows : List (EventRow V)) (new : EventRow V)
    → AllOlder new.created_at rows
    → newest_first (rows ++ new ∷ []) ≡ new ∷ newest_first rows
unfolding newest_first sort_by insert_sorted
newest_first-append [] new h = refl
newest_first-append (row ∷ rows) new h =
    let after : newer row new ≡ false = let k = h.0 in ground (arith, k) in
    rw (newest_first-append rows new h.1) (rw after refl)

module _ (c : Crates) (q : Sqlite c) where
  open c use {Value}

  read_row-created_at :
      (row : EventRow Value) {e : Event Value}
      → row_to_event c q row ≡ ok e
      → e.created_at ≡ row.created_at
  unfolding row_to_event
  read_row-created_at row h =
      let (_, _, e1) = >>=-eq-ok (column c q (try_from row.event_type)) _ h in
      let (_, _, e2) = >>=-eq-ok (q.read_tags row.tags) _ e1 in
      let (_, _, e3) = >>=-eq-ok (q.read_metadata row.metadata_json) _ e2 in
      let (now, read, e4) = >>=-eq-ok (q.read_created_at row.created_at) _ e3 in
      let same = q.read_created_at-same row.created_at read in grind arith

  read_rows-AllOlder :
      (now : ℕ) (rows : List (EventRow Value)) {events : List (Event Value)}
      → AllOlder now rows
      → read_rows c q rows ≡ ok events
      → All (λ e. e.created_at < now) events
  unfolding read_rows
  read_rows-AllOlder now [] {events} h e =
      let same : [] ≡ events = cc e in subst (All (λ e. e.created_at < now)) same tt
  read_rows-AllOlder now (row ∷ rows) {events} h e =
      let (first, read, e1) = >>=-eq-ok (row_to_event c q row) _ e in
      let (rest, read_rest, e2) = >>=-eq-ok (read_rows c q rows) _ e1 in
      let same : first ∷ rest ≡ events = cc e2 in
      let time : first.created_at ≡ row.created_at = read_row-created_at row read in
      subst (All (λ e. e.created_at < now)) same
        (rw time h.0, read_rows-AllOlder now rows h.1 read_rest)

  read_rows-cons :
      (e : Event Value) (rows : List (EventRow Value)) {events : List (Event Value)}
      → IsReadBack c q e
      → read_rows c q rows ≡ ok events
      → read_rows c q (event_to_row e ∷ rows) ≡ ok (e ∷ events)
  unfolding read_rows
  read_rows-cons e rows back h = rw (row_to_event-event_to_row c q e back) (rw h refl)

module _ (c : Crates) (q : Sqlite c) (workspace : String) where
  open c use {Value}

  abbrev pub workflow_filter : EventFilter
  workflow_filter = record default_filter {
    event_type = some workflow;
    workspace_id = some workspace;
    limit = some u32_max;
  }

  abbrev is_workflow : EventRow Value → Bool
  is_workflow row = str_eq row.event_type "workflow" && str_eq row.workspace_id workspace

  selects-workflow :
      (tables : Tables Value) (row : EventRow Value)
      → selects c q workflow_filter tables row ≡ is_workflow row
  unfolding selects selects_columns filter_tags sort_dedup sort_by as_str
  selects-workflow tables row = ground arith

  retain-workflow :
      (tables : Tables Value) (rows : List (EventRow Value))
      → retain (selects c q workflow_filter tables) rows ≡ retain is_workflow rows
  retain-workflow tables [] = refl
  retain-workflow tables (row ∷ rows) =
      ground (arith, retain-workflow tables rows, selects-workflow tables row)

  retain-append :
      (rows : List (EventRow Value)) (new : EventRow Value)
      → is_workflow new ≡ true
      → retain is_workflow (rows ++ new ∷ []) ≡ retain is_workflow rows ++ new ∷ []
  retain-append [] new h = rw h refl
  retain-append (row ∷ rows) new h = ground (arith, retain-append rows new h)

  length-retain_le : (rows : List (EventRow Value)) → length (retain is_workflow rows) ≤ length rows
  length-retain_le [] = omega arith
  length-retain_le (row ∷ rows) = ground (arith, length-retain_le rows)

  is_workflow-event :
      (e : Event Value)
      → e.event_type ≡ workflow
      → e.workspace_id ≡ workspace
      → is_workflow (event_to_row e) ≡ true
  unfolding event_to_row as_str
  is_workflow-event e type place =
      let text = (str_eq_iff e.workspace_id workspace).1 place in rw type (rw text refl)

  -- All of the events are listed, unless there are more than the limit.
  list_events-workflow :
      (tables : Tables Value)
      → length tables.events ≤ u32_max
      → list_events c q workflow_filter tables
        ≡ read_rows c q (newest_first (retain is_workflow tables.events))
  unfolding list_events newest_first
  list_events-workflow tables h =
      let chosen = retain is_workflow tables.events in
      let few : length (newest_first chosen) ≤ u32_max =
        omega (arith, h, length-sort_by newer chosen, length-retain_le tables.events) in
      rw (retain-workflow tables tables.events)
        (ap (read_rows c q) (take_all u32_max (newest_first chosen) few))

  -- An event of a workflow that is later than all others, and appended, is listed before them.
  pub list_events-latest :
      (e : Event Value) (tables : Tables Value) {events : List (Event Value)}
      {appended : Event Value} {after : Tables Value}
      → IsReadBack c q e
      → AllOlder e.created_at tables.events
      → length tables.events < u32_max
      → e.event_type ≡ workflow
      → e.workspace_id ≡ workspace
      → list_events c q workflow_filter tables ≡ ok events
      → append c q e tables ≡ ok (appended, after)
      → (appended ≡ e)
        × All (λ old. old.created_at < e.created_at) events
        × (list_events c q workflow_filter after ≡ ok (e ∷ events))
  unfolding event_to_row newest_first sort_by
  list_events-latest e tables {events} {appended} {after} back older few type place before h =
      let (_, same, rows) = append-eq-ok c q e tables h in
      let chosen = retain is_workflow tables.events in
      let new = event_to_row e in
      let read = sym (list_events-workflow tables (omega (arith, few))) ∙ before in
      let sorted : newest_first (retain is_workflow after.events) ≡ new ∷ newest_first chosen =
        ap (λ l. newest_first (retain is_workflow l)) rows
        ∙ ap newest_first (retain-append tables.events new (is_workflow-event e type place))
        ∙ newest_first-append chosen new
            (All-retain (λ row. row.created_at < e.created_at) is_workflow tables.events older) in
      let short : length after.events ≤ u32_max =
        omega (arith, few, ap length rows ∙ length-append tables.events (new ∷ [])) in
      (
        same,
        read_rows-AllOlder c q e.created_at (newest_first chosen)
            (All-sort_by newer (λ row. row.created_at < e.created_at) chosen
              (All-retain (λ row. row.created_at < e.created_at) is_workflow tables.events older))
            read,
        list_events-workflow after short
            ∙ ap (read_rows c q) sorted
            ∙ read_rows-cons c q e (newest_first chosen) back read,
      )
