-- ===== src/Mesh/Convergence.antt =====
-- A synchronisation of src/mesh.rs leaves nothing for the next one to import.
use mathlib.Core.List.Permᴰ as PermD
use shuttle_rs.Prelude.{
  ℕ, String, ◌≡◌, refl, sym, ap, ◌∙◌, ◌≤◌, Option, none, some, List, [], ◌∷◌, ◌++◌, ◌+◌, Bool, true,
  any, map, All, All-map, All-append, All-take, All-of_map, All-to_map, arith, retain-true, take,
  take_all, length, subst, inl, inr, ◌⊎◌,
}
use shuttle_rs.Prelude.Sorting.{sort_by, All-sort_by, length-sort_by, Permᴰ-sort_by, All-Permᴰ}
use shuttle_rs.Prelude.Texts.{sort_dedup}
use shuttle_rs.Crates.{Crates}
use shuttle_rs.Core.{
  Event, EventType, EventFilter, ok, try_from, try_from_iff, default_filter, u32_max,
}
use shuttle_rs.Store.Tables.{Sqlite, EventRow, Tables, event_to_row, row_to_event, conflicts}
use shuttle_rs.Store.Events.{
  append_if_absent, list_events, read_rows, newest_first, selects, selects_columns, filter_tags,
}
use shuttle_rs.Mesh.Import.{
  ImportReport, SyncReport, count_one, no_report, all_events, for_target, import_loop,
  import_events_into_workspace, import_events, sync_bidirectional, sync_report,
}
use shuttle_rs.Mesh.Loop.{
  HasRow, append_if_absent-IsStep, IsMerged, import_loop-IsMerged, import_loop_skips,
  conflicts_self,
}

module _ (c : Crates) (q : Sqlite c) where
  open c use {Value}

  -- A row can be read, and its metadata and its instant are read from their texts as they were written.
  unfoldable pub IsReadable : EventRow Value → Type 0
  IsReadable row =
      ((event_type : EventType) × (try_from row.event_type ≡ ok event_type))
      × (q.read_metadata row.metadata_json ≡ ok row.metadata_json)
      × (q.read_created_at row.created_at ≡ ok row.created_at)

  row_back :
      (row : EventRow Value)
      → IsReadable row
      → (e : Event Value) × (row_to_event c q row ≡ ok e) × (event_to_row e ≡ row)
  unfolding IsReadable row_to_event event_to_row
  row_back row ((t, parsed), metadata, instant) =
      let text = (try_from_iff row.event_type t).0 parsed in
      (
        _,
        rw (parsed, q.read_tags-same row.tags, metadata, instant, c.parse-uuid_text row.id) refl,
        ap (λ s. record row { event_type = s }) text,
      )

  read_rows-readable :
      (rows : List (EventRow Value))
      → All IsReadable rows
      → (events : List (Event Value)) × (read_rows c q rows ≡ ok events)
        × (map event_to_row events ≡ rows)
  unfolding read_rows
  read_rows-readable [] h = ([], refl, refl)
  read_rows-readable (row ∷ rows) h =
      let (e, read, back) = row_back row h.0 in
      let (events, read_rest, back_rest) = read_rows-readable rows h.1 in
      (e ∷ events, rw read (rw read_rest refl), cc (back, back_rest))

module _ (c : Crates) (q : Sqlite c) where
  open c use {Value}

  abbrev everything : EventFilter
  everything = record default_filter { limit = some u32_max }

  selects-everything :
      (tables : Tables Value) (row : EventRow Value) → selects c q everything tables row ≡ true
  unfolding selects selects_columns filter_tags sort_dedup sort_by
  selects-everything tables row = refl

  -- Every event of a store whose rows can be read is returned, newest first, up to the limit.
  all_events-readable :
      (tables : Tables Value)
      → All (IsReadable c q) tables.events
      → (events : List (Event Value)) × (all_events c q tables ≡ ok events)
        × (map event_to_row events ≡ take u32_max (newest_first tables.events))
  unfolding all_events list_events newest_first
  all_events-readable tables h =
      let all =
        retain-true (selects c q everything tables) tables.events (selects-everything tables) in
      let (events, read, back) =
        read_rows-readable c q (take u32_max (newest_first tables.events))
          (All-take (IsReadable c q) u32_max _ (All-sort_by _ (IsReadable c q) tables.events h)) in
      (events, ap (λ l. read_rows c q (take u32_max (newest_first l))) all ∙ read, back)

  module _ (P : EventRow Value → Type 0) (tables : Tables Value) (events : List (Event Value))
      (back : map event_to_row events ≡ take u32_max (newest_first tables.events)) where
    -- What holds of the rows holds of the events, and the other way round if the limit is not reached.
    rows_to_events : All P tables.events → All (λ e. P (event_to_row e)) events
    unfolding newest_first
    rows_to_events h = All-of_map P event_to_row events (
        subst (All P) (sym back)
          (All-take P u32_max (newest_first tables.events) (All-sort_by _ P tables.events h)))

    events_to_rows :
        length tables.events ≤ u32_max → All (λ e. P (event_to_row e)) events → All P tables.events
    unfolding newest_first
    events_to_rows small h =
        let sorted = newest_first tables.events in
        let fits : length sorted ≤ u32_max =
          subst (λ n. n ≤ u32_max) (sym (length-sort_by _ tables.events)) small in
        All-Permᴰ P (PermD.symm (Permᴰ-sort_by _ tables.events))
          (subst (All P) (back ∙ take_all u32_max sorted fits) (All-to_map P event_to_row events h))

  self_rows : (rows : List (EventRow Value)) → All (λ row. any (conflicts c q row) rows ≡ true) rows
  self_rows [] = tt
  self_rows (row ∷ rows) =
      let self = conflicts_self c q row in
      (
        ground arith,
        All-map (λ r. any (conflicts c q r) rows ≡ true)
            (λ r. any (conflicts c q r) (row ∷ rows) ≡ true) (λ r h. ground arith) rows
            (self_rows rows),
      )

  import_loop-step :
      (target : Option String) (e : Event Value) (events : List (Event Value))
      (report : ImportReport) (before after : Tables Value) (inserted : Bool)
      → append_if_absent c q (for_target c q target e) before ≡ ok (inserted, after)
      → import_loop c q target (e ∷ events) report before
        ≡ import_loop c q target events (count_one inserted report) after
  unfolding import_loop
  import_loop-step target e events report before after inserted h = rw h refl

  -- What holds of the rows of a store and of imported events holds of the rows after the import.
  import_loop-All :
      (P : EventRow Value → Type 0) (target : Option String) (events : List (Event Value))
      (report : ImportReport) (before : Tables Value) {reported : ImportReport}
      {after : Tables Value}
      → All P before.events
      → All (λ e. P (event_to_row (for_target c q target e))) events
      → import_loop c q target events report before ≡ ok (reported, after)
      → All P after.events
  unfolding import_loop
  import_loop-All P target [] report before {after} old new h =
      let same : before ≡ after = cc h in subst (λ t. All P t.events) same old
  import_loop-All P target (e ∷ events) report before old new h =
      let s = append_if_absent-IsStep c q (for_target c q target e) before in
      let next =
        sym (import_loop-step target e events report before s.after s.inserted s.step) ∙ h in
      import_loop-All P target events (count_one s.inserted report) s.after (rows s.rows) new.1 next
    where
      rows :
          {later : List (EventRow Value)}
          → (later ≡ before.events)
            ⊎ (later ≡ before.events ++ event_to_row (for_target c q target e) ∷ [])
          → All P later
      rows (inl same) = subst (All P) (sym same) old
      rows (inr more) =
          subst (All P) (sym more) (
            All-append P before.events (event_to_row (for_target c q target e) ∷ []) old
              (new.0, tt))

  -- After an import of the events of one store into another, the rows of either are in the other: what
  -- one side of a synchronisation knows of its store after it, from the events that it has read.
  module _ (mine other : Tables Value) (my_events other_events : List (Event Value))
      (back : map event_to_row my_events ≡ take u32_max (newest_first mine.events))
      (other_back : map event_to_row other_events ≡ take u32_max (newest_first other.events))
      (small : length mine.events ≤ u32_max) (i : IsMerged c q none other_events no_report mine)
      (j : IsMerged c q none my_events no_report other) where
    All-there : All (HasRow c q j.after) i.after.events
    unfolding for_target
    All-there =
        let known =
          All-map (HasRow c q other) (HasRow c q j.after) j.still other.events
            (self_rows other.events) in
        import_loop-All (HasRow c q j.after) none other_events no_report mine
          (events_to_rows (HasRow c q j.after) mine my_events back small j.there)
          (rows_to_events (HasRow c q j.after) other other_events other_back known) i.loop

    still-IsReadable :
        All (IsReadable c q) mine.events
        → All (IsReadable c q) other.events
        → All (IsReadable c q) i.after.events
    unfolding for_target
    still-IsReadable h k =
        import_loop-All (IsReadable c q) none other_events no_report mine h
          (rows_to_events (IsReadable c q) other other_events other_back k) i.loop

  sync-read :
      (local peer local_after peer_after : Tables Value)
      (local_events peer_events : List (Event Value)) (local_report peer_report : ImportReport)
      → all_events c q local ≡ ok local_events
      → all_events c q peer ≡ ok peer_events
      → import_loop c q none peer_events no_report local ≡ ok (local_report, local_after)
      → import_loop c q none local_events no_report peer ≡ ok (peer_report, peer_after)
      → sync_bidirectional c q local peer
        ≡ ok (sync_report c q local_report peer_report, local_after, peer_after)
  unfolding sync_bidirectional import_events import_events_into_workspace
  sync-read local peer local_after peer_after local_events peer_events local_report peer_report l p
        i j =
      rw l (rw p (rw i (rw j refl)))

  -- A synchronisation of two stores whose rows can be read, with their metadata and instants as they were
  -- written, and that hold at most 2 ^ 32 - 1 events each succeeds, and the next one succeeds, imports nothing into either store and changes neither.
  pub sync_bidirectional_settles :
      (local peer : Tables Value)
      → All (IsReadable c q) local.events
      → All (IsReadable c q) peer.events
      → length local.events ≤ u32_max
      → length peer.events ≤ u32_max
      → (report : SyncReport) × (local_after : Tables Value) × (peer_after : Tables Value)
        × (sync_bidirectional c q local peer ≡ ok (report, local_after, peer_after))
        × ((skipped : ℕ) × (sync_bidirectional c q local_after peer_after
              ≡ ok (
                record { local_imported = 0; peer_imported = 0; skipped_duplicates = skipped },
                local_after,
                peer_after,
              )))
  unfolding for_target
  sync_bidirectional_settles local peer hl hp sl sp =
      let (le, lr, lb) = all_events-readable local hl in
      let (pe, pr, pb) = all_events-readable peer hp in
      let i = import_loop-IsMerged c q none pe no_report local in
      let j = import_loop-IsMerged c q none le no_report peer in
      let (le2, lr2, lb2) =
        all_events-readable i.after (still-IsReadable local peer le pe lb pb sl i j hl hp) in
      let (pe2, pr2, pb2) =
        all_events-readable j.after (still-IsReadable peer local pe le pb lb sp j i hp hl) in
      let to_local = import_loop_skips c q none pe2 no_report i.after (length pe2) (omega arith) (
        rows_to_events (HasRow c q i.after) j.after pe2 pb2
          (All-there peer local pe le pb lb sp j i)) in
      let to_peer = import_loop_skips c q none le2 no_report j.after (length le2) (omega arith) (
        rows_to_events (HasRow c q j.after) i.after le2 lb2
          (All-there local peer le pe lb pb sl i j)) in
      (
        _,
        i.after,
        j.after,
        sync-read local peer i.after j.after le pe i.reported j.reported lr pr i.loop j.loop,
        (
          length pe2 + length le2,
          sync-read i.after j.after i.after j.after le2 pe2 _ _ lr2 pr2 to_local to_peer,
        ),
      )
