-- ===== src/Mesh/Loop.antt =====
-- The import loop of src/mesh.rs: it is total, and it is idempotent.
use shuttle_rs.Prelude.{
  ℕ, String, ◌≡◌, refl, ap, Option, List, [], ◌∷◌, ◌++◌, ◌+◌, Bool, true, false, ==_refl, any, All,
  arith, length, Bool-cases, inl, inr, ◌⊎◌,
}
use shuttle_rs.Crates.{Crates}
use shuttle_rs.Core.{Event, ok}
use shuttle_rs.Store.Tables.{
  Sqlite, EventRow, Tables, insert_event, insert_tags, event_to_row, conflicts,
}
use shuttle_rs.Store.Events.{append_if_absent}
use shuttle_rs.Store.Insertion.{any-append}
use shuttle_rs.Mesh.Import.{
  ImportReport, count_one, no_report, for_target, import_loop, import_events_into_workspace,
}

module _ (c : Crates) (q : Sqlite c) where
  open c use {Value}

  -- A store has a row if it has one that takes its key.
  abbrev pub HasRow : Tables Value → EventRow Value → Type 0
  HasRow tables row = any (conflicts c q row) tables.events ≡ true

  abbrev pub Has : Tables Value → Event Value → Type 0
  Has tables e = HasRow tables (event_to_row e)

  pub conflicts_self : (row : EventRow Value) → conflicts c q row row ≡ true
  unfolding conflicts
  conflicts_self row = let same = ==_refl row.id in ground arith

  -- One step of the loop: the event is there after it, and whatever was there still is.
  pub record IsStep (e : Event Value) (before : Tables Value) : Type 0 where
    pub inserted : Bool
    pub after : Tables Value
    pub step : append_if_absent c q e before ≡ ok (inserted, after)
    pub there : Has after e
    pub still : (row : EventRow Value) → HasRow before row → HasRow after row
    pub rows :
        (after.events ≡ before.events) ⊎ (after.events ≡ before.events ++ event_to_row e ∷ [])

  pub append_if_absent-IsStep : (e : Event Value) (before : Tables Value) → IsStep e before
  unfolding append_if_absent insert_event
  append_if_absent-IsStep e before =
      elim (Bool-cases (any (conflicts c q (event_to_row e)) before.events)) [
        | inl there ↦ record {
          inserted = false;
          after = before;
          step = rw there refl;
          there = there;
          still = λ row h. h;
          rows = inl refl;
        }
        | inr absent ↦ record {
          inserted = true;
          after = record {
            events = before.events ++ event_to_row e ∷ [];
            event_tags = insert_tags e.id e.tags before.event_tags;
          };
          step = rw absent refl;
          there =
              let end =
                any-append (conflicts c q (event_to_row e)) before.events (event_to_row e) in
              let self = conflicts_self (event_to_row e) in ground arith;
          still = λ row h.
              let end = any-append (conflicts c q row) before.events (event_to_row e) in
              ground arith;
          rows = inr refl;
        }
      ]

  -- What the loop does with a list of events.
  pub record IsMerged (target : Option String) (events : List (Event Value)) (report : ImportReport)
      (before : Tables Value) : Type 0 where
    pub reported : ImportReport
    pub after : Tables Value
    pub loop : import_loop c q target events report before ≡ ok (reported, after)
    pub there : All (λ e. Has after (for_target c q target e)) events
    pub still : (row : EventRow Value) → HasRow before row → HasRow after row
    pub counted :
        reported.imported + reported.skipped_duplicates
        ≡ report.imported + report.skipped_duplicates + length events

  count_one-total :
      (inserted : Bool) (report : ImportReport)
      → (count_one inserted report).imported + (count_one inserted report).skipped_duplicates
        ≡ report.imported + report.skipped_duplicates + 1
  count_one-total true report = omega arith
  count_one-total false report = omega arith

  pub import_loop-IsMerged :
      (target : Option String) (events : List (Event Value)) (report : ImportReport)
      (before : Tables Value)
      → IsMerged target events report before
  unfolding import_loop
  import_loop-IsMerged target [] report before = record {
    reported = report;
    after = before;
    loop = refl;
    there = tt;
    still = λ row h. h;
    counted = omega arith;
  }
  import_loop-IsMerged target (e ∷ events) report before =
      let s = append_if_absent-IsStep (for_target c q target e) before in
      let i = import_loop-IsMerged target events (count_one s.inserted report) s.after in
      record {
        reported = i.reported;
        after = i.after;
        loop = rw s.step i.loop;
        there = (i.still (event_to_row (for_target c q target e)) s.there, i.there);
        still = λ row h. i.still row (s.still row h);
        counted = let one = count_one-total s.inserted report in omega (arith, i.counted, one);
      }

  Has-skipped :
      (e : Event Value) (tables : Tables Value)
      → Has tables e
      → append_if_absent c q e tables ≡ ok (false, tables)
  unfolding append_if_absent insert_event
  Has-skipped e tables h = rw h refl

  -- Events that are there are skipped.
  pub import_loop_skips :
      (target : Option String) (events : List (Event Value)) (report : ImportReport)
      (tables : Tables Value) (n : ℕ)
      → n ≡ report.skipped_duplicates + length events
      → All (λ e. Has tables (for_target c q target e)) events
      → import_loop c q target events report tables
        ≡ ok (record { imported = report.imported; skipped_duplicates = n }, tables)
  unfolding import_loop
  import_loop_skips target [] report tables n count h =
      let all : report.skipped_duplicates ≡ n = omega (arith, count) in
      ap (λ k. ok (record { imported = report.imported; skipped_duplicates = k }, tables)) all
  import_loop_skips target (e ∷ events) report tables n count h =
      rw (Has-skipped (for_target c q target e) tables h.0) (
        import_loop_skips target events (count_one false report) tables n (omega (arith, count))
          h.1)

  -- An import into any store, for any target workspace, succeeds; it counts every event as imported or
  -- as a duplicate; and the same import again takes every event as a duplicate and changes nothing.
  pub import_events_idempotent :
      (target : Option String) (events : List (Event Value)) (tables : Tables Value)
      → (report : ImportReport) × (after : Tables Value) × (import_events_into_workspace c q target
            events tables
          ≡ ok (report, after))
        × (report.imported + report.skipped_duplicates ≡ length events)
        × (import_events_into_workspace c q target events after
            ≡ ok (record { imported = 0; skipped_duplicates = length events }, after))
  unfolding import_events_into_workspace
  import_events_idempotent target events tables =
      let i = import_loop-IsMerged target events no_report tables in
      (
        i.reported,
        i.after,
        i.loop,
        omega (arith, i.counted),
        import_loop_skips target events no_report i.after (length events) (omega arith) i.there,
      )
