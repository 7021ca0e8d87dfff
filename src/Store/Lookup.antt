-- ===== src/Store/Lookup.antt =====
-- What `list` of src/store.rs returns.
use shuttle_rs.Prelude.{
  ℕ, String, ◌≡◌, refl, sym, ap, ◌∙◌, inl, inr, ◌≤◌, some, List, [], ◌∷◌, ◌++◌, Bool, true, false,
  ◌&&◌, any, all, All, All-retain, All-take, All-zip, retain_holds, arith, contains, retain, take,
  unwrap_or, length, length-take, subst,
}
use shuttle_rs.Prelude.Sorting.{sort_by, All-sort_by}
use shuttle_rs.Prelude.Texts.{sort_dedup}
use shuttle_rs.Crates.{Crates}
use shuttle_rs.Core.{
  Event, EventFilter, Result, Result-cases, ◌>>=◌, ok, default_filter, try_from_iff, as_str,
  >>=-eq-ok,
}
use shuttle_rs.Store.Tables.{
  Sqlite, EventRow, Tables, insert_event, event_to_row, row_to_event, conflicts, has_id, is_tag,
}
use shuttle_rs.Store.Events.{
  filter_tags, read_rows, newest_first, selects, selects_columns, list_events, append,
}
use shuttle_rs.Store.Insertion.{IsConsistent, IsTagged, no_id}

module _ (c : Crates) (q : Sqlite c) where
  open c use {Value}

  -- The texts of the instant and of the metadata of an event are read as what they were written from.
  unfoldable pub IsReadBack : Event Value → Type 0
  IsReadBack e =
      (q.read_metadata e.metadata_json ≡ ok e.metadata_json)
      × (q.read_created_at e.created_at ≡ ok e.created_at)

  -- Such an event is read back from the row that it is written as.
  pub row_to_event-event_to_row :
      (e : Event Value) → IsReadBack e → row_to_event c q (event_to_row e) ≡ ok e
  unfolding row_to_event event_to_row IsReadBack
  row_to_event-event_to_row e h = rw (
    (try_from_iff (as_str e.event_type) e.event_type).1 refl,
    q.read_tags-same e.tags,
    h.0,
    h.1,
    c.parse-uuid_text e.id,
  )

module _ (c : Crates) (q : Sqlite c) where
  open c use {Value}

  abbrev by_id : ℕ → EventFilter
  by_id id = record default_filter { id = some id }

  selects-by_id :
      (id : ℕ) (tables : Tables Value) (row : EventRow Value)
      → selects c q (by_id id) tables row ≡ has_id id row
  unfolding selects selects_columns filter_tags sort_dedup sort_by
  selects-by_id id tables row = ground arith

  none_selected :
      (id : ℕ) (tables : Tables Value) (rows : List (EventRow Value))
      → any (has_id id) rows ≡ false
      → retain (selects c q (by_id id) tables) rows ≡ []
  none_selected id tables [] h = refl
  none_selected id tables (row ∷ rows) h =
      ground (arith, none_selected id tables rows, selects-by_id id tables row)

  one_selected :
      (id : ℕ) (tables : Tables Value) (rows : List (EventRow Value)) (new : EventRow Value)
      → any (has_id id) rows ≡ false
      → new.id ≡ id
      → retain (selects c q (by_id id) tables) (rows ++ new ∷ []) ≡ new ∷ []
  one_selected id tables [] new h e = ground (arith, selects-by_id id tables new)
  one_selected id tables (row ∷ rows) new h e =
      ground (arith, one_selected id tables rows new, selects-by_id id tables row)

  -- What a successful insertion in strict mode has done.
  pub append-eq-ok :
      (e : Event Value) (tables : Tables Value) {appended : Event Value} {after : Tables Value}
      → append c q e tables ≡ ok (appended, after)
      → (any (conflicts c q (event_to_row e)) tables.events ≡ false)
        × (appended ≡ e)
        × (after.events ≡ tables.events ++ event_to_row e ∷ [])
  unfolding append insert_event
  append-eq-ok e tables h = grind arith

  -- What reading gives of an event that was written.
  abbrev pub read_again : Event Value → Result (Event Value)
  read_again e = q.read_metadata e.metadata_json >>= λ metadata.
      q.read_created_at e.created_at >>= λ now.
      ok (record e { metadata_json = metadata; created_at = now })

  row_to_event-read_again : (e : Event Value) → row_to_event c q (event_to_row e) ≡ read_again e
  unfolding row_to_event event_to_row
  row_to_event-read_again e =
      let type = (try_from_iff (as_str e.event_type) e.event_type).1 refl in
      rw (type, q.read_tags-same e.tags, c.parse-uuid_text e.id) refl

  listed :
      (e : Event Value) (after : Tables Value)
      → retain (selects c q (by_id e.id) after) after.events ≡ event_to_row e ∷ []
      → list_events c q (by_id e.id) after ≡ (read_again e >>= λ read. ok (read ∷ []))
  unfolding list_events newest_first sort_by read_rows
  listed e after h = rw h (rw (row_to_event-read_again e) refl)

  same_instant :
      (e : Event Value)
      → (read_again e >>= λ read. ok (read ∷ [])) ≡ (
          q.read_metadata e.metadata_json >>= λ metadata.
          q.read_created_at e.created_at >>= λ now. ok (record e { metadata_json = metadata } ∷ []))
  same_instant e = elim (Result-cases (q.read_metadata e.metadata_json)) [
    | inl (error, refused) ↦ rw refused refl
    | inr (metadata, read) ↦ elim (Result-cases (q.read_created_at e.created_at)) [
      | inl (error, refused) ↦ rw (read, refused) refl
      | inr (now, accepted) ↦
          rw (read, accepted)
            (ap (λ t. ok (record e { metadata_json = metadata; created_at = t } ∷ []))
              (q.read_created_at-same e.created_at accepted))
    ]
  ]

  -- An event that was appended is what the store lists under its identifier, alone and as it was
  -- appended but for its metadata, which is what is read from its text; where the text of its metadata
  -- or of its instant is not accepted, the listing fails with that error.
  pub list_events-append :
      (e : Event Value) (tables : Tables Value) {appended : Event Value} {after : Tables Value}
      → append c q e tables ≡ ok (appended, after)
      → (appended ≡ e)
        × (list_events c q (record default_filter { id = some e.id }) after ≡ (
            q.read_metadata e.metadata_json >>= λ metadata.
            q.read_created_at e.created_at >>= λ now.
            ok (record e { metadata_json = metadata } ∷ [])))
  unfolding event_to_row
  list_events-append e tables {appended} {after} h =
      let (fresh, same, rows) = append-eq-ok e tables h in
      let one =
        one_selected e.id after tables.events (event_to_row e)
          (no_id c q (event_to_row e) tables.events fresh) refl in
      (
        same,
        listed e after (
              subst (λ l. retain (selects c q (by_id e.id) after) l ≡ event_to_row e ∷ [])
                (sym rows) one)
            ∙ same_instant e,
      )

module _ {A : Type 0} (p r : A → Bool) where
  all_same : ((a : A) → p a ≡ r a) → (xs : List A) → all p xs ≡ all r xs
  all_same h [] = refl
  all_same h (x ∷ xs) = cc (h x, all_same h xs)

and-right : (a b : Bool) → (a && b) ≡ true → b ≡ true
and-right true b h = h
and-right false b h = cc

-- What the filter demands of the tags of an event.
abbrev pub HasTags : {V : Type 0} → List String → Event V → Type 0
HasTags wanted e = all (contains e.tags) wanted ≡ true

module _ (c : Crates) (q : Sqlite c) where
  open c use {Value}

  read_row-tags :
      (row : EventRow Value) {e : Event Value} → row_to_event c q row ≡ ok e → e.tags ≡ row.tags
  unfolding row_to_event
  read_row-tags row h = let same = q.read_tags-same row.tags in grind arith

  -- The events are as many as the rows, and have their tags.
  read_rows-eq-ok :
      (wanted : List String) (rows : List (EventRow Value)) {events : List (Event Value)}
      → read_rows c q rows ≡ ok events
      → All (λ row. all (contains row.tags) wanted ≡ true) rows
      → (length events ≡ length rows) × All (HasTags wanted) events
  unfolding read_rows
  read_rows-eq-ok wanted [] {events} h k =
      let same : [] ≡ events = cc h in
      subst (λ l. (length l ≡ 0) × All (HasTags wanted) l) same (refl, tt)
  read_rows-eq-ok wanted (row ∷ rows) {events} h k =
      let (e, read, h1) = >>=-eq-ok (row_to_event c q row) _ h in
      let (rest, read_rest, h2) = >>=-eq-ok (read_rows c q rows) _ h1 in
      let (as_many, tagged) = read_rows-eq-ok wanted rows read_rest k.1 in
      let same : e ∷ rest ≡ events = cc h2 in
      let first : HasTags wanted e =
        subst (λ l. all (contains l) wanted ≡ true) (sym (read_row-tags row read)) k.0 in
      subst (λ l. (length l ≡ length (row ∷ rows)) × All (HasTags wanted) l) same
        (omega (arith, as_many), (first, tagged))

module _ (c : Crates) (q : Sqlite c) where
  open c use {Value}

  selects-tags :
      (filter : EventFilter) (tables : Tables Value) (row : EventRow Value)
      → IsTagged tables.event_tags row
      → selects c q filter tables row ≡ true
      → all (contains row.tags) (filter_tags filter) ≡ true
  unfolding selects IsTagged
  selects-tags filter tables row tagged h =
      sym (
        all_same (λ tag. any (is_tag row.id tag) tables.event_tags) (contains row.tags) tagged
          (filter_tags filter))
      ∙ and-right (selects_columns c q filter tables row) _ h

  -- Of consistent tables, the store lists at most as many events as the limit (50 by default), and
  -- only events that have every tag that the filter names.
  pub list_events_lem :
      (filter : EventFilter) (tables : Tables Value) {events : List (Event Value)}
      → IsConsistent c q tables
      → list_events c q filter tables ≡ ok events
      → (length events ≤ unwrap_or filter.limit 50) × All (HasTags (filter_tags filter)) events
  unfolding list_events newest_first
  list_events_lem filter tables {events} consistent h =
      let limit = unwrap_or filter.limit 50 in
      let chosen = retain (selects c q filter tables) tables.events in
      let sorted = newest_first chosen in
      let P : EventRow Value → Type 0 =
        λ row. all (contains row.tags) (filter_tags filter) ≡ true in
      let tagged =
        All-zip (IsTagged tables.event_tags) (λ row. selects c q filter tables row ≡ true) P
          (λ row t s. selects-tags filter tables row t s) chosen
          (All-retain (IsTagged tables.event_tags) (selects c q filter tables) tables.events
            consistent.tagged)
          (retain_holds (selects c q filter tables) tables.events) in
      let (same, all_tagged) =
        read_rows-eq-ok c q (filter_tags filter) (take limit sorted) h
          (All-take P limit sorted (All-sort_by _ P chosen tagged)) in
      (omega (arith, same, length-take limit sorted), all_tagged)
