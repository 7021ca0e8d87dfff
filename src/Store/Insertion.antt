-- ===== src/Store/Insertion.antt =====
-- What the insertions of src/store.rs keep of the tables: the constraints of the schema, and that
-- `event_tags` lists the tags of the events and nothing else.
use shuttle_rs.Prelude.{
  ℕ, String, ◌≡◌, refl, List, [], ◌∷◌, ◌++◌, Bool, true, false, ◌&&◌, ◌||◌, ◌==◌, str_eq,
  str_eq_iff, if◌then◌else◌, any, All, All-append, All-zip, if_cases, arith, contains,
}
use shuttle_rs.Crates.{Crates}
use shuttle_rs.Core.{Event, Result, ok, err}
use shuttle_rs.Store.Tables.{
  Sqlite, EventRow, Tables, InsertMode, empty_tables, insert_event, insert_tags, event_to_row,
  conflicts, has_id, is_tag,
}

-- The tag table has the tags of the row, and those only.
unfoldable pub IsTagged : {V : Type 0} → List (ℕ × String) → EventRow V → Type 0
IsTagged entries row = (tag : String) → any (is_tag row.id tag) entries ≡ contains row.tags tag

-- No tag is listed for an identifier that no row has.
unfoldable pub IsOwned : {V : Type 0} → List (EventRow V) → List (ℕ × String) → Type 0
IsOwned rows entries =
    (id : ℕ) (tag : String) → any (is_tag id tag) entries ≡ true → any (has_id id) rows ≡ true

module _ (c : Crates) (q : Sqlite c) where
  open c use {Value}

  -- No row takes the primary key or the columns of the unique index from an earlier one.
  abbrev pub Apart : List (EventRow Value) → Type 0
  Apart [] = Unit
  Apart (row ∷ rows) = All (λ later. conflicts c q later row ≡ false) rows × Apart rows

  pub record IsConsistent (tables : Tables Value) : Type 0 where
    pub apart : Apart tables.events
    pub tagged : All (IsTagged tables.event_tags) tables.events
    pub owned : IsOwned tables.events tables.event_tags

pub any-append {ℓ} :
    {A : Type ℓ} (p : A → Bool) (xs : List A) (x : A) → any p (xs ++ x ∷ []) ≡ (any p xs || p x)
any-append p [] x = ground arith
any-append p (y ∷ ys) x = ground (arith, any-append p ys x)

any-insert_tag :
    (id j : ℕ) (t tag : String) (entries : List (ℕ × String))
    → any (is_tag j t) (if any (is_tag id tag) entries then entries else entries ++ (id, tag) ∷ [])
      ≡ (any (is_tag j t) entries || (id == j && str_eq tag t))
any-insert_tag id j t tag entries =
    let same : id ≡ j → tag ≡ t → any (is_tag j t) entries ≡ any (is_tag id tag) entries =
      λ e f. cc in
    ground (arith, same, str_eq_iff tag t, any-append (is_tag j t) entries (id, tag))

any-insert_tags :
    (id j : ℕ) (t : String) (tags : List String) (entries : List (ℕ × String))
    → any (is_tag j t) (insert_tags id tags entries)
      ≡ (any (is_tag j t) entries || (id == j && contains tags t))
unfolding insert_tags
any-insert_tags id j t [] entries = ground arith
any-insert_tags id j t (tag ∷ tags) entries =
    let rest =
      any-insert_tags id j t tags
        (if any (is_tag id tag) entries then entries else entries ++ (id, tag) ∷ []) in
    let first = any-insert_tag id j t tag entries in ground (arith, rest, first)

module _ {V : Type 0} (id : ℕ) (tags : List String) (entries : List (ℕ × String)) where
  -- The tags of another row are what they were.
  IsTagged-before :
      (row : EventRow V)
      → (id == row.id) ≡ false
      → IsTagged entries row
      → IsTagged (insert_tags id tags entries) row
  unfolding IsTagged
  IsTagged-before row other h tag =
      let all = any-insert_tags id row.id tag tags entries in ground (arith, all, h tag)

  IsOwned-after :
      (rows : List (EventRow V)) (new : EventRow V)
      → new.id ≡ id
      → IsOwned rows entries
      → IsOwned (rows ++ new ∷ []) (insert_tags id tags entries)
  unfolding IsOwned
  IsOwned-after rows new same h j tag listed =
      let all = any-insert_tags id j tag tags entries in
      let more = any-append (has_id j) rows new in
      let old = h j tag in ground (arith, all, more, old)

module _ (c : Crates) (q : Sqlite c) where
  open c use {Value}

  none_conflicts :
      (new : EventRow Value) (rows : List (EventRow Value))
      → any (conflicts c q new) rows ≡ false
      → All (λ row. (conflicts c q new row ≡ false) × ((new.id == row.id) ≡ false)) rows
  unfolding conflicts
  none_conflicts new [] h = tt
  none_conflicts new (row ∷ rows) h =
      ((ground arith, ground arith), none_conflicts new rows (ground arith))

  pub no_id :
      (new : EventRow Value) (rows : List (EventRow Value))
      → any (conflicts c q new) rows ≡ false
      → any (has_id new.id) rows ≡ false
  unfolding conflicts
  no_id new [] h = refl
  no_id new (row ∷ rows) h = ground (arith, no_id new rows)

  Apart-append :
      (new : EventRow Value) (rows : List (EventRow Value))
      → All (λ row. (conflicts c q new row ≡ false) × ((new.id == row.id) ≡ false)) rows
      → Apart c q rows
      → Apart c q (rows ++ new ∷ [])
  Apart-append new [] h k = (tt, tt)
  Apart-append new (row ∷ rows) h k = (
    All-append (λ later. conflicts c q later row ≡ false) rows (new ∷ []) k.0 (h.0.0, tt),
    Apart-append new rows h.1 k.1,
  )

  IsTagged-new :
      (e : Event Value) (tables : Tables Value)
      → any (has_id e.id) tables.events ≡ false
      → IsOwned tables.events tables.event_tags
      → IsTagged (insert_tags e.id e.tags tables.event_tags) (event_to_row e)
  unfolding IsTagged IsOwned event_to_row
  IsTagged-new e tables fresh owned tag =
      let all = any-insert_tags e.id e.id tag e.tags tables.event_tags in
      let old = owned e.id tag in ground (arith, all, old)

  inserted_row :
      (e : Event Value) (tables : Tables Value)
      → any (conflicts c q (event_to_row e)) tables.events ≡ false
      → IsConsistent c q tables
      → IsConsistent c q (record {
        events = tables.events ++ event_to_row e ∷ [];
        event_tags = insert_tags e.id e.tags tables.event_tags;
      })
  unfolding event_to_row
  inserted_row e tables fresh h =
      let none = none_conflicts (event_to_row e) tables.events fresh in
      let after = insert_tags e.id e.tags tables.event_tags in
      record {
        apart = Apart-append (event_to_row e) tables.events none h.apart;
        tagged =
            All-append (IsTagged after) tables.events _
              (All-zip
                (λ row. (conflicts c q (event_to_row e) row ≡ false) × ((e.id == row.id) ≡ false))
                (IsTagged tables.event_tags) (IsTagged after)
                (λ row k t. IsTagged-before e.id e.tags tables.event_tags row k.1 t) tables.events
                none h.tagged)
              (IsTagged-new e tables (no_id (event_to_row e) tables.events fresh) h.owned, tt);
        owned =
            IsOwned-after e.id e.tags tables.event_tags tables.events (event_to_row e) refl h.owned;
      }

  -- The insertions of a list of events, each in its mode; one that fails leaves the tables.
  abbrev after_insert : Tables Value → Result (Bool × Tables Value) → Tables Value
  after_insert before (ok (inserted, after)) = after
  after_insert before (err e) = before

  unfoldable pub fill : List (Event Value × InsertMode) → Tables Value → Tables Value
  unfolding insert_event
  fill [] tables = tables
  fill ((e, mode) ∷ rest) tables = fill rest (after_insert tables (insert_event c q e mode tables))

  pub insert_event-IsConsistent :
      (e : Event Value) (mode : InsertMode) (tables : Tables Value)
      → IsConsistent c q tables
      → IsConsistent c q (after_insert tables (insert_event c q e mode tables))
  unfolding insert_event
  insert_event-IsConsistent e InsertMode.strict tables h =
      if_cases (λ r. IsConsistent c q (after_insert tables r))
        (any (conflicts c q (event_to_row e)) tables.events) _ _ (λ _. h)
        (λ fresh. inserted_row e tables fresh h)
  insert_event-IsConsistent e InsertMode.ignore_duplicates tables h =
      if_cases (λ r. IsConsistent c q (after_insert tables r))
        (any (conflicts c q (event_to_row e)) tables.events) _ _ (λ _. h)
        (λ fresh. inserted_row e tables fresh h)

  empty-IsConsistent : IsConsistent c q empty_tables
  unfolding IsOwned
  empty-IsConsistent = record { apart = tt; tagged = tt; owned = λ id tag h. cc }

  -- Whatever events are inserted into a new store, in either mode, no two rows have one identifier, no
  -- step of a run of a workspace is claimed initially by two rows, and `event_tags` has exactly the tags
  -- of the events.
  pub fill-IsConsistent :
      (insertions : List (Event Value × InsertMode))
      → IsConsistent c q (fill insertions empty_tables)
  unfolding fill
  fill-IsConsistent insertions = go insertions empty_tables empty-IsConsistent
    where
      go :
          (l : List (Event Value × InsertMode)) (tables : Tables Value)
          → IsConsistent c q tables
          → IsConsistent c q (fill l tables)
      go [] tables h = h
      go ((e, mode) ∷ l) tables h = go l _ (insert_event-IsConsistent e mode tables h)
