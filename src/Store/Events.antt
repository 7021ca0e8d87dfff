-- ===== src/Store/Events.antt =====
-- src/store.rs: the interface of the store, over the tables.
use shuttle_rs.Prelude.{
  String, Option, none, some, List, [], ◌∷◌, ◌++◌, Bool, true, ◌&&◌, ◌||◌, ◌&◌, str_eq, is_text,
  any, all, retain, take, unwrap_or,
}
use shuttle_rs.Prelude.Sorting.{sort_by, by_ascending}
use shuttle_rs.Prelude.Texts.{sort_dedup}
use shuttle_rs.Crates.{Crates}
use shuttle_rs.Core.{Event, EventFilter, EventStore, Result, ok, ◌>>=◌, as_str}
use shuttle_rs.Store.Tables.{
  Sqlite, EventRow, Tables, InsertMode, insert_event, row_to_event, has_id, is_tag,
}

unfoldable pub filter_tags : EventFilter → List String
unfolding sort_dedup
filter_tags filter = elim filter.tag [
  | none ↦ sort_dedup filter.tags
  | some tag ↦ sort_dedup (filter.tags ++ tag ∷ [])
]

-- `?n IS NULL OR ..`
abbrev null_or : {A : Type 0} → Option A → (A → Bool) → Bool
null_or none p = true
null_or (some a) p = p a

-- `ORDER BY created_at DESC, id DESC`
unfoldable pub newest_first : {V : Type 0} → List (EventRow V) → List (EventRow V)
newest_first = sort_by (λ x y. by_ascending (λ r. r.created_at) (λ r. r.id) y x)

module _ (c : Crates) (q : Sqlite c) where
  open c use {Value, to_string}

  -- `for row in rows { events.push(row?) }`
  unfoldable pub read_rows : List (EventRow Value) → Result (List (Event Value))
  unfolding row_to_event
  read_rows [] = ok []
  read_rows (row ∷ rows) = do
    event ← row_to_event c q row
    events ← read_rows rows
    ok (event ∷ events)

  -- The fixed part of the `WHERE` clause.
  unfoldable pub selects_columns : EventFilter → Tables Value → EventRow Value → Bool
  selects_columns filter tables row =
      null_or filter.event_type (λ event_type. str_eq row.event_type (as_str event_type))
      && null_or filter.workspace_id (λ workspace_id. str_eq row.workspace_id workspace_id)
      && null_or filter.agent (λ agent. str_eq row.agent agent)
      && null_or filter.id (λ id. has_id id row)
      && null_or filter.recipient (λ recipient.
        is_text (q.json_extract row.metadata_json "to") recipient
        || any (is_tag row.id ("to:" & recipient)) tables.event_tags)
      && null_or filter.query (λ query.
        let query = q.to_lowercase query in
        q.lower_like query (unwrap_or row.title "")
        || q.lower_like query row.content
        || q.lower_like query (q.tags_text row.tags)
        || q.lower_like query (to_string row.metadata_json))

  -- The `WHERE` clause.
  unfoldable pub selects : EventFilter → Tables Value → EventRow Value → Bool
  unfolding filter_tags selects_columns
  selects filter tables row =
      selects_columns filter tables row
      && all (λ tag. any (is_tag row.id tag) tables.event_tags) (filter_tags filter)

  unfoldable pub list_events : EventFilter → Tables Value → Result (List (Event Value))
  unfolding selects newest_first read_rows
  list_events filter tables = read_rows (
      take (unwrap_or filter.limit 50)
        (newest_first (retain (selects filter tables) tables.events)))

  unfoldable pub append : Event Value → Tables Value → Result (Event Value × Tables Value)
  unfolding insert_event
  append event tables = do
    (inserted, after) ← insert_event c q event InsertMode.strict tables
    ok (event, after)

  unfoldable pub append_if_absent : Event Value → Tables Value → Result (Bool × Tables Value)
  unfolding insert_event
  append_if_absent event tables = insert_event c q event InsertMode.ignore_duplicates tables

  abbrev pub event_store : EventStore (Tables Value) Value
  event_store = record { append = append; list = list_events }
