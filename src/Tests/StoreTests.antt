-- ===== src/Tests/StoreTests.antt =====
-- The theorems on src/store.rs and src/mesh.rs at two small stores, and runs of their functions.
use shuttle_rs.Prelude.{
  ℕ, ◌≡◌, refl, ◌≤◌, ◌+◌, All, some, List, [], ◌∷◌, false, and_then, length, arith, unwrap_or,
  if◌then◌else◌, ltb,
}
use shuttle_rs.Prelude.Sorting.{sort_by}
use shuttle_rs.Prelude.Texts.{sort_dedup}
use shuttle_rs.Core.{
  Event, EventType, EventFilter, Stamp, Result, ok, err, store, default_filter, as_str, try_from,
}
use shuttle_rs.Task.Events.{new_task, new_claim, new_task_done}
use shuttle_rs.Store.Tables.{
  Sqlite, Tables, InsertMode, empty_tables, event_to_row, row_to_event, insert_event, insert_tags,
  conflicts, initial_claim,
}
use shuttle_rs.Store.Events.{
  append, list_events, filter_tags, read_rows, newest_first, selects, selects_columns,
}
use shuttle_rs.Store.Insertion.{IsConsistent, fill, fill-IsConsistent}
use shuttle_rs.Store.Lookup.{HasTags, list_events-append, list_events_lem}
use shuttle_rs.Mesh.Import.{
  ImportReport, SyncReport, import_events_into_workspace, sync_bidirectional,
}
use shuttle_rs.Mesh.Loop.{import_events_idempotent}
use shuttle_rs.Mesh.Convergence.{IsReadable, sync_bidirectional_settles}
use shuttle_rs.Tests.Sample.{Json, crates, get, as_text}

-- Instants from 1000 on stand for those whose text is not accepted.
abbrev accepted : ℕ → Result ℕ
accepted now = if ltb now 1000 then ok now else err (store "input is out of range")

-- No query matches, and a column is extracted as the text it is.
abbrev pub sqlite : Sqlite crates
sqlite = record {
  json_extract = λ v k. and_then (get v k) as_text;
  to_lowercase = λ query. query;
  lower_like = λ query value. false;
  tags_text = λ tags. "";
  unique_error = "UNIQUE constraint failed";
  read_tags = ok;
  read_metadata = ok;
  read_created_at = accepted;
  column_error = λ error. "Conversion error";
  read_tags-same = λ tags. refl;
  read_created_at-same = λ now h. ground arith;
  json_extract-text = λ v k s h. h;
}

abbrev pub at : ℕ → Stamp
at n = record { new_id = n; now = n }

abbrev pub created : Event Json
created = new_task crates (at 1) "ws" "claude" "s" "write the docs"

abbrev pub claimed : Event Json
claimed = new_claim crates (at 2) "ws" "codex" "s" 1

abbrev done : Event Json
done = new_task_done crates (at 3) "ws" "codex" "s" 1

abbrev insertions : List (Event Json × InsertMode)
insertions =
    (created, InsertMode.strict)
    ∷ (claimed, InsertMode.strict)
    ∷ (created, InsertMode.ignore_duplicates)
    ∷ []

fill-IsConsistent_example : IsConsistent crates sqlite (fill crates sqlite insertions empty_tables)
fill-IsConsistent_example = fill-IsConsistent crates sqlite insertions

abbrev pub local : Tables Json
local = record {
  events = event_to_row created ∷ event_to_row claimed ∷ [];
  event_tags =
      (1, "task:open") ∷ (2, "task:claimed") ∷ (2, "claimed_by:codex") ∷ (2, "task_ref:x") ∷ [];
}

filled : fill crates sqlite insertions empty_tables ≡ local
unfolding fill insert_event insert_tags conflicts initial_claim event_to_row new_task new_claim
    as_str
filled = refl

abbrev peer : Tables Json
peer = record {
  events = event_to_row done ∷ [];
  event_tags = (3, "task:done") ∷ (3, "task_ref:x") ∷ [];
}

abbrev more : Tables Json
more = record {
  events = event_to_row created ∷ event_to_row claimed ∷ event_to_row done ∷ [];
  event_tags =
      (1, "task:open")
      ∷ (2, "task:claimed")
      ∷ (2, "claimed_by:codex")
      ∷ (2, "task_ref:x")
      ∷ (3, "task:done")
      ∷ (3, "task_ref:x")
      ∷ [];
}

list_events-append_example :
    (done ≡ done)
    × (list_events crates sqlite (record default_filter { id = some 3 }) more ≡ ok (done ∷ []))
unfolding append insert_event insert_tags conflicts initial_claim event_to_row new_task new_claim
    new_task_done as_str
list_events-append_example =
    list_events-append crates sqlite done local {appended = done} {after = more} refl

abbrev claims : EventFilter
claims = record default_filter { tag = some "task:claimed" }

list_events_lem_example :
    (length (claimed ∷ []) ≤ unwrap_or claims.limit 50)
    × All (HasTags (filter_tags claims)) (claimed ∷ [])
unfolding fill list_events read_rows newest_first selects selects_columns filter_tags sort_dedup
    sort_by insert_event insert_tags conflicts initial_claim event_to_row row_to_event new_task
    new_claim as_str try_from
list_events_lem_example =
    list_events_lem crates sqlite claims (fill crates sqlite insertions empty_tables)
      {events = claimed ∷ []} (fill-IsConsistent crates sqlite insertions) refl

import_events_idempotent_example :
    (report : ImportReport) × (after : Tables Json) × (import_events_into_workspace crates sqlite
        (some "other")
        (done ∷ created ∷ [])
        local
      ≡ ok (report, after))
    × (report.imported + report.skipped_duplicates ≡ 2)
    × (import_events_into_workspace crates sqlite (some "other") (done ∷ created ∷ []) after
        ≡ ok (record { imported = 0; skipped_duplicates = 2 }, after))
import_events_idempotent_example =
    import_events_idempotent crates sqlite (some "other") (done ∷ created ∷ []) local

local-IsReadable : All (IsReadable crates sqlite) local.events
unfolding IsReadable event_to_row new_task new_claim as_str try_from
local-IsReadable =
    (((EventType.task, refl), refl, refl), (((EventType.task, refl), refl, refl), tt))

peer-IsReadable : All (IsReadable crates sqlite) peer.events
unfolding IsReadable event_to_row new_task_done as_str try_from
peer-IsReadable = (((EventType.task, refl), refl, refl), tt)

sync_bidirectional_settles_example :
    (report : SyncReport) × (local_after : Tables Json) × (peer_after : Tables Json)
    × (sync_bidirectional crates sqlite local peer ≡ ok (report, local_after, peer_after))
    × ((skipped : ℕ) × (sync_bidirectional crates sqlite local_after peer_after
          ≡ ok (
            record { local_imported = 0; peer_imported = 0; skipped_duplicates = skipped },
            local_after,
            peer_after,
          )))
sync_bidirectional_settles_example =
    sync_bidirectional_settles crates sqlite local peer local-IsReadable peer-IsReadable
      (omega arith) (omega arith)
