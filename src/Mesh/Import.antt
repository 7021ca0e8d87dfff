-- ===== src/Mesh/Import.antt =====
-- src/mesh.rs: export, import and synchronisation, over the tables of src/store.rs.
use shuttle_rs.Prelude.{
  ℕ, String, Option, none, some, List, [], ◌∷◌, ◌+◌, Bool, true, false, str_eq, if◌then◌else◌,
  length,
}
use shuttle_rs.Prelude.Sorting.{sort_by, by_ascending}
use shuttle_rs.Crates.{Crates}
use shuttle_rs.Core.{Event, Result, ok, ◌>>=◌, default_filter, u32_max}
use shuttle_rs.Store.Tables.{Sqlite, Tables}
use shuttle_rs.Store.Events.{list_events, append_if_absent}

pub record MeshArchive (V : Type 0) : Type 0 where
  pub exported_at : ℕ
  pub event_count : ℕ
  pub events : List (Event V)

pub record ImportReport : Type 0 where
  pub imported : ℕ
  pub skipped_duplicates : ℕ

pub record SyncReport : Type 0 where
  pub local_imported : ℕ
  pub peer_imported : ℕ
  pub skipped_duplicates : ℕ

-- `report.imported += 1` or `report.skipped_duplicates += 1`
abbrev pub count_one : Bool → ImportReport → ImportReport
count_one true report = record report { imported = report.imported + 1 }
count_one false report = record report { skipped_duplicates = report.skipped_duplicates + 1 }

-- `ImportReport::default()`
abbrev pub no_report : ImportReport
no_report = record { imported = 0; skipped_duplicates = 0 }

module _ (c : Crates) (q : Sqlite c) where
  open c use {Value, text, insert_field}

  unfoldable pub all_events : Tables Value → Result (List (Event Value))
  unfolding list_events
  all_events tables = list_events c q (record default_filter { limit = some u32_max }) tables

  unfoldable pub export_archive : ℕ → Tables Value → Result (MeshArchive Value)
  unfolding all_events
  export_archive now tables = do
    events ← all_events tables
    let sorted = sort_by (by_ascending (λ e. e.created_at) (λ e. e.id)) events
    ok (record { exported_at = now; event_count = length sorted; events = sorted })

  unfoldable pub event_for_workspace : String → Event Value → Event Value
  event_for_workspace workspace_id event =
      if str_eq event.workspace_id workspace_id then event else record event {
        metadata_json =
            insert_field event.metadata_json "mesh_source_workspace_id" (text event.workspace_id);
        workspace_id = workspace_id;
      }

  unfoldable pub for_target : Option String → Event Value → Event Value
  unfolding event_for_workspace
  for_target none event = event
  for_target (some workspace_id) event = event_for_workspace workspace_id event

  -- The loop, from the report so far.
  unfoldable pub import_loop :
      Option String
      → List (Event Value)
      → ImportReport
      → Tables Value
      → Result (ImportReport × Tables Value)
  unfolding for_target append_if_absent
  import_loop target [] report tables = ok (report, tables)
  import_loop target (event ∷ events) report tables = do
    (inserted, after) ← append_if_absent c q (for_target target event) tables
    import_loop target events (count_one inserted report) after

  unfoldable pub import_events_into_workspace :
      Option String → List (Event Value) → Tables Value → Result (ImportReport × Tables Value)
  unfolding import_loop
  import_events_into_workspace target events tables = import_loop target events no_report tables

  unfoldable pub import_events :
      List (Event Value) → Tables Value → Result (ImportReport × Tables Value)
  unfolding import_events_into_workspace
  import_events events tables = import_events_into_workspace none events tables

  unfoldable pub import_archive :
      MeshArchive Value → Tables Value → Result (ImportReport × Tables Value)
  unfolding import_events
  import_archive archive tables = import_events archive.events tables

  unfoldable pub import_archive_into_workspace :
      MeshArchive Value → String → Tables Value → Result (ImportReport × Tables Value)
  unfolding import_events_into_workspace
  import_archive_into_workspace archive target tables =
      import_events_into_workspace (some target) archive.events tables

  abbrev pub sync_report : ImportReport → ImportReport → SyncReport
  sync_report local peer = record {
    local_imported = local.imported;
    peer_imported = peer.imported;
    skipped_duplicates = local.skipped_duplicates + peer.skipped_duplicates;
  }

  unfoldable pub sync_bidirectional :
      Tables Value → Tables Value → Result (SyncReport × Tables Value × Tables Value)
  unfolding all_events import_events
  sync_bidirectional local peer = do
    local_events ← all_events local
    peer_events ← all_events peer
    (local_report, local_after) ← import_events peer_events local
    (peer_report, peer_after) ← import_events local_events peer
    ok (sync_report local_report peer_report, local_after, peer_after)

  unfoldable pub sync_bidirectional_into_workspaces :
      Tables Value
      → String
      → Tables Value
      → Option String
      → Result (SyncReport × Tables Value × Tables Value)
  unfolding all_events import_events_into_workspace
  sync_bidirectional_into_workspaces local local_workspace_id peer peer_workspace_id = do
    local_events ← all_events local
    peer_events ← all_events peer
    (local_report, local_after) ←
        import_events_into_workspace (some local_workspace_id) peer_events local
    (peer_report, peer_after) ← import_events_into_workspace peer_workspace_id local_events peer
    ok (sync_report local_report peer_report, local_after, peer_after)
