-- ===== src/Mcp/Refinement.antt =====
-- The tools of src/mcp.rs over the tables of src/store.rs perform the steps of the protocol on runs.
use shuttle_rs.Prelude.{
  ℕ, ◌<◌, String, ◌≡◌, refl, sym, subst, Option, none, some, false, str_eq, length, any,
}
use shuttle_rs.Crates.{Crates, field}
use shuttle_rs.Core.{ok_value, Event, Stamp, ok, workflow, u32_max, >>=-eq-ok, ok_or-eq-ok}
use shuttle_rs.Context.{RepoStatus, with_repo_metadata, get-with_repo_metadata, repo_fields}
use shuttle_rs.Store.Tables.{Sqlite, Tables}
use shuttle_rs.Store.Events.{event_store, list_events}
use shuttle_rs.Store.Lookup.{IsReadBack, append-eq-ok}
use shuttle_rs.Store.Latest.{AllOlder, workflow_filter, list_events-latest}
use shuttle_rs.Workflow.Run.{WorkflowRun, named}
use shuttle_rs.Workflow.Project.{
  StepsCodec, action_event, workflow_event, metadata_string, metadata_uuid, runs, run_by_id,
}
use shuttle_rs.Workflow.Protocol.{Step}
use shuttle_rs.Workflow.Latest.{project_runs-latest}
use shuttle_rs.Mcp.Commands.{McpRuntime, WorkflowAction, checked_action, perform}
use shuttle_rs.Mcp.Checks.{Says, checked_action-Kept}

module _ (c : Crates) (runtime : McpRuntime) (stamp : Stamp) (run_id : ℕ) where
  open c use {Value}

  -- The event that `perform` appends.
  abbrev appended : String → Option String → Option Value → Event Value
  appended action step_id value =
      with_repo_metadata c
        (action_event c stamp runtime.workspace_id runtime.agent runtime.session_id run_id action
          step_id value)
        (ok_value runtime.status)

  -- What the repository's state leaves of an event.
  abbrev Header : Event Value → Type 0
  Header e =
      (e.event_type ≡ workflow)
      × (e.workspace_id ≡ runtime.workspace_id)
      × (e.agent ≡ runtime.agent)
      × (e.created_at ≡ stamp.now)

  with_repo_metadata-Header :
      (e : Event Value) (status : Option RepoStatus)
      → Header e
      → Header (with_repo_metadata c e status)
  unfolding with_repo_metadata
  with_repo_metadata-Header e none h = h
  with_repo_metadata-Header e (some status) h = h

  appended-Header :
      (action : String) (step_id : Option String) (value : Option Value)
      → Header (appended action step_id value)
  unfolding action_event workflow_event
  appended-Header action step_id value =
      with_repo_metadata-Header
        (action_event c stamp runtime.workspace_id runtime.agent runtime.session_id run_id action
          step_id value)
        (ok_value runtime.status) (refl, refl, refl, refl)

  -- What is read under a key that the repository's state is not recorded under.
  metadata_string-kept :
      (e : Event Value) (key value : String)
      → ((s : RepoStatus) → any (λ f. str_eq f.0 key) (repo_fields c s) ≡ false)
      → metadata_string c e key ≡ ok value
      → metadata_string c (with_repo_metadata c e (ok_value runtime.status)) key ≡ ok value
  unfolding metadata_string
  metadata_string-kept e key value h k =
      let read = ok_or-eq-ok _ _ k in
      rw (get-with_repo_metadata c e (ok_value runtime.status) key h) (rw read refl)

  metadata_uuid-kept :
      (e : Event Value) (key : String) (id : ℕ)
      → ((s : RepoStatus) → any (λ f. str_eq f.0 key) (repo_fields c s) ≡ false)
      → metadata_uuid c e key ≡ ok id
      → metadata_uuid c (with_repo_metadata c e (ok_value runtime.status)) key ≡ ok id
  unfolding metadata_uuid
  metadata_uuid-kept e key id h k =
      let (value, read, parsed) = >>=-eq-ok (metadata_string c e key) _ k in
      rw (metadata_string-kept e key value h read) parsed

  -- The event before the repository's state is recorded.
  abbrev plain : String → Option String → Option Value → Event Value
  plain action step_id value =
      action_event c stamp runtime.workspace_id runtime.agent runtime.session_id run_id action
        step_id value

  plain-metadata :
      (action : String) (step_id : Option String) (value : Option Value)
      → (metadata_uuid c (plain action step_id value) "run_id" ≡ ok run_id)
        × (metadata_string c (plain action step_id value) "action" ≡ ok action)
        × Says c (plain action step_id value) step_id
  unfolding action_event workflow_event metadata_uuid metadata_string field
  plain-metadata action none none = (
    simp (c.get-object, c.as_str-text, c.parse-uuid_text),
    simp (c.get-object, c.as_str-text),
    tt,
  )
  plain-metadata action none (some v) = (
    simp (c.get-object, c.as_str-text, c.parse-uuid_text),
    simp (c.get-object, c.as_str-text),
    tt,
  )
  plain-metadata action (some id) none = (
    simp (c.get-object, c.as_str-text, c.parse-uuid_text),
    simp (c.get-object, c.as_str-text),
    simp (c.get-object, c.as_str-text),
  )
  plain-metadata action (some id) (some v) = (
    simp (c.get-object, c.as_str-text, c.parse-uuid_text),
    simp (c.get-object, c.as_str-text),
    simp (c.get-object, c.as_str-text),
  )

  Says-kept :
      (action : String) (step_id : Option String) (value : Option Value)
      → Says c (appended action step_id value) step_id
  Says-kept action none value = tt
  Says-kept action (some id) value =
      let (_, _, says) = plain-metadata action (some id) value in
      metadata_string-kept (plain action (some id) value) "step_id" id (λ s. refl) says

  module _ (codec : StepsCodec c) (q : Sqlite c) where
    -- A tool that succeeds, with a clock that is ahead of the store, fewer than 2 ^ 32 - 1 events in the
    -- store, and an event whose metadata and instant are read from their texts as they were written,
    -- has read a run from the store and taken a step of the protocol on it: the run that is read from
    -- then on is where that step leads.
    pub perform-Step :
        (requested : WorkflowAction Value) (tables : Tables Value) {e : Event Value}
        {after : Tables Value}
        → AllOlder stamp.now tables.events
        → length tables.events < u32_max
        → IsReadBack c q e
        → perform c codec (event_store c q) runtime stamp run_id requested tables ≡ ok (e, after)
        → (r : WorkflowRun Value) × (r' : WorkflowRun Value) × (run_by_id c codec
              (event_store c q)
              runtime.workspace_id
              run_id
              tables
            ≡ ok r)
          × Step c r r'
          × (run_by_id c codec (event_store c q) runtime.workspace_id run_id after ≡ ok r')
    unfolding perform run_by_id runs
    perform-Step requested tables {e} {after} older few back h =
        let s = event_store c q in
        let (r, read, h1) =
          >>=-eq-ok (run_by_id c codec s runtime.workspace_id run_id tables) _ h in
        let ((action, step_id, value), checked, h2) =
          >>=-eq-ok (checked_action c runtime.agent r requested) _ h1 in
        let new = appended action step_id value in
        let (type, place, agent, time) = appended-Header action step_id value in
        let (named, acted, _) = plain-metadata action step_id value in
        let kept = checked_action-Kept c r new requested (
          subst (λ a. checked_action c a r requested ≡ ok (action, step_id, value)) (sym agent)
            checked) in
        let (r', applied, step, other) = kept (Says-kept action step_id value) in
        let (found, projected, at) =
          >>=-eq-ok (runs c codec s runtime.workspace_id tables) _ read in
        let (events, before, projected1) =
          >>=-eq-ok (list_events c q (workflow_filter c q runtime.workspace_id) tables) _
            projected in
        let (_, returned, _) = append-eq-ok c q new tables h2 in
        let (_, earlier, listed) =
          list_events-latest c q runtime.workspace_id new tables
            (subst (IsReadBack c q) returned back)
            (subst (λ t. AllOlder t tables.events) (sym time) older) few type place before h2 in
        let (later, projects, finds) =
          project_runs-latest c codec events new run_id action earlier projected1
            (ok_or-eq-ok _ _ at)
            (metadata_uuid-kept (plain action step_id value) "run_id" run_id (λ s. refl) named)
            (metadata_string-kept (plain action step_id value) "action" action (λ s. refl) acted)
            other applied in
        (r, r', read, step, rw listed (rw projects (rw finds refl)))
