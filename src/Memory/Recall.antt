-- ===== src/Memory/Recall.antt =====
-- src/memory.rs: new memories and the recall of memories from any store.
use shuttle_rs.Prelude.{
  map, ℕ, String, Option, none, some, List, [], ◌∷◌, ◌++◌, true, false, ◌==◌, any, take,
  split_whitespace,
}
use shuttle_rs.Prelude.Sorting.{sort_by, by_descending}
use shuttle_rs.Prelude.Texts.{sort_dedup}
use shuttle_rs.Crates.{Crates}
use shuttle_rs.Core.{
  Event, EventType, EventFilter, EventStore, Stamp, Result, ok, ◌>>=◌, as_str, new_event,
  default_filter,
}

unfoldable pub title_for : EventType → Option String
unfolding as_str
title_for EventType.memory = none
title_for EventType.decision = some "decision"
title_for EventType.observation = some "observation"
title_for EventType.pattern = some "pattern"
title_for EventType.fact = some "fact"
title_for EventType.bug = some "bug"
title_for EventType.handoff = some "handoff"
title_for event_type = some (as_str event_type)

module _ (c : Crates) (stamp : Stamp) where
  open c use {Value, text, object}

  unfoldable pub new_typed_memory : EventType → String → String → String → String → Event Value
  unfolding new_event title_for as_str
  new_typed_memory event_type workspace_id agent session_id content = new_event stamp (record {
    event_type = event_type;
    workspace_id = workspace_id;
    repo_id = none;
    repo_path = none;
    git_remote = none;
    bit_repo_id = none;
    branch = none;
    commit = none;
    repo_dirty = none;
    agent = agent;
    session_id = session_id;
    title = title_for event_type;
    content = content;
    tags = [];
    metadata_json = object (("kind", text (as_str event_type)) ∷ []);
  })

  unfoldable pub new_memory : String → String → String → String → Event Value
  unfolding new_typed_memory
  new_memory = new_typed_memory EventType.memory

abbrev pub memory_event_types : List EventType
memory_event_types =
    EventType.memory ∷ EventType.decision ∷ EventType.observation ∷ EventType.pattern
    ∷ EventType.fact ∷ EventType.bug ∷ EventType.handoff ∷ []

module _ {V : Type 0} where
  -- `events.retain(|event| seen.insert(event.id))`, with the identifiers seen so far
  unfoldable pub dedup_from : List ℕ → List (Event V) → List (Event V)
  dedup_from seen [] = []
  dedup_from seen (event ∷ events) = elim (any (λ id. id == event.id) seen) [
    | true ↦ dedup_from seen events
    | false ↦ event ∷ dedup_from (event.id ∷ seen) events
  ]

  unfoldable pub dedup_events : List (Event V) → List (Event V)
  unfolding dedup_from
  dedup_events events = dedup_from [] events

  unfoldable pub latest_first : List (Event V) → List (Event V)
  latest_first = sort_by (by_descending (λ e. e.created_at) (λ e. e.id))

module _ {S V : Type 0} (s : EventStore S V) where
  unfoldable pub memories : S → Result (List (Event V))
  memories state = s.list (record default_filter { event_type = some EventType.memory }) state

  -- `events.extend(store.list(..).await?)`, for each of the filters
  unfoldable pub extend_each : List EventFilter → List (Event V) → S → Result (List (Event V))
  extend_each [] events state = ok events
  extend_each (filter ∷ filters) events state = do
    found ← s.list filter state
    extend_each filters (events ++ found) state

  abbrev pub candidates : EventType → Option String → String → EventFilter
  candidates event_type workspace_id query = record default_filter {
    event_type = some event_type;
    workspace_id = workspace_id;
    query = some query;
    limit = some 50;
  }

  -- The filters after the first: one for each of at most eight words of the query.
  unfoldable pub token_filters : String → EventType → Option String → List EventFilter
  unfolding sort_dedup
  token_filters query event_type workspace_id =
      map (candidates event_type workspace_id) (take 8 (sort_dedup (split_whitespace query)))

  unfoldable pub recall_candidates_for_type :
      String → EventType → Option String → S → Result (List (Event V))
  unfolding extend_each token_filters dedup_events latest_first
  recall_candidates_for_type query event_type workspace_id state = do
    first ← s.list (candidates event_type workspace_id query) state
    events ← extend_each (token_filters query event_type workspace_id) first state
    ok (take 50 (latest_first (dedup_events events)))

  -- The loop over the types, with the events so far.
  unfoldable pub recall_each :
      String → Option String → List EventType → List (Event V) → S → Result (List (Event V))
  unfolding recall_candidates_for_type
  recall_each query workspace_id [] events state = ok events
  recall_each query workspace_id (event_type ∷ event_types) events state = do
    found ← recall_candidates_for_type query event_type workspace_id state
    recall_each query workspace_id event_types (events ++ found) state

  unfoldable pub recall_by_type :
      String → Option EventType → Option String → S → Result (List (Event V))
  unfolding recall_candidates_for_type recall_each dedup_events latest_first
  recall_by_type query (some event_type) workspace_id state =
      recall_candidates_for_type query event_type workspace_id state
  recall_by_type query none workspace_id state = do
    events ← recall_each query workspace_id memory_event_types [] state
    ok (take 50 (latest_first (dedup_events events)))

  unfoldable pub recall : String → S → Result (List (Event V))
  unfolding recall_by_type
  recall query state = recall_by_type query (some EventType.memory) none state
