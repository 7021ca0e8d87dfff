-- ===== src/Memory/Results.antt =====
-- What the recall of src/memory.rs returns, from any store.
use shuttle_rs.Prelude.{
  ℕ, String, ◌≡◌, refl, subst, ◌≤◌, Option, none, some, List, [], ◌∷◌, ◌++◌, Bool, true, false,
  ◌==◌, split_whitespace, any, take, map, arith, All, All-map, All-append, All-take, length,
  length-take,
}
use shuttle_rs.Prelude.Sorting.{
  sort_by, by_descending, by_descending-IsOrder, Sorted, Sorted-take, sort_by-Sorted, All-sort_by,
}
use shuttle_rs.Prelude.Distinct.{Other, Distinct, Distinct-take, Distinct-sort_by}
use shuttle_rs.Prelude.Texts.{sort_dedup}
use shuttle_rs.Core.{Event, EventType, EventFilter, EventStore, ok, >>=-eq-ok}
use shuttle_rs.Memory.Recall.{
  dedup_from, dedup_events, latest_first, extend_each, token_filters, candidates,
  recall_candidates_for_type, recall_each, recall_by_type, memory_event_types,
}

module _ {V : Type 0} where
  abbrev Unseen : List ℕ → Event V → Type 0
  Unseen seen e = any (λ id. id == e.id) seen ≡ false

  -- What is kept has not been seen, and has distinct identifiers.
  dedup_from-Distinct :
      (seen : List ℕ) (events : List (Event V))
      → All (Unseen seen) (dedup_from seen events) × Distinct (λ e. e.id) (dedup_from seen events)
  unfolding dedup_from
  dedup_from-Distinct seen [] = (tt, tt)
  dedup_from-Distinct seen (event ∷ events) =
      go (any (λ id. id == event.id) seen) refl (dedup_from-Distinct seen events)
        (dedup_from-Distinct (event.id ∷ seen) events)
    where
      go :
          (b : Bool)
          → any (λ id. id == event.id) seen ≡ b
          → All (Unseen seen) (dedup_from seen events)
            × Distinct (λ e. e.id) (dedup_from seen events)
          → All (Unseen (event.id ∷ seen)) (dedup_from (event.id ∷ seen) events)
            × Distinct (λ e. e.id) (dedup_from (event.id ∷ seen) events)
          → let kept : List (Event V) = elim b [
            | true ↦ dedup_from seen events
            | false ↦ event ∷ dedup_from (event.id ∷ seen) events
          ] in
            All (Unseen seen) kept × Distinct (λ e. e.id) kept
      go true e h k = h
      go false e h k =
          let kept = dedup_from (event.id ∷ seen) events in
          (
            (e, All-map (Unseen (event.id ∷ seen)) (Unseen seen) (λ f u. ground arith) kept k.0),
            (
              All-map (Unseen (event.id ∷ seen)) (Other (λ e. e.id) event) (λ f u. ground arith)
                  kept k.0,
              k.1,
            ),
          )

  dedup_from-All :
      (P : Event V → Type 0) (seen : List ℕ) (events : List (Event V))
      → All P events
      → All P (dedup_from seen events)
  unfolding dedup_from
  dedup_from-All P seen [] h = tt
  dedup_from-All P seen (event ∷ events) h =
      go (any (λ id. id == event.id) seen) (dedup_from-All P seen events h.1)
        (dedup_from-All P (event.id ∷ seen) events h.1)
    where
      go :
          (b : Bool)
          → All P (dedup_from seen events)
          → All P (dedup_from (event.id ∷ seen) events)
          → All P (elim b [
            | true ↦ dedup_from seen events
            | false ↦ event ∷ dedup_from (event.id ∷ seen) events
          ])
      go true k l = k
      go false k l = (h.0, l)

-- At most 50 events with distinct identifiers, the latest first.
pub record IsRecall {V : Type 0} (P : Event V → Type 0) (events : List (Event V)) : Type 0 where
  pub bounded : length events ≤ 50
  pub distinct : Distinct (λ e. e.id) events
  pub sorted : Sorted (by_descending (λ e. e.created_at) (λ e. e.id)) events
  pub sound : All P events

module _ {S V : Type 0} (s : EventStore S V) (state : S) (P : Event V → Type 0)
    (workspace_id : Option String)
    (holds : (filter : EventFilter) (events : List (Event V))
      → filter.workspace_id ≡ workspace_id
      → s.list filter state ≡ ok events
      → All P events) where
  finished :
      (events : List (Event V))
      → All P events
      → IsRecall P (take 50 (latest_first (dedup_events events)))
  unfolding latest_first dedup_events
  finished events h =
      let kept = dedup_from [] events in
      let le = by_descending (λ e. e.created_at) (λ e. e.id) in
      record {
        bounded = length-take 50 (sort_by le kept);
        distinct =
            Distinct-take (λ e. e.id) 50 (sort_by le kept)
              (Distinct-sort_by (λ e. e.id) le kept (dedup_from-Distinct [] events).1);
        sorted =
            Sorted-take le 50 (sort_by le kept)
              (sort_by-Sorted le (by_descending-IsOrder (λ e. e.created_at) (λ e. e.id)) kept);
        sound =
            All-take P 50 (sort_by le kept) (All-sort_by le P kept (dedup_from-All P [] events h));
      }

  extend_each-All :
      (filters : List EventFilter) (events : List (Event V)) {found : List (Event V)}
      → All (λ f. f.workspace_id ≡ workspace_id) filters
      → All P events
      → extend_each s filters events state ≡ ok found
      → All P found
  unfolding extend_each
  extend_each-All [] events {found} w h e = let same : events ≡ found = cc e in subst (All P) same h
  extend_each-All (filter ∷ filters) events w h e =
      let (more, listed, rest) = >>=-eq-ok (s.list filter state) _ e in
      extend_each-All filters (events ++ more) w.1
        (All-append P events more h (holds filter more w.0 listed)) rest

  All-words :
      (event_type : EventType) (words : List String)
      → All (λ f. f.workspace_id ≡ workspace_id) (map (candidates s event_type workspace_id) words)
  All-words event_type [] = tt
  All-words event_type (word ∷ words) = (refl, All-words event_type words)

  candidates-IsRecall :
      (query : String) (event_type : EventType) {events : List (Event V)}
      → recall_candidates_for_type s query event_type workspace_id state ≡ ok events
      → IsRecall P events
  unfolding recall_candidates_for_type token_filters
  candidates-IsRecall query event_type {events} h =
      let (first, listed, h1) =
        >>=-eq-ok (s.list (candidates s event_type workspace_id query) state) _ h in
      let (found, extended, h2) =
        >>=-eq-ok (extend_each s (token_filters s query event_type workspace_id) first state) _
          h1 in
      let all =
        extend_each-All (token_filters s query event_type workspace_id) first
          (All-words event_type (take 8 (sort_dedup (split_whitespace query))))
          (holds (candidates s event_type workspace_id query) first refl listed) extended in
      let same : take 50 (latest_first (dedup_events found)) ≡ events = cc h2 in
      subst (IsRecall P) same (finished found all)

  recall_each-All :
      (query : String) (event_types : List EventType) (events : List (Event V))
      {found : List (Event V)}
      → All P events
      → recall_each s query workspace_id event_types events state ≡ ok found
      → All P found
  unfolding recall_each
  recall_each-All query [] events {found} h e =
      let same : events ≡ found = cc e in subst (All P) same h
  recall_each-All query (t ∷ ts) events h e =
      let (more, recalled, rest) =
        >>=-eq-ok (recall_candidates_for_type s query t workspace_id state) _ e in
      recall_each-All query ts (events ++ more)
        (All-append P events more h (candidates-IsRecall query t recalled).sound) rest

  -- A recall returns at most 50 events with distinct identifiers, the latest first. What holds of every
  -- event that the store lists for the workspace holds of each of them.
  pub recall_by_type_lem :
      (query : String) (event_type : Option EventType) {events : List (Event V)}
      → recall_by_type s query event_type workspace_id state ≡ ok events
      → IsRecall P events
  unfolding recall_by_type
  recall_by_type_lem query (some t) h = candidates-IsRecall query t h
  recall_by_type_lem query none {events} h =
      let (found, recalled, h1) =
        >>=-eq-ok (recall_each s query workspace_id memory_event_types [] state) _ h in
      let same : take 50 (latest_first (dedup_events found)) ≡ events = cc h1 in
      subst (IsRecall P) same
        (finished found (recall_each-All query memory_event_types [] tt recalled))
