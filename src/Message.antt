-- ===== src/Message.antt =====
-- src/message.rs: messages between agents, and an agent's inbox, from any store.
use mathlib.Core.List.{Permᴰ}
use shuttle_rs.Prelude.{subst, String, ◌≡◌, none, some, List, [], ◌∷◌, ◌++◌, Bool, leb, arith}
use shuttle_rs.Prelude.Sorting.{sort_by, Sorted, IsOrder, sort_by-Sorted, Permᴰ-sort_by}
use shuttle_rs.Crates.{Crates}
use shuttle_rs.Core.{
  Event, EventType, EventFilter, EventStore, Stamp, Result, ok, ◌>>=◌, >>=-eq-ok, new_event,
  default_filter,
}

unfoldable pub new_message :
    (c : Crates) → Stamp → String → String → String → String → String → Event c.Value
unfolding new_event
new_message c stamp workspace_id from_agent session_id to_agent content = new_event stamp (record {
  event_type = EventType.message;
  workspace_id = workspace_id;
  repo_id = none;
  repo_path = none;
  git_remote = none;
  bit_repo_id = none;
  branch = none;
  commit = none;
  repo_dirty = none;
  agent = from_agent;
  session_id = session_id;
  title = none;
  content = content;
  tags = [];
  metadata_json = c.object (("to", c.text to_agent) ∷ []);
})

-- `Reverse(event.created_at)`, as "not greater"
abbrev pub by_reverse_created : {V : Type 0} → Event V → Event V → Bool
by_reverse_created x y = leb y.created_at x.created_at

module _ {S V : Type 0} (s : EventStore S V) where
  abbrev pub sent_to : EventType → String → EventFilter
  sent_to event_type agent = record default_filter {
    event_type = some event_type;
    recipient = some agent;
  }

  unfoldable pub inbox : String → S → Result (List (Event V))
  inbox agent state = do
    messages ← s.list (sent_to EventType.message agent) state
    handoffs ← s.list (sent_to EventType.handoff agent) state
    ok (sort_by by_reverse_created (messages ++ handoffs))

  unfoldable pub history : S → Result (List (Event V))
  history state = s.list (record default_filter { event_type = some EventType.message }) state

  -- The inbox has the messages and the handoffs that the store lists for the agent, all of them and
  -- nothing else, the latest first.
  pub inbox_lem :
      (agent : String) (state : S) {events : List (Event V)}
      → inbox agent state ≡ ok events
      → (messages : List (Event V)) × (handoffs : List (Event V)) × (s.list
            (sent_to EventType.message agent)
            state
          ≡ ok messages)
        × (s.list (sent_to EventType.handoff agent) state ≡ ok handoffs)
        × Permᴰ (messages ++ handoffs) events
        × Sorted by_reverse_created events
  unfolding inbox
  inbox_lem agent state {events} h =
      let (messages, m, h1) = >>=-eq-ok (s.list (sent_to EventType.message agent) state) _ h in
      let (handoffs, k, h2) = >>=-eq-ok (s.list (sent_to EventType.handoff agent) state) _ h1 in
      let same : sort_by by_reverse_created (messages ++ handoffs) ≡ events = cc h2 in
      let order : IsOrder (by_reverse_created {V = V}) = record {
        total = λ x y e. ground arith;
        trans = λ x y z e f. ground arith;
      } in
      (
        messages,
        handoffs,
        m,
        k,
        subst (Permᴰ (messages ++ handoffs)) same
            (Permᴰ-sort_by by_reverse_created (messages ++ handoffs)),
        subst (Sorted by_reverse_created) same
            (sort_by-Sorted by_reverse_created order (messages ++ handoffs)),
      )
