-- ===== src/Tests/AgentTests.antt =====
-- The theorems on src/memory.rs, src/message.rs and src/collab.rs at a store that lists a fixed log.
use mathlib.Core.List.{Permᴰ}
use shuttle_rs.Prelude.{
  ℕ, String, ◌≡◌, refl, subst, All, none, some, List, [], ◌∷◌, ◌++◌, map, retain, not, str_eq,
  is_empty, false, trim,
}
use shuttle_rs.Prelude.Sorting.{Sorted, sort_by}
use shuttle_rs.Prelude.Texts.{sort_dedup}
use shuttle_rs.Core.{Event, EventType, EventFilter, EventStore, Stamp, ok}
use shuttle_rs.Memory.Recall.{
  new_memory, new_typed_memory, dedup_events, dedup_from, latest_first, extend_each, token_filters,
  recall_candidates_for_type, recall_each, recall_by_type,
}
use shuttle_rs.Memory.Results.{IsRecall, recall_by_type_lem}
use shuttle_rs.Message.{new_message, by_reverse_created, sent_to, inbox, inbox_lem}
use shuttle_rs.Collab.Events.{normalize_from, normalized_agents, start_events}
use shuttle_rs.Collab.Agents.{
  IsListed, recipient, normalized_agents-IsListed, start_events-recipients,
}
use shuttle_rs.Tests.Sample.{Json, crates}

abbrev at : ℕ → Stamp
at n = record { new_id = n; now = n }

abbrev first_memory : Event Json
first_memory = new_memory crates (at 1) "ws" "claude" "s" "use spaces"

abbrev second_memory : Event Json
second_memory = new_memory crates (at 2) "ws" "claude" "s" "run the tests"

-- A store that lists its whole state for every filter.
abbrev log_store : EventStore (List (Event Json)) Json
log_store = record { append = λ e state. ok (e, state ++ e ∷ []); list = λ filter state. ok state }

abbrev log : List (Event Json)
log = first_memory ∷ second_memory ∷ first_memory ∷ []

abbrev ByClaude : Event Json → Type 0
ByClaude e = e.agent ≡ "claude"

log-ByClaude :
    (filter : EventFilter) (events : List (Event Json))
    → filter.workspace_id ≡ some "ws"
    → log_store.list filter log ≡ ok events
    → All ByClaude events
unfolding new_memory new_typed_memory
log-ByClaude filter events w h =
    let same : log ≡ events = cc h in subst (All ByClaude) same (refl, (refl, (refl, tt)))

recall_by_type_lem_example : IsRecall ByClaude (second_memory ∷ first_memory ∷ [])
unfolding recall_by_type recall_each recall_candidates_for_type extend_each token_filters
    dedup_events dedup_from latest_first sort_by sort_dedup new_memory new_typed_memory
recall_by_type_lem_example =
    recall_by_type_lem log_store log ByClaude (some "ws") log-ByClaude "run tests" none
      {events = second_memory ∷ first_memory ∷ []} refl

abbrev greeting : Event Json
greeting = new_message crates (at 3) "ws" "claude" "s" "codex" "hello"

inbox_lem_example :
    (messages : List (Event Json)) × (handoffs : List (Event Json)) × (log_store.list
        (sent_to log_store EventType.message "codex")
        (greeting ∷ [])
      ≡ ok messages)
    × (log_store.list (sent_to log_store EventType.handoff "codex") (greeting ∷ []) ≡ ok handoffs)
    × Permᴰ (messages ++ handoffs) (greeting ∷ greeting ∷ [])
    × Sorted by_reverse_created (greeting ∷ greeting ∷ [])
unfolding inbox sort_by new_message
inbox_lem_example =
    inbox_lem log_store "codex" (greeting ∷ []) {events = greeting ∷ greeting ∷ []} refl

abbrev names : List String
names = " claude " ∷ "" ∷ "codex" ∷ "claude" ∷ []

normalized : normalized_agents names ≡ "claude" ∷ "codex" ∷ []
unfolding normalized_agents normalize_from trim
normalized = refl

normalized_agents-IsListed_example :
    IsListed (normalized_agents names) × (is_empty (normalized_agents names) ≡ false)
normalized_agents-IsListed_example = normalized_agents-IsListed names

start_events-recipients_example :
    map (recipient crates) (start_events crates at "ws" "claude" "s" "triage" names).messages
    ≡ map some (retain (λ agent. not (str_eq agent "claude")) (normalized_agents names))
start_events-recipients_example = start_events-recipients crates at "ws" "claude" "s" "triage" names
