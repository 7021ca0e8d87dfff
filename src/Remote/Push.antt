-- ===== src/Remote/Push.antt =====
-- src/remote.rs: pushing the events of a store, from a checkpoint if there is one.
use shuttle_rs.Prelude.{
  ℕ, String, Option, none, some, List, [], ◌∷◌, ◌+◌, Bool, true, false, retain, text_lt,
}
use shuttle_rs.Prelude.Sorting.{sort_by, by_ascending}
use shuttle_rs.Crates.{Crates}
use shuttle_rs.Core.{Event, Result, ok, err, ◌>>=◌}
use shuttle_rs.Store.Tables.{Sqlite, Tables}
use shuttle_rs.Mesh.Import.{all_events}
use shuttle_rs.Remote.Mapping.{
  RemoteCrates, SyncCheckpoint, CheckpointFile, load_checkpoint, save_checkpoint, event_cursor,
  event_to_push_body,
}

pub record PushReport : Type 0 where
  pub pushed : ℕ
  pub deduplicated : ℕ

pub record AppendOutcome : Type 0 where
  pub deduplicated : Bool

pub record EventsPage (V : Type 0) : Type 0 where
  pub events : List V
  pub has_more : Bool
  pub next_before : Option String
  pub next_after : Option String

-- The trait: what the loops need of the gateway, whose state is of type `R`.
pub record RemoteApi (R V : Type 0) : Type 0 where
  pub append_event : V → R → Result AppendOutcome × R
  pub list_events : ℕ → Option String → R → Result (EventsPage V) × R
  pub list_events_after : ℕ → String → R → Result (EventsPage V) × R

abbrev pub count_outcome : Bool → PushReport → PushReport
count_outcome true report = record report { deduplicated = report.deduplicated + 1 }
count_outcome false report = record report { pushed = report.pushed + 1 }

abbrev pub no_push : PushReport
no_push = record { pushed = 0; deduplicated = 0 }

module _ (c : Crates) (r : RemoteCrates c) where
  open c use {Value}

  -- `events.retain(..)`, where the checkpoint has a cursor
  abbrev pub after_cursor : Option String → List (Event Value) → List (Event Value)
  after_cursor none events = events
  after_cursor (some after) events = retain (λ event. text_lt after (event_cursor c r event)) events

  abbrev pub oldest_first : List (Event Value) → List (Event Value)
  oldest_first = sort_by (by_ascending (λ e. e.created_at) (λ e. e.id))

  -- The checkpoint after an event, in memory and in its file; without one, nothing is saved.
  abbrev pub moved : Event Value → Option SyncCheckpoint → Option SyncCheckpoint
  moved event none = none
  moved event (some state) = some (record state { push_after = some (event_cursor c r event) })

  abbrev pub saved : ℕ → Option SyncCheckpoint → CheckpointFile → CheckpointFile
  saved now none file = file
  saved now (some state) file = save_checkpoint now state

  -- The readings of the clock are numbered; the first is for a checkpoint that is new.
  abbrev pub loaded : (ℕ → ℕ) → Option String → CheckpointFile → Result (Option SyncCheckpoint)
  loaded clock none file = ok none
  loaded clock (some project) file =
      load_checkpoint (clock 0) file project >>= λ state. ok (some state)

  abbrev pub cursor_of : Option SyncCheckpoint → Option String
  cursor_of none = none
  cursor_of (some state) = state.push_after

  -- What the loop is given: the events, and the checkpoint.
  unfoldable pub to_push :
      Sqlite c
      → (ℕ → ℕ)
      → Option String
      → CheckpointFile
      → Tables Value
      → Result (List (Event Value) × Option SyncCheckpoint)
  unfolding all_events sort_by load_checkpoint event_cursor
  to_push q clock checkpoint file tables = do
    found ← all_events c q tables
    state ← loaded clock checkpoint file
    ok (after_cursor (cursor_of state) (oldest_first found), state)

  module _ {R : Type 0} (api : RemoteApi R Value) (clock : ℕ → ℕ) where
    -- `?` on the answer of the gateway
    abbrev pub answered :
        (AppendOutcome → R → Result PushReport × CheckpointFile × R)
        → CheckpointFile
        → Result AppendOutcome × R
        → Result PushReport × CheckpointFile × R
    answered rest file (err failure, remote) = (err failure, file, remote)
    answered rest file (ok outcome, remote) = rest outcome remote

    -- The loop, with the number of the round, the report and the checkpoint so far. What comes of it,
    -- the file and the gateway.
    unfoldable pub push_each :
        List (Event Value)
        → ℕ
        → PushReport
        → Option SyncCheckpoint
        → CheckpointFile
        → R
        → Result PushReport × CheckpointFile × R
    unfolding event_to_push_body save_checkpoint event_cursor
    push_each [] k report state file remote = (ok report, file, remote)
    push_each (event ∷ events) k report state file remote =
        let next = moved event state in
        answered
          (λ outcome.
            push_each events (k + 1) (count_outcome outcome.deduplicated report) next
              (saved (clock k) next file))
          file (api.append_event (event_to_push_body c r event) remote)

    abbrev pub pushed_all :
        Result (List (Event Value) × Option SyncCheckpoint)
        → CheckpointFile
        → R
        → Result PushReport × CheckpointFile × R
    pushed_all (err failure) file remote = (err failure, file, remote)
    pushed_all (ok (events, state)) file remote = push_each events 1 no_push state file remote

    -- The project is given with the checkpoint.
    unfoldable pub push_impl :
        Sqlite c
        → Option String
        → Tables Value
        → CheckpointFile
        → R
        → Result PushReport × CheckpointFile × R
    unfolding to_push push_each
    push_impl q checkpoint tables file remote =
        pushed_all (to_push q clock checkpoint file tables) file remote

    unfoldable pub push :
        Sqlite c → Tables Value → CheckpointFile → R → Result PushReport × CheckpointFile × R
    unfolding push_impl
    push q tables file remote = push_impl q none tables file remote

    unfoldable pub push_with_checkpoint :
        Sqlite c
        → String
        → Tables Value
        → CheckpointFile
        → R
        → Result PushReport × CheckpointFile × R
    unfolding push_impl
    push_with_checkpoint q project tables file remote =
        push_impl q (some project) tables file remote
