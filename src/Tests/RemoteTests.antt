-- ===== src/Tests/RemoteTests.antt =====
-- The theorem on src/remote.rs at a store with two events and a gateway that refuses the second.
use package.text.Mathlib.TextLemmas.{nil-append, cons-append}
use shuttle_rs.Prelude.{
  ℕ, zero, suc, String, ◌≡◌, refl, ap, ◌∙◌, none, some, List, [], ◌∷◌, ◌++◌, false, not, ◌&◌, arith,
  text_lt, ltb, length,
}
use shuttle_rs.Prelude.Sorting.{ascending, sort_by}
use shuttle_rs.Core.{try_from, as_str, Event, Result, ok, err, store}
use shuttle_rs.Task.Events.{new_task, new_claim}
use shuttle_rs.Store.Events.{
  list_events, newest_first, read_rows, selects, selects_columns, filter_tags,
}
use shuttle_rs.Store.Tables.{row_to_event, event_to_row}
use shuttle_rs.Mesh.Import.{all_events}
use shuttle_rs.Remote.Mapping.{
  RemoteCrates, CheckpointFile, missing, SyncCheckpoint, load_checkpoint, new_checkpoint,
  event_cursor, event_to_push_body,
}
use shuttle_rs.Remote.Push.{
  PushReport, AppendOutcome, EventsPage, RemoteApi, to_push, push_each, push_impl,
  push_with_checkpoint,
}
use shuttle_rs.Remote.Resume.{Ended}
use shuttle_rs.Remote.Pushes.{push_with_checkpoint_lem}
use shuttle_rs.Tests.StoreTests.{sqlite, local, created, claimed}
use shuttle_rs.Tests.Sample.{Json, crates, ticks}

abbrev instants : ℕ → String
instants zero = ""
instants (suc n) = String.◌∷◌ "~" (instants n)

-- An instant and what follows it.
abbrev written : ℕ → String → String
written zero rest = String.◌∷◌ "|" rest
written (suc n) rest = String.◌∷◌ "~" (written n rest)

instants-written : (n : ℕ) (rest : String) → instants n & "|" & rest ≡ written n rest
instants-written zero rest =
    nil-append ("|" & rest) ∙ cons-append "|" "" rest ∙ ap (λ s. String.◌∷◌ "|" s) (nil-append rest)
instants-written (suc n) rest =
    cons-append "~" (instants n) ("|" & rest) ∙ ap (λ s. String.◌∷◌ "~" s) (instants-written n rest)

text_lt-ticks : (i j : ℕ) → text_lt (ticks i) (ticks j) ≡ ltb i j
text_lt-ticks zero zero = refl
text_lt-ticks zero (suc j) = ground arith
text_lt-ticks (suc i) zero = ground arith
text_lt-ticks (suc i) (suc j) = ground (arith, text_lt-ticks i j)

text_lt-written :
    (s t i j : ℕ) → text_lt (written s (ticks i)) (written t (ticks j)) ≡ not (ascending t j s i)
text_lt-written zero zero i j = ground (arith, text_lt-ticks i j)
text_lt-written zero (suc t) i j = ground arith
text_lt-written (suc s) zero i j = ground arith
text_lt-written (suc s) (suc t) i j = ground (arith, text_lt-written s t i j)

text_lt-instants :
    (s t i j : ℕ)
    → text_lt (instants s & "|" & ticks i) (instants t & "|" & ticks j) ≡ not (ascending t j s i)
text_lt-instants s t i j =
    rw (instants-written s (ticks i)) (rw (instants-written t (ticks j)) (text_lt-written s t i j))

abbrev remote_crates : RemoteCrates crates
remote_crates = record {
  to_rfc3339 = instants;
  parse_from_rfc3339 = λ s. none;
  new_v5 = λ s. 0;
  remove_field = λ v k. v;
  text_lt-cursor = text_lt-instants;
}

-- A gateway that takes so many events and refuses the next.
abbrev take_one : Json → ℕ → Result AppendOutcome × ℕ
take_one body zero = (err (store "gateway returned 503"), 0)
take_one body (suc n) = (ok (record { deduplicated = false }), n)

abbrev page : EventsPage Json
page = record { events = []; has_more = false; next_before = none; next_after = none }

abbrev gateway : RemoteApi ℕ Json
gateway = record {
  append_event = take_one;
  list_events = λ limit before n. (ok page, n);
  list_events_after = λ limit after n. (ok page, n);
}

abbrev out : Result PushReport × CheckpointFile × ℕ
out = push_with_checkpoint crates remote_crates gateway (λ k. k) sqlite "docs" local missing 1

-- The second event is refused, and the gateway takes no more.
refused_second : out.0 ≡ err (store "gateway returned 503")
unfolding push_with_checkpoint push_impl to_push push_each all_events list_events newest_first
    read_rows row_to_event sort_by load_checkpoint new_checkpoint event_cursor event_to_push_body
    selects selects_columns filter_tags try_from as_str event_to_row new_task new_claim
refused_second = refl

listed : all_events crates sqlite local ≡ ok (claimed ∷ created ∷ [])
unfolding all_events list_events newest_first read_rows row_to_event sort_by selects selects_columns
    filter_tags try_from as_str event_to_row new_task new_claim
listed = refl

push_with_checkpoint_lem_example :
    (sent : List (Event Json)) × (rest : List (Event Json)) × (state : SyncCheckpoint) × (to_push
        crates remote_crates sqlite
        (λ k. k)
        (some "docs")
        missing
        local
      ≡ ok (sent ++ rest, some (new_checkpoint 0 "docs")))
    × (to_push crates remote_crates sqlite (λ k. k) (some "docs") out.1 local
        ≡ ok (rest, some state))
    × Ended crates remote_crates gateway (λ k. k) "docs" sent rest (length (sent ++ rest)) 1 out
unfolding load_checkpoint new_task new_claim
push_with_checkpoint_lem_example =
    push_with_checkpoint_lem crates remote_crates gateway (λ k. k) "docs" sqlite local
      {found = claimed ∷ created ∷ []} missing 1 {state = new_checkpoint 0 "docs"} listed
      ((refl, tt), (tt, tt)) refl
