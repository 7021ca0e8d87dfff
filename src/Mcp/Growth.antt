-- ===== src/Mcp/Growth.antt =====
-- The server of src/mcp.rs over the tables of src/store.rs only ever adds events, under its own name.
use mathlib.Core.List.{append_assoc, append-nil}
use shuttle_rs.Prelude.{
  String, ◌≡◌, refl, sym, ap, ◌∙◌, Option, none, some, List, [], ◌∷◌, ◌++◌, All, All-append,
  contains, if_cases,
}
use shuttle_rs.Crates.{Crates}
use shuttle_rs.Core.{Event, Result, ok, err, ok_value}
use shuttle_rs.Context.{RepoStatus, with_repo_metadata}
use shuttle_rs.Store.Tables.{Sqlite, Tables, EventRow, event_to_row}
use shuttle_rs.Store.Events.{event_store, append}
use shuttle_rs.Store.Lookup.{append-eq-ok}
use shuttle_rs.Mcp.Commands.{McpRuntime}
use shuttle_rs.Mcp.Answers.{
  Answer, event_answer, Tool, Arm, answering, reading, checked, after_check, committed, committing,
  store_event, storing, store_each, dispatch,
}

module _ (c : Crates) (q : Sqlite c) (runtime : McpRuntime) where
  open c use {Value}

  -- A row that the server has stored, and an event that it stores.
  abbrev pub Attributed : EventRow Value → Type 0
  Attributed row =
      (row.workspace_id ≡ runtime.workspace_id)
      × (row.agent ≡ runtime.agent)
      × (row.session_id ≡ runtime.session_id)

  pub record Own (e : Event Value) : Type 0 where
    pub own : Attributed (event_to_row e)

  -- The rows are those of before, and attributed ones.
  abbrev pub Grown : Tables Value → Tables Value → Type 0
  Grown before after =
      (new : List (EventRow Value)) × (after.events ≡ before.events ++ new) × All Attributed new

  pub record Grows (tool : Tool c (event_store c q)) : Type 0 where
    pub grown : (tables : Tables Value) → Grown tables (tool tables).1

  pub Grown-refl : (tables : Tables Value) → Grown tables tables
  Grown-refl tables = ([], sym (append-nil tables.events), tt)

  pub Grown-trans : (a b d : Tables Value) → Grown a b → Grown b d → Grown a d
  Grown-trans a b d (xs, e, h) (ys, f, k) = (
    xs ++ ys,
    f ∙ ap (λ l. l ++ ys) e ∙ append_assoc a.events xs ys,
    All-append Attributed xs ys h k,
  )

  answering-Grown :
      (answer : Answer Value) (tables : Tables Value)
      → Grown tables (answering c (event_store c q) answer tables).1
  unfolding answering
  answering-Grown answer tables = Grown-refl tables

  pub answering-Grows : (answer : Answer Value) → Grows (answering c (event_store c q) answer)
  answering-Grows answer = record { grown = answering-Grown answer }

  reading-Grown :
      (read : Tables Value → Result (Answer Value)) (tables : Tables Value)
      → Grown tables (reading c (event_store c q) read tables).1
  unfolding reading
  reading-Grown read tables = Grown-refl tables

  pub reading-Grows :
      (read : Tables Value → Result (Answer Value)) → Grows (reading c (event_store c q) read)
  reading-Grows read = record { grown = reading-Grown read }

  checked-Grown :
      {A : Type 0} (rest : A → Tool c (event_store c q)) (found : Result A) (tables : Tables Value)
      → ((a : A) → Grows (rest a))
      → Grown tables (checked c (event_store c q) rest found tables).1
  checked-Grown rest (err failure) tables h = Grown-refl tables
  checked-Grown rest (ok a) tables h = (h a).grown tables

  after_check-Grown :
      {A : Type 0} (check : Tables Value → Result A) (rest : A → Tool c (event_store c q))
      → ((a : A) → Grows (rest a))
      → (tables : Tables Value) → Grown tables (after_check c (event_store c q) check rest tables).1
  unfolding after_check
  after_check-Grown check rest h tables = checked-Grown rest (check tables) tables h

  pub after_check-Grows :
      {A : Type 0} (check : Tables Value → Result A) {rest : A → Tool c (event_store c q)}
      → ((a : A) → Grows (rest a))
      → Grows (after_check c (event_store c q) check rest)
  after_check-Grows check {rest} h = record { grown = after_check-Grown check rest h }

  -- A write that grows the tables where it succeeds.
  pub record WriteGrows {A : Type 0} (write : Tables Value → Result (A × Tables Value))
      : Type 0 where
    pub write_grown :
        (tables : Tables Value) (written : A) (after : Tables Value)
        → write tables ≡ ok (written, after)
        → Grown tables after

  committed-Grown :
      {A : Type 0} (rest : A → Tool c (event_store c q)) (tables : Tables Value)
      (done : Result (A × Tables Value))
      → ((written : A) (after : Tables Value) → done ≡ ok (written, after) → Grown tables after)
      → ((a : A) → Grows (rest a))
      → Grown tables (committed c (event_store c q) rest done tables).1
  committed-Grown rest tables (err failure) h k = Grown-refl tables
  committed-Grown rest tables (ok (written, after)) h k =
      Grown-trans tables after (rest written after).1 (h written after refl)
        ((k written).grown after)

  pub committing-Grows :
      {A : Type 0} {write : Tables Value → Result (A × Tables Value)}
      {rest : A → Tool c (event_store c q)}
      → WriteGrows write
      → ((a : A) → Grows (rest a))
      → Grows (committing c (event_store c q) write rest)
  unfolding committing
  committing-Grows {write = write} {rest = rest} h k = record {
    grown = λ tables. committed-Grown rest tables (write tables) (h.write_grown tables) k;
  }

  with_repo_metadata-Own :
      (e : Event Value) (status : Option RepoStatus) → Own e → Own (with_repo_metadata c e status)
  unfolding with_repo_metadata event_to_row
  with_repo_metadata-Own e none h = h
  with_repo_metadata-Own e (some status) h = record { own = h.own }

  append-WriteGrows : (e : Event Value) → Own e → WriteGrows (append c q e)
  append-WriteGrows e h = record {
    write_grown = λ tables written after k.
        let (fresh, same, rows) = append-eq-ok c q e tables k in
        (event_to_row e ∷ [], rows, (h.own, tt));
  }

  pub store_event-WriteGrows :
      {e : Event Value} → Own e → WriteGrows (store_event c (event_store c q) runtime e)
  unfolding store_event
  store_event-WriteGrows {e} own = record {
    write_grown =
        (append-WriteGrows (with_repo_metadata c e (ok_value runtime.status))
          (with_repo_metadata-Own e (ok_value runtime.status) own)).write_grown;
  }

  pub storing-Grows : {e : Event Value} → Own e → Grows (storing c (event_store c q) runtime e)
  unfolding storing
  storing-Grows {e} own = record {
    grown =
        (committing-Grows (store_event-WriteGrows own)
          (λ stored. answering-Grows (event_answer stored))).grown;
  }

  pub store_each-Grows :
      (es : List (Event Value)) {rest : List (Event Value) → Tool c (event_store c q)}
      → All Own es
      → ((stored : List (Event Value)) → Grows (rest stored))
      → Grows (store_each c (event_store c q) runtime es rest)
  unfolding store_each
  store_each-Grows [] own h = h []
  store_each-Grows (e ∷ es) own h =
      committing-Grows (store_event-WriteGrows own.0)
        (λ stored. store_each-Grows es own.1 (λ others. h (stored ∷ others)))

  pub dispatch-Grows :
      (name : String) (arms : List (Arm c (event_store c q)))
      → All (λ arm. Grows arm.1) arms
      → (tables : Tables Value) → Grown tables (dispatch c (event_store c q) name arms tables).1
  unfolding dispatch
  dispatch-Grows name [] h tables = Grown-refl tables
  dispatch-Grows name ((names, tool) ∷ arms) h tables =
      if_cases (λ r. Grown tables r.1) (contains names name) (tool tables)
        (dispatch c (event_store c q) name arms tables) (λ e. h.0.grown tables)
        (λ e. dispatch-Grows name arms h.1 tables)
