-- ===== src/Remote/Resume.antt =====
-- A push of src/remote.rs that stops can be taken up again where it stopped.
use shuttle_rs.Prelude.{
  ℕ, String, ◌≡◌, refl, sym, subst, ap, ◌∙◌, ◌⊎◌, inl, inr, some, List, [], ◌∷◌, ◌++◌, ◌+◌, Bool,
  true, false, ◌==◌, str_eq, str_eq_iff, length, arith,
}
use shuttle_rs.Crates.{Crates}
use shuttle_rs.Core.{Event, ShuttleError, Result, ok, err}
use shuttle_rs.Remote.Mapping.{
  RemoteCrates, SyncCheckpoint, CheckpointFile, missing, unreadable, unparsable, present,
  new_checkpoint, checkpoint_version, load_checkpoint, save_checkpoint, event_cursor,
  event_to_push_body,
}
use shuttle_rs.Remote.Push.{
  PushReport, AppendOutcome, RemoteApi, count_outcome, saved, answered, push_each,
}
use shuttle_rs.Remote.Cursors.{after}

module _ (c : Crates) (r : RemoteCrates c) where
  open c use {Value}

  -- The file has the cursor of an event, for the project.
  abbrev pub Points : (ℕ → ℕ) → String → CheckpointFile → Event Value → Type 0
  Points clock project file x =
      (state : SyncCheckpoint) × (load_checkpoint (clock 0) file project ≡ ok state)
      × (state.push_after ≡ some (event_cursor c r x))

  -- A checkpoint that was read for the project.
  abbrev pub IsFor : String → SyncCheckpoint → Type 0
  IsFor project state =
      ((state.version == checkpoint_version) ≡ true) × (str_eq state.project project ≡ true)

  pub loaded-IsFor :
      (now : ℕ) (file : CheckpointFile) (project : String) {state : SyncCheckpoint}
      → load_checkpoint now file project ≡ ok state
      → IsFor project state
  unfolding load_checkpoint new_checkpoint
  loaded-IsFor now missing project {state} h =
      let fresh : new_checkpoint now project ≡ state = cc h in
      subst (IsFor project) fresh (refl, (str_eq_iff project project).1 refl)
  loaded-IsFor now (unreadable e) project h = cc
  loaded-IsFor now (unparsable e) project h = cc
  loaded-IsFor now (present given) project {state} h = grind arith

  saved-Points :
      (clock : ℕ → ℕ) (project : String) (now : ℕ) (x : Event Value) (state : SyncCheckpoint)
      → IsFor project state
      → Points clock project
          (save_checkpoint now (record state { push_after = some (event_cursor c r x) }))
          x
  unfolding load_checkpoint save_checkpoint
  saved-Points clock project now x state h = (
    record state { push_after = some (event_cursor c r x); updated_at = now },
    rw (h.0, h.1) refl,
    refl,
  )

  abbrev pub total : PushReport → ℕ
  total report = report.pushed + report.deduplicated

  count_outcome-total :
      (deduplicated : Bool) (report : PushReport)
      → total (count_outcome deduplicated report) ≡ total report + 1
  count_outcome-total true report = omega arith
  count_outcome-total false report = omega arith

  module _ {R : Type 0} (api : RemoteApi R Value) (clock : ℕ → ℕ) (project : String) where
    abbrev pub body : Event Value → Value
    body = event_to_push_body c r

    -- The gateway after some events.
    abbrev pub gateway_after : List (Event Value) → R → R
    gateway_after [] remote = remote
    gateway_after (event ∷ events) remote =
        gateway_after events (api.append_event (body event) remote).1

    -- Where a push ended: it sent everything, or stopped at the first event that the gateway refused.
    abbrev pub Ended :
        List (Event Value)
        → List (Event Value)
        → ℕ
        → R
        → Result PushReport × CheckpointFile × R
        → Type 0
    Ended done rest sum remote out =
        ((end : PushReport) × (out.0 ≡ ok end)
          × (rest ≡ [])
          × (total end ≡ sum)
          × (out.2 ≡ gateway_after done remote))
        ⊎ ((failure : ShuttleError) × (x : Event Value) × (later : List (Event Value)) × (out.0
              ≡ err failure)
            × (rest ≡ x ∷ later)
            × (api.append_event (body x) (gateway_after done remote) ≡ (err failure, out.2)))

    -- The file points at the last of the events that were sent, or is as it was.
    abbrev pub Placed : List (Event Value) → CheckpointFile → CheckpointFile → Type 0
    Placed done file file' =
        ((done ≡ []) × (file' ≡ file))
        ⊎ ((before : List (Event Value)) × (x : Event Value) × (done ≡ before ++ x ∷ [])
            × Points clock project file' x)

    abbrev pub CameTo :
        List (Event Value)
        → PushReport
        → CheckpointFile
        → R
        → Result PushReport × CheckpointFile × R
        → Type 0
    CameTo events report file remote out =
        (done : List (Event Value)) × (rest : List (Event Value)) × (events ≡ done ++ rest)
        × Placed done file out.1
        × Ended done rest (total report + length events) remote out

    CameTo-answered :
        (event : Event Value) (events : List (Event Value)) (report : PushReport)
        (file : CheckpointFile) (remote : R)
        (rest : AppendOutcome → R → Result PushReport × CheckpointFile × R)
        (sent : Result AppendOutcome × R)
        → api.append_event (body event) remote ≡ sent
        → ((outcome : AppendOutcome) (after : R)
            → api.append_event (body event) remote ≡ (ok outcome, after)
            → CameTo (event ∷ events) report file remote (rest outcome after))
        → CameTo (event ∷ events) report file remote (answered c r api clock rest file sent)
    CameTo-answered event events report file remote rest (err failure, after) e h =
        ([], event ∷ events, refl, inl (refl, refl), inr (failure, event, events, refl, refl, e))
    CameTo-answered event events report file remote rest (ok outcome, after) e h = h outcome after e

    Placed-next :
        (event : Event Value) (done : List (Event Value)) (file saved file' : CheckpointFile)
        → Points clock project saved event
        → Placed done saved file'
        → Placed (event ∷ done) file file'
    Placed-next event done file saved file' points (inl (nothing, same)) = inr (
      [],
      event,
      ap (λ l. event ∷ l) nothing,
      subst (λ f. Points clock project f event) (sym same) points,
    )
    Placed-next event done file saved file' points (inr (before, x, all, at)) =
        inr (event ∷ before, x, ap (λ l. event ∷ l) all, at)

    Ended-next :
        (event : Event Value) (done rest : List (Event Value)) (sum sum' : ℕ) (remote after : R)
        (outcome : AppendOutcome) (out : Result PushReport × CheckpointFile × R)
        → sum ≡ sum'
        → api.append_event (body event) remote ≡ (ok outcome, after)
        → Ended done rest sum after out
        → Ended (event ∷ done) rest sum' remote out
    Ended-next event done rest sum sum' remote after outcome out same e
          (inl (end, finished, none_left, counted, gate)) =
        inl (
          end,
          finished,
          none_left,
          counted ∙ same,
          gate ∙ ap (λ p. gateway_after done p.1) (sym e),
        )
    Ended-next event done rest sum sum' remote after outcome out same e
          (inr (failure, x, later, failed, left, refused)) =
        inr (
          failure,
          x,
          later,
          failed,
          left,
          ap (λ p. api.append_event (body x) (gateway_after done p.1)) e ∙ refused,
        )

    pub push_each-CameTo :
        (events : List (Event Value)) (k : ℕ) (report : PushReport) (state : SyncCheckpoint)
        (file : CheckpointFile) (remote : R)
        → IsFor project state
        → CameTo events report file remote
            (push_each c r api clock events k report (some state) file remote)
    unfolding push_each
    push_each-CameTo [] k report state file remote h =
        ([], [], refl, inl (refl, refl), inl (report, refl, refl, omega arith, refl))
    push_each-CameTo (event ∷ events) k report state file remote h =
        let next = record state { push_after = some (event_cursor c r event) } in
        let file' = save_checkpoint (clock k) next in
        CameTo-answered event events report file remote _ (api.append_event (body event) remote)
          refl
          (λ outcome after e.
            let report' = count_outcome outcome.deduplicated report in
            let (done, rest, all, placed, ended) =
              push_each-CameTo events (k + 1) report' next file' after h in
            let out = push_each c r api clock events (k + 1) report' (some next) file' after in
            let sum : total report' + length events ≡ total report + length (event ∷ events) =
              omega (arith, count_outcome-total outcome.deduplicated report) in
            (
              event ∷ done,
              rest,
              ap (λ l. event ∷ l) all,
              Placed-next event done file file' out.1
                  (saved-Points clock project (clock k) event state h) placed,
              Ended-next event done rest _ _ remote after outcome out sum e ended,
            ))
