-- ===== src/Workflow/Latest.antt =====
-- What the projection of src/workflow.rs makes of one more event, later than all others.
use shuttle_rs.Prelude.{
  ℕ, ◌<◌, String, ◌≡◌, refl, sym, ap, ◌∙◌, subst, none, some, List, [], ◌∷◌, ◌++◌, Bool, true,
  false, ◌==◌, ==_refl, str_eq, All, All-map, arith, find, if◌then◌else◌, if_cases, ◌&◌, Bool-cases,
  inl, inr,
}
use shuttle_rs.Prelude.Sorting.{
  sort_by, insert_sorted, by_ascending, by_descending, All-sort_by, AllDistinct,
}
use shuttle_rs.Prelude.Maps
use shuttle_rs.Prelude.Maps.{Map, KeysDistinct, insert-KeysDistinct, All-insert, values-AllDistinct}
use shuttle_rs.Crates.{Crates}
use shuttle_rs.Core.{Event, ok, store, ok_or, >>=-eq-ok, ok_or-eq-ok}
use shuttle_rs.Workflow.Run
use shuttle_rs.Workflow.Run.{WorkflowRun, StepSummary}
use shuttle_rs.Workflow.Project.{
  StepsCodec, metadata_string, metadata_uuid, apply_action, apply_step_action, started_run,
  is_step_action, project_event, project_events, project_runs,
}

-- What is found by its identifier does not depend on the order, where identifiers are distinct.
module _ {A : Type 0} (id : A → ℕ) (le : A → A → Bool) (k : ℕ) where
  abbrev has : A → Bool
  has a = id a == k

  find-none : (xs : List A) → All (λ y. has y ≡ false) xs → find has xs ≡ none
  find-none [] h = refl
  find-none (x ∷ xs) h = rw h.0 (find-none xs h.1)

  find-insert_sorted :
      (x : A) (ys : List A)
      → (has x ≡ true → All (λ y. has y ≡ false) ys)
      → find has (insert_sorted le x ys) ≡ (if has x then some x else find has ys)
  unfolding insert_sorted
  find-insert_sorted x [] h = refl
  find-insert_sorted x (y ∷ ys) h =
      if_cases (λ l. find has l ≡ (if has x then some x else find has (y ∷ ys))) (le x y) _ _
        (λ _. refl)
        (λ _. elim (Bool-cases (has x)) [
          | inl is ↦
              let (other, others) = h is in
              rw (find-insert_sorted x ys (λ _. others)) (rw (other, is) refl)
          | inr not_it ↦ rw (find-insert_sorted x ys (λ is. cc (is, not_it))) (rw not_it refl)
        ])

  apart-has : (x y : A) → (id x == id y) ≡ false → has x ≡ true → has y ≡ false
  apart-has x y h k = ground (arith, h, k)

  find-sort_by : (xs : List A) → AllDistinct id id xs → find has (sort_by le xs) ≡ find has xs
  unfolding sort_by
  find-sort_by [] h = refl
  find-sort_by (x ∷ xs) h =
      find-insert_sorted x (sort_by le xs) (λ is.
        All-sort_by le (λ y. has y ≡ false) xs
          (All-map _ _ (λ y apart. apart-has x y apart is) xs h.0))
      ∙ ap (λ o. if has x then some x else o) (find-sort_by xs h.1)

  insert_last :
      (new : A) (ys : List A)
      → All (λ y. le new y ≡ false) ys
      → insert_sorted le new ys ≡ ys ++ new ∷ []
  unfolding insert_sorted
  insert_last new [] h = refl
  insert_last new (y ∷ ys) h = rw h.0 (ap (λ l. y ∷ l) (insert_last new ys h.1))

  -- An item that is later than the others comes last.
  sort_by-last :
      (new : A) (xs : List A)
      → All (λ y. le new y ≡ false) xs
      → sort_by le (new ∷ xs) ≡ sort_by le xs ++ new ∷ []
  unfolding sort_by
  sort_by-last new xs h =
      insert_last new (sort_by le xs) (All-sort_by le (λ y. le new y ≡ false) xs h)

module _ {V : Type 0} (id : V → ℕ) where
  find-values :
      (k : ℕ) (m : Map V)
      → All (λ e. e.0 ≡ id e.1) m
      → find (λ v. id v == k) (Maps.values m) ≡ Maps.get k m
  unfolding Maps.values Maps.get
  find-values k [] h = refl
  find-values k ((j, v) ∷ m) h = ground (arith, h.0, find-values k m h.1)

module _ (c : Crates) (codec : StepsCodec c) where
  open c use {Value}

  -- Each run is kept under its own identifier.
  abbrev pub IsKept : ℕ × WorkflowRun Value → Type 0
  IsKept entry = entry.0 ≡ entry.1.id

  abbrev pub AllKept : Map (WorkflowRun Value) → Type 0
  AllKept runs = All IsKept runs × KeysDistinct runs

  apply_step_action-id :
      (r : WorkflowRun Value) (e : Event Value) (action id : String) (s : StepSummary Value)
      → (apply_step_action c r e action id s).id ≡ r.id
  unfolding apply_step_action
  apply_step_action-id r e action id s = ground arith

  apply_action-id :
      (r : WorkflowRun Value) (e : Event Value) (action : String) {r' : WorkflowRun Value}
      → apply_action c r e action ≡ ok r'
      → r'.id ≡ r.id
  unfolding apply_action
  apply_action-id r e action {r'} h = elim (Bool-cases (is_step_action c action)) [
    | inl y ↦
        let (step_id, named, h1) = >>=-eq-ok (metadata_string c e "step_id") _ (rw y at h) in
        let (step, found, h2) =
          >>=-eq-ok
            (ok_or (find (Run.named step_id) r.steps) (store ("unknown workflow step: " & step_id)))
            _ h1 in
        let touched = record r {
          updated_at = e.created_at;
          source_event_ids = r.source_event_ids ++ e.id ∷ [];
        } in
        let same : apply_step_action c touched e action step_id step ≡ r' = cc h2 in
        sym (ap (λ t. t.id) same) ∙ apply_step_action-id touched e action step_id step
    | inr n ↦ let k = (rw n at h) in ground (arith, k)
  ]

  get-IsKept :
      (k : ℕ) (runs : Map (WorkflowRun Value)) {r : WorkflowRun Value}
      → All IsKept runs
      → Maps.get k runs ≡ some r
      → k ≡ r.id
  unfolding Maps.get
  get-IsKept k [] h e = cc e
  get-IsKept k ((j, r) ∷ runs) {r = found} h e =
      ground (arith, h.0, e, get-IsKept k runs {r = found} h.1)

  started_run-id :
      (e : Event Value) (run_id : ℕ) {r : WorkflowRun Value}
      → started_run c codec e run_id ≡ ok r
      → r.id ≡ run_id
  unfolding started_run
  started_run-id e run_id h = grind arith

  project_event-AllKept :
      (runs : Map (WorkflowRun Value)) (e : Event Value) {after : Map (WorkflowRun Value)}
      → AllKept runs
      → project_event c codec runs e ≡ ok after
      → AllKept after
  unfolding project_event
  project_event-AllKept runs e {after} h p =
      let (run_id, named, p1) = >>=-eq-ok (metadata_uuid c e "run_id") _ p in
      let (action, acted, p2) = >>=-eq-ok (metadata_string c e "action") _ p1 in
      elim (Bool-cases (str_eq action "started")) [
        | inl y ↦
            let (run, started, p3) = >>=-eq-ok (started_run c codec e run_id) _ (rw y at p2) in
            let same : Maps.insert run_id run runs ≡ after = cc p3 in
            subst AllKept same (
              All-insert IsKept run_id run runs (sym (started_run-id e run_id started)) h.0,
              insert-KeysDistinct run_id run runs h.1,
            )
        | inr n ↦
            let missing = store ("workflow action before start: " & c.uuid_text run_id) in
            let (run, there, p3) =
              >>=-eq-ok (ok_or (Maps.get run_id runs) missing) _ (rw n at p2) in
            let (changed, applied, p4) = >>=-eq-ok (apply_action c run e action) _ p3 in
            let same : Maps.insert run_id changed runs ≡ after = cc p4 in
            let kept = get-IsKept run_id runs h.0 (ok_or-eq-ok _ _ there) in
            subst AllKept same (
              All-insert IsKept run_id changed runs
                  (kept ∙ sym (apply_action-id run e action applied)) h.0,
              insert-KeysDistinct run_id changed runs h.1,
            )
      ]

  project_events-AllKept :
      (runs : Map (WorkflowRun Value)) (events : List (Event Value))
      {after : Map (WorkflowRun Value)}
      → AllKept runs
      → project_events c codec runs events ≡ ok after
      → AllKept after
  unfolding project_events
  project_events-AllKept runs [] {after} h p =
      let same : runs ≡ after = cc p in subst AllKept same h
  project_events-AllKept runs (e ∷ events) h p =
      let (next, first, rest) = >>=-eq-ok (project_event c codec runs e) _ p in
      project_events-AllKept next events (project_event-AllKept runs e h first) rest

  project_events-append :
      (runs : Map (WorkflowRun Value)) (events : List (Event Value)) (e : Event Value)
      {between after : Map (WorkflowRun Value)}
      → project_events c codec runs events ≡ ok between
      → project_event c codec between e ≡ ok after
      → project_events c codec runs (events ++ e ∷ []) ≡ ok after
  unfolding project_events
  project_events-append runs [] e {between} {after} h k =
      let same : runs ≡ between = cc h in
      let first : project_event c codec runs e ≡ ok after =
        subst (λ m. project_event c codec m e ≡ ok after) (sym same) k in
      rw first refl
  project_events-append runs (f ∷ events) e h k =
      let (next, first, rest) = >>=-eq-ok (project_event c codec runs f) _ h in
      rw first (project_events-append next events e rest k)

  abbrev oldest : Event Value → Event Value → Bool
  oldest = by_ascending (λ e. e.created_at) (λ e. e.id)

  abbrev recent : WorkflowRun Value → WorkflowRun Value → Bool
  recent = by_descending (λ r. r.updated_at) (λ r. r.id)

  is_latest : (old new : Event Value) → old.created_at < new.created_at → oldest new old ≡ false
  is_latest old new h = ground (arith, h)

  find-kept :
      (run_id : ℕ) (runs : Map (WorkflowRun Value))
      → AllKept runs
      → find (λ t. t.id == run_id) (sort_by recent (Maps.values runs)) ≡ Maps.get run_id runs
  find-kept run_id runs kept =
      find-sort_by (λ t. t.id) recent run_id (Maps.values runs)
        (values-AllDistinct (λ t. t.id) (λ t. t.id) runs kept.1 kept.0)
      ∙ find-values (λ t. t.id) run_id runs kept.0

  project_event-applied :
      (runs : Map (WorkflowRun Value)) (e : Event Value) (run_id : ℕ) (action : String)
      {r r' : WorkflowRun Value}
      → Maps.get run_id runs ≡ some r
      → metadata_uuid c e "run_id" ≡ ok run_id
      → metadata_string c e "action" ≡ ok action
      → str_eq action "started" ≡ false
      → apply_action c r e action ≡ ok r'
      → project_event c codec runs e ≡ ok (Maps.insert run_id r' runs)
  unfolding project_event
  project_event-applied runs e run_id action stored named acted other applied =
      rw named (rw acted (rw other (rw stored (rw applied refl))))

  -- One more event of a run that is there, later than all others, changes that run as the action says.
  pub project_runs-latest :
      (events : List (Event Value)) (e : Event Value) (run_id : ℕ) (action : String)
      {found : List (WorkflowRun Value)} {r r' : WorkflowRun Value}
      → All (λ old. old.created_at < e.created_at) events
      → project_runs c codec events ≡ ok found
      → find (λ t. t.id == run_id) found ≡ some r
      → metadata_uuid c e "run_id" ≡ ok run_id
      → metadata_string c e "action" ≡ ok action
      → str_eq action "started" ≡ false
      → apply_action c r e action ≡ ok r'
      → (after : List (WorkflowRun Value)) × (project_runs c codec (e ∷ events) ≡ ok after)
        × (find (λ t. t.id == run_id) after ≡ some r')
  unfolding project_runs
  project_runs-latest events e run_id action {found} {r} {r'} older before there named acted other
        applied =
      let (runs, projected, last) =
        >>=-eq-ok (project_events c codec [] (sort_by oldest events)) _ before in
      let kept = project_events-AllKept [] (sort_by oldest events) (tt, tt) projected in
      let same : sort_by recent (Maps.values runs) ≡ found = cc last in
      let stored =
        sym (find-kept run_id runs kept) ∙ ap (find (λ t. t.id == run_id)) same ∙ there in
      let changed = Maps.insert run_id r' runs in
      let step = project_event-applied runs e run_id action stored named acted other applied in
      let all = project_events-append [] (sort_by oldest events) e projected step in
      let sorted =
        sort_by-last (λ (x : Event Value). x.id) oldest 0 e events
          (All-map _ _ (λ old h. is_latest old e h) events older) in
      (
        sort_by recent (Maps.values changed),
        rw sorted (rw all refl),
        find-kept run_id changed (project_event-AllKept runs e kept step)
            ∙ Maps.get-insert run_id run_id r' runs
            ∙ ap (λ b. if b then some r' else Maps.get run_id runs) (==_refl run_id),
      )
