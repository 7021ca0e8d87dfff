-- ===== src/Task/Lifecycle.antt =====
-- The events that the commands of src/task.rs append are read back by its projection as the
-- changes that they stand for.
use shuttle_rs.Prelude.{
  ℕ, String, ◌≡◌, ap, ◌∙◌, List, [], ◌∷◌, ◌++◌, Option, none, some, strip_prefix, and_then, ◌==◌,
  if◌then◌else◌,
}
use mathlib.Core.Option
use shuttle_rs.Prelude.Maps
use shuttle_rs.Prelude.Maps.{Map}
use shuttle_rs.Crates.{Crates, field}
use shuttle_rs.Core.{Stamp}
use shuttle_rs.Task.Events.{
  TaskStatus, TaskSummary, HandoffStatus, HandoffSummary, new_task, new_claim, new_task_update,
  new_task_done, new_handoff, new_handoff_accept, new_handoff_done,
}
use shuttle_rs.Task.Project.{
  string_metadata, action, referenced_id, claim_task, update_task, complete_task, created_task,
  apply_task, apply_handoff, accept_handoff, complete_handoff, requested_handoff,
}

module _ (c : Crates) where
  string_metadata-object :
      (fields : List (String × c.Value)) (k : String)
      → string_metadata c (c.object fields) k ≡ and_then (field k fields) c.as_str
  unfolding string_metadata
  string_metadata-object fields k = rw (c.get-object fields k)

-- The value at a key after the one at another key, if any, was changed.
abbrev pub changed_at : {V : Type 0} → ℕ → (V → V) → ℕ → Map V → Option V
changed_at id change j m = if id == j then Option.map change (Maps.get j m) else Maps.get j m

-- The value at a key after one was put at another key, unless there was one.
abbrev pub opened_at : {V : Type 0} → ℕ → V → ℕ → Map V → Option V
opened_at id new j m =
    if id == j then some (elim (Maps.get j m) [ none ↦ new | some v ↦ v ]) else Maps.get j m

module _ (c : Crates) (st : Stamp) (workspace agent session : String) where
  -- Which entries of the map the four events create and change, and by which arms.
  task_changes :
      (id : ℕ) (content : String) (m : Map TaskSummary)
      → let created = new_task c st workspace agent session content in
        let claimed = new_claim c st workspace agent session id in
        let updated = new_task_update c st workspace agent session id content in
        let done = new_task_done c st workspace agent session id in
        (apply_task c m created ≡ Maps.or_insert st.new_id (created_task c created st.new_id) m)
        × (apply_task c m claimed ≡ Maps.modify id (claim_task c claimed (some agent)) m)
        × (apply_task c m updated ≡ Maps.modify id (update_task c updated) m)
        × (apply_task c m done ≡ Maps.modify id (complete_task c done) m)
  unfolding apply_task new_task new_claim new_task_update new_task_done action referenced_id field
      strip_prefix
  task_changes id content m = (
    simp (string_metadata-object, c.as_str-text),
    simp (string_metadata-object, c.as_str-text, c.parse-uuid_text),
    simp (string_metadata-object, c.as_str-text, c.parse-uuid_text),
    simp (string_metadata-object, c.as_str-text, c.parse-uuid_text),
  )

  -- Whatever tasks there are: a creation adds an open task of its agent with its content, under the
  -- identifier of its event unless that is taken; a claim sets the status and the owner, an update the
  -- content and a completion the status of the task that it names, if there is one, each with the
  -- instant and the identifier of its event; every other task is as it was.
  pub apply_task_lem :
      (id : ℕ) (content : String) (j : ℕ) (m : Map TaskSummary)
      → (Maps.get j (apply_task c m (new_task c st workspace agent session content))
          ≡ opened_at st.new_id
              (record {
                id = st.new_id;
                status = TaskStatus.open_task;
                content = content;
                created_by = agent;
                claimed_by = none;
                created_at = st.now;
                updated_at = st.now;
                source_event_ids = st.new_id ∷ [];
              })
              j
              m)
        × (Maps.get j (apply_task c m (new_claim c st workspace agent session id))
            ≡ changed_at id
                (λ t. record t {
                  status = TaskStatus.claimed;
                  claimed_by = some agent;
                  updated_at = st.now;
                  source_event_ids = t.source_event_ids ++ st.new_id ∷ [];
                })
                j
                m)
        × (Maps.get j (apply_task c m (new_task_update c st workspace agent session id content))
            ≡ changed_at id
                (λ t. record t {
                  content = content;
                  updated_at = st.now;
                  source_event_ids = t.source_event_ids ++ st.new_id ∷ [];
                })
                j
                m)
        × (Maps.get j (apply_task c m (new_task_done c st workspace agent session id))
            ≡ changed_at id
                (λ t. record t {
                  status = TaskStatus.completed;
                  updated_at = st.now;
                  source_event_ids = t.source_event_ids ++ st.new_id ∷ [];
                })
                j
                m)
  unfolding created_task claim_task update_task complete_task new_task new_claim new_task_update
      new_task_done
  apply_task_lem id content j m =
      let (created, claimed, updated, done) = task_changes id content m in
      (
        ap (Maps.get j) created ∙ Maps.get-or_insert st.new_id j _ m,
        ap (Maps.get j) claimed ∙ Maps.get-modify id j _ m,
        ap (Maps.get j) updated ∙ Maps.get-modify id j _ m,
        ap (Maps.get j) done ∙ Maps.get-modify id j _ m,
      )

  -- Which entries of the map the three events create and change, and by which arms.
  handoff_changes :
      (id : ℕ) (to_agent content : String) (m : Map HandoffSummary)
      → let requested = new_handoff c st workspace agent session to_agent content in
        let accepted = new_handoff_accept c st workspace agent session id in
        let done = new_handoff_done c st workspace agent session id in
        (apply_handoff c m requested
          ≡ Maps.or_insert st.new_id (requested_handoff c requested st.new_id to_agent) m)
        × (apply_handoff c m accepted ≡ Maps.modify id (accept_handoff c accepted) m)
        × (apply_handoff c m done ≡ Maps.modify id (complete_handoff c done) m)
  unfolding apply_handoff new_handoff new_handoff_accept new_handoff_done action referenced_id field
      strip_prefix
  handoff_changes id to_agent content m = (
    simp (string_metadata-object, c.as_str-text),
    simp (string_metadata-object, c.as_str-text, c.parse-uuid_text),
    simp (string_metadata-object, c.as_str-text, c.parse-uuid_text),
  )

  pending_handoff :
      (to_agent content : String)
      → requested_handoff c
          (new_handoff c st workspace agent session to_agent content)
          st.new_id
          to_agent
        ≡ record {
          id = st.new_id;
          status = HandoffStatus.pending;
          content = content;
          from_agent = agent;
          to_agent = to_agent;
          accepted_by = none;
          created_at = st.now;
          updated_at = st.now;
          source_event_ids = st.new_id ∷ [];
        }
  unfolding requested_handoff new_handoff field
  pending_handoff to_agent content = simp (string_metadata-object, c.as_str-text)

  accepted_handoff :
      (id : ℕ) (h : HandoffSummary)
      → accept_handoff c (new_handoff_accept c st workspace agent session id) h ≡ record h {
        status = HandoffStatus.accepted;
        accepted_by = some agent;
        updated_at = st.now;
        source_event_ids = h.source_event_ids ++ st.new_id ∷ [];
      }
  unfolding accept_handoff new_handoff_accept field
  accepted_handoff id h = simp (string_metadata-object, c.as_str-text)

  -- Whatever handoffs there are: a request adds a pending handoff from its agent to the other with its
  -- content, under the identifier of its event unless that is taken; an acceptance sets the status and
  -- who accepted, and a completion the status, of the handoff that it names, if there is one, each with
  -- the instant and the identifier of its event; every other handoff is as it was.
  pub apply_handoff_lem :
      (id : ℕ) (to_agent content : String) (j : ℕ) (m : Map HandoffSummary)
      → (Maps.get j (apply_handoff c m (new_handoff c st workspace agent session to_agent content))
          ≡ opened_at st.new_id
              (record {
                id = st.new_id;
                status = HandoffStatus.pending;
                content = content;
                from_agent = agent;
                to_agent = to_agent;
                accepted_by = none;
                created_at = st.now;
                updated_at = st.now;
                source_event_ids = st.new_id ∷ [];
              })
              j
              m)
        × (Maps.get j (apply_handoff c m (new_handoff_accept c st workspace agent session id))
            ≡ changed_at id
                (λ h. record h {
                  status = HandoffStatus.accepted;
                  accepted_by = some agent;
                  updated_at = st.now;
                  source_event_ids = h.source_event_ids ++ st.new_id ∷ [];
                })
                j
                m)
        × (Maps.get j (apply_handoff c m (new_handoff_done c st workspace agent session id))
            ≡ changed_at id
                (λ h. record h {
                  status = HandoffStatus.completed;
                  updated_at = st.now;
                  source_event_ids = h.source_event_ids ++ st.new_id ∷ [];
                })
                j
                m)
  unfolding requested_handoff accept_handoff complete_handoff new_handoff new_handoff_accept
      new_handoff_done field
  apply_handoff_lem id to_agent content j m =
      let (requested, accepted, done) = handoff_changes id to_agent content m in
      (
        ap (Maps.get j) requested
            ∙ Maps.get-or_insert st.new_id j _ m
            ∙ ap (λ new. opened_at st.new_id new j m) (pending_handoff to_agent content),
        ap (Maps.get j) accepted
            ∙ Maps.get-modify id j _ m
            ∙ ap (λ change. changed_at id change j m) (λ i h. accepted_handoff id h i),
        ap (Maps.get j) done ∙ Maps.get-modify id j _ m,
      )
