-- ===== src/Remote/Pushes.antt =====
-- A push of src/remote.rs with a checkpoint is taken up where the last one stopped.
use mathlib.Core.List.{append_assoc}
use shuttle_rs.Prelude.{
  ℕ, String, ◌≡◌, refl, sym, subst, ap, ◌∙◌, inl, inr, some, List, [], ◌∷◌, ◌++◌, ◌+◌, length,
  arith,
}
use shuttle_rs.Prelude.Distinct.{Distinct}
use shuttle_rs.Crates.{Crates}
use shuttle_rs.Core.{Event, ok}
use shuttle_rs.Store.Tables.{Sqlite, Tables}
use shuttle_rs.Mesh.Import.{all_events}
use shuttle_rs.Remote.Mapping.{RemoteCrates, SyncCheckpoint, CheckpointFile, load_checkpoint}
use shuttle_rs.Remote.Push.{
  RemoteApi, no_push, after_cursor, oldest_first, to_push, push_each, push_with_checkpoint,
  push_impl,
}
use shuttle_rs.Remote.Order.{left_after, oldest_first-Strict}
use shuttle_rs.Remote.Resume.{Ended, Placed, push_each-CameTo, loaded-IsFor}

module _ (c : Crates) (r : RemoteCrates c) {R : Type 0} (api : RemoteApi R c.Value) (clock : ℕ → ℕ)
    (project : String) (q : Sqlite c) (tables : Tables c.Value) {found : List (Event c.Value)} where
  open c use {Value}

  to_push-found :
      (file : CheckpointFile) {state : SyncCheckpoint}
      → all_events c q tables ≡ ok found
      → load_checkpoint (clock 0) file project ≡ ok state
      → to_push c r q clock (some project) file tables
        ≡ ok (after_cursor c r state.push_after (oldest_first c r found), some state)
  unfolding to_push
  to_push-found file h k = rw (h, k) refl

  -- What the next push is given.
  left_over :
      (file file' : CheckpointFile) (state : SyncCheckpoint) (done rest : List (Event Value))
      → all_events c q tables ≡ ok found
      → Distinct (λ e. e.id) found
      → load_checkpoint (clock 0) file project ≡ ok state
      → after_cursor c r state.push_after (oldest_first c r found) ≡ done ++ rest
      → Placed c r api clock project done file file'
      → (state' : SyncCheckpoint) × (to_push c r q clock (some project) file' tables
          ≡ ok (rest, some state'))
  left_over file file' state done rest h d k all (inl (nothing, same)) = (
    state,
    subst (λ f. to_push c r q clock (some project) f tables ≡ ok (rest, some state)) (sym same)
        (to_push-found file h k ∙ ap (λ l. ok (l, some state)) (all ∙ ap (λ l. l ++ rest) nothing)),
  )
  left_over file file' state done rest h d k all (inr (before, x, split, (state', read, at))) =
      let left =
        left_after c r state.push_after (oldest_first c r found) before x rest
          (oldest_first-Strict c r found d)
          (all ∙ ap (λ l. l ++ rest) split ∙ append_assoc before (x ∷ []) rest) in
      (
        state',
        to_push-found file' h read
            ∙ ap (λ s. ok (after_cursor c r s (oldest_first c r found), some state')) at
            ∙ ap (λ l. ok (l, some state')) left,
      )

  -- A push with a checkpoint sends the events that it is given in their order, and ends where it has
  -- sent all of them, each counted once, or where the gateway refuses one. Wherever it ends, the next
  -- push is given exactly those that it did not send, the refused one first. The events are those of
  -- a store that can be listed, with distinct identifiers.
  pub push_with_checkpoint_lem :
      (file : CheckpointFile) (remote : R) {state : SyncCheckpoint}
      → all_events c q tables ≡ ok found
      → Distinct (λ e. e.id) found
      → load_checkpoint (clock 0) file project ≡ ok state
      → (done : List (Event Value)) × (rest : List (Event Value)) × (state' : SyncCheckpoint)
        × (to_push c r q clock (some project) file tables ≡ ok (done ++ rest, some state))
        × (to_push c r q clock
              (some project)
              (push_with_checkpoint c r api clock q project tables file remote).1
              tables
            ≡ ok (rest, some state'))
        × Ended c r api clock project done rest
            (length (done ++ rest))
            remote
            (push_with_checkpoint c r api clock q project tables file remote)
  unfolding push_with_checkpoint push_impl
  push_with_checkpoint_lem file remote {state} h d k =
      let given = after_cursor c r state.push_after (oldest_first c r found) in
      let out = push_each c r api clock given 1 no_push (some state) file remote in
      let (done, rest, all, placed, ended) =
        push_each-CameTo c r api clock project given 1 no_push state file remote
          (loaded-IsFor c r (clock 0) file project k) in
      let (state', next) = left_over file out.1 state done rest h d k all placed in
      let shown = to_push-found file h k in
      let lengths = ap length all in
      let counted : 0 + length given ≡ length (done ++ rest) = omega (arith, lengths) in
      (
        done,
        rest,
        state',
        shown ∙ ap (λ l. ok (l, some state)) all,
        rw shown next,
        rw shown (subst (λ n. Ended c r api clock project done rest n remote out) counted ended),
      )
