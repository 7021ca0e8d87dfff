-- ===== src/Remote/Order.antt =====
-- The order of the cursors of src/remote.rs, and what is left of a log after one of them.
use shuttle_rs.Prelude.{
  String, ◌≡◌, sym, subst, ap, ◌∙◌, Option, none, some, List, [], ◌∷◌, ◌++◌, true, not, All,
  All-zip, retain_holds, arith, text_lt,
}
use shuttle_rs.Prelude.Sorting.{
  Sorted, by_ascending, by_ascending-IsOrder, sort_by-Sorted, ascending,
}
use shuttle_rs.Prelude.Distinct.{Distinct, Distinct-sort_by, Other}
use shuttle_rs.Crates.{Crates}
use shuttle_rs.Core.{Event}
use shuttle_rs.Remote.Mapping.{RemoteCrates, event_cursor}
use shuttle_rs.Remote.Push.{after_cursor, oldest_first}
use shuttle_rs.Remote.Cursors.{
  text_lt-transitive, retain-narrow, All-middle, Strict, Strict-retain, after, after-cursor,
}

module _ (c : Crates) (r : RemoteCrates c) where
  open c use {Value}

  Sorted-Strict :
      (xs : List (Event Value))
      → Sorted (by_ascending (λ e. e.created_at) (λ e. e.id)) xs
      → Distinct (λ e. e.id) xs
      → Strict (event_cursor c r) xs
  unfolding event_cursor
  Sorted-Strict [] h k = tt
  Sorted-Strict (x ∷ xs) h k = (
    All-zip (λ y. by_ascending (λ e. e.created_at) (λ e. e.id) x y ≡ true) (Other (λ e. e.id) x)
        (λ y. text_lt (event_cursor c r x) (event_cursor c r y) ≡ true)
        (λ y below other.
          let last : not (ascending y.created_at y.id x.created_at x.id) ≡ true = ground arith in
          r.text_lt-cursor x.created_at y.created_at x.id y.id ∙ last)
        xs h.0 k.0,
    Sorted-Strict xs h.1 k.1,
  )

  pub oldest_first-Strict :
      (xs : List (Event Value))
      → Distinct (λ e. e.id) xs
      → Strict (event_cursor c r) (oldest_first c r xs)
  oldest_first-Strict xs h =
      Sorted-Strict (oldest_first c r xs)
        (sort_by-Sorted (by_ascending (λ e. e.created_at) (λ e. e.id))
          (by_ascending-IsOrder (λ e. e.created_at) (λ e. e.id)) xs)
        (Distinct-sort_by (λ e. e.id) (by_ascending (λ e. e.created_at) (λ e. e.id)) xs h)

  after_cursor-Strict :
      (start : Option String) (xs : List (Event Value))
      → Strict (event_cursor c r) xs
      → Strict (event_cursor c r) (after_cursor c r start xs)
  after_cursor-Strict none xs h = h
  after_cursor-Strict (some s) xs h =
      Strict-retain (event_cursor c r) (λ e. text_lt s (event_cursor c r e)) xs h

  -- What is left after an event is the same of all events and of those after a start before it.
  pub left_after :
      (start : Option String) (xs done : List (Event Value)) (x : Event Value)
      (rest : List (Event Value))
      → Strict (event_cursor c r) xs
      → after_cursor c r start xs ≡ done ++ x ∷ rest
      → after_cursor c r (some (event_cursor c r x)) xs ≡ rest
  left_after none xs done x rest h e =
      ap (after (event_cursor c r) (event_cursor c r x)) e
      ∙ after-cursor (event_cursor c r) done x rest (subst (Strict (event_cursor c r)) e h)
  left_after (some s) xs done x rest h e =
      let cursor = event_cursor c r in
      let q = λ (a : Event Value). text_lt s (cursor a) in
      let before : text_lt s (cursor x) ≡ true =
        All-middle (λ a. q a ≡ true) done x rest
          (subst (All (λ a. q a ≡ true)) e (retain_holds q xs)) in
      sym (
        retain-narrow (λ a. text_lt (cursor x) (cursor a)) q
          (λ a k. text_lt-transitive s (cursor x) (cursor a) before k) xs)
      ∙ ap (after cursor (cursor x)) e
      ∙ after-cursor cursor done x rest (subst (Strict cursor) e (Strict-retain cursor q xs h))
