-- ===== src/OAuth/Limits.antt =====
-- The rate limit of src/oauth.rs: how many requests of one key a minute accepts.
use shuttle_rs.Prelude.{
  ℕ, String, ◌≡◌, refl, ap, ◌∙◌, ◌≤◌, ◌<◌, Option, none, some, List, [], ◌∷◌, All, arith, All-map,
  str_eq_iff, ltb, find, ◌+◌, ◌-◌, ◌*◌, ◌⊎◌, inl, inr, Option-cases, Bool-cases,
}
use shuttle_rs.Core.{Result, ok, err}
use shuttle_rs.OAuth.Tables.{
  LimitRow, Db, enforce_rate_limit, put_limit, current_window, has_key, rate_window,
}

abbrev count : Result (Unit {0}) → ℕ
count (ok u) = 1
count (err e) = 0

-- How many of the requests of a key at the given instants the limit lets pass.
unfoldable pub accepted : ℕ → String → List ℕ → Db → ℕ
unfolding enforce_rate_limit
accepted max key [] db = 0
accepted max key (now ∷ rest) db =
    let (result, after) = enforce_rate_limit now key max db in
    count result + accepted max key rest after

find-put_limit :
    (row : LimitRow) (rows : List LimitRow) → find (has_key row.key) (put_limit row rows) ≡ some row
unfolding put_limit
find-put_limit row [] = let same = (str_eq_iff row.key row.key).1 refl in ground arith
find-put_limit row (r ∷ rows) =
    let same = (str_eq_iff row.key row.key).1 refl in ground (arith, find-put_limit row rows)

module _ (max : ℕ) (key : String) where
  abbrev row_of : Db → Option LimitRow
  row_of db = find (has_key key) db.oauth_rate_limits

  abbrev counted : ℕ → ℕ → LimitRow
  counted started n = record { key = key; window_started = started; request_count = n + 1 }

  abbrev recorded : Db → ℕ → ℕ → Db
  recorded db started n = record db {
    oauth_rate_limits = put_limit (counted started n) db.oauth_rate_limits;
  }

  row_of-recorded :
      (db : Db) (started n : ℕ) → row_of (recorded db started n) ≡ some (counted started n)
  row_of-recorded db started n = find-put_limit (counted started n) db.oauth_rate_limits

  -- A request is refused, or it is counted in its window.
  module _ (now : ℕ) (rest : List ℕ) (db : Db) (started n : ℕ)
      (window : current_window now (row_of db) ≡ (started, n)) where
    refused : max ≤ n → accepted max key (now ∷ rest) db ≡ accepted max key rest db
    unfolding accepted enforce_rate_limit
    refused h = ground arith

    passed :
        n < max
        → accepted max key (now ∷ rest) db ≡ 1 + accepted max key rest (recorded db started n)
    unfolding accepted enforce_rate_limit
    passed h = ground arith

  -- A request falls in the window of its row, or it begins one.
  window-cases :
      (now : ℕ) (db : Db)
      → ((row : LimitRow) × (row_of db ≡ some row)
          × (current_window now (row_of db) ≡ (row.window_started, row.request_count)))
        ⊎ (current_window now (row_of db) ≡ (now, 0))
  unfolding current_window
  window-cases now db = elim (Option-cases (row_of db)) [
    | inl h ↦ inr (ap (current_window now) h)
    | inr (row, h) ↦ elim (Bool-cases (ltb now (row.window_started + rate_window))) [
      | inl b ↦ inl (row, h, ap (current_window now) h ∙ cc)
      | inr b ↦ inr (ap (current_window now) h ∙ cc)
    ]
  ]

  in_window :
      (now : ℕ) (db : Db) (row : LimitRow)
      → row_of db ≡ some row
      → now < row.window_started + rate_window
      → current_window now (row_of db) ≡ (row.window_started, row.request_count)
  unfolding current_window
  in_window now db row at h = ground arith

  none_accepted : (db : Db) (n : ℕ) → accepted max key [] db ≤ n
  unfolding accepted
  none_accepted db n = omega arith

  -- Within the window of its row, a key has what the limit leaves of it.
  one_window :
      (times : List ℕ) (db : Db) (row : LimitRow)
      → row_of db ≡ some row
      → All (λ now. now < row.window_started + rate_window) times
      → accepted max key times db ≤ max - row.request_count
  one_window [] db row at within = none_accepted db _
  one_window (now ∷ times) db row at within =
      let started = row.window_started in
      let n = row.request_count in
      let window = in_window now db row at within.0 in
      let same = refused now times db started n window in
      let next = passed now times db started n window in
      let before = one_window times db row at within.1 in
      let after =
        one_window times (recorded db started n) (counted started n) (row_of-recorded db started n)
          within.1 in
      ground arith

  -- What a key has used of the limit in the window of its row.
  abbrev used : Option LimitRow → ℕ
  used none = 0
  used (some row) = row.request_count

  -- What is left of the old window, and one new window.
  rest_and_window :
      (start : ℕ) (times : List ℕ) (db : Db)
      → All (λ now. (start ≤ now) × (now < start + rate_window)) times
      → accepted max key times db ≤ (max - used (row_of db)) + max
  rest_and_window start [] db within = none_accepted db _
  rest_and_window start (now ∷ times) db within =
      go (λ after. rest_and_window start times after within.1) (window-cases now db)
    where
      later : All (λ t. t < now + rate_window) times
      later =
          All-map (λ t. (start ≤ t) × (t < start + rate_window)) (λ t. t < now + rate_window)
            (λ t h. omega (arith, h.1, within.0.0)) times within.1

      go :
          ((after : Db) → accepted max key times after ≤ (max - used (row_of after)) + max)
          → ((row : LimitRow) × (row_of db ≡ some row)
              × (current_window now (row_of db) ≡ (row.window_started, row.request_count)))
            ⊎ (current_window now (row_of db) ≡ (now, 0))
          → accepted max key (now ∷ times) db ≤ (max - used (row_of db)) + max
      go next_bound (inl (row, at, window)) =
          let started = row.window_started in
          let n = row.request_count in
          let same = refused now times db started n window in
          let next = passed now times db started n window in
          let before = next_bound db in
          let after = next_bound (recorded db started n) in
          let put = ap used (row_of-recorded db started n) in let old = ap used at in ground arith
      go next_bound (inr window) =
          let same = refused now times db now 0 window in
          let before = next_bound db in
          let next = passed now times db now 0 window in
          let after =
            one_window times (recorded db now 0) (counted now 0) (row_of-recorded db now 0) later in
          ground arith

-- Whatever is on record, in any minute the limit lets pass at most twice its number of requests of a
-- key, in whatever order they come.
pub accepted_bound :
    (max : ℕ) (key : String) (start : ℕ) (times : List ℕ) (db : Db)
    → All (λ now. (start ≤ now) × (now < start + rate_window)) times
    → accepted max key times db ≤ 2 * max
accepted_bound max key start times db within =
    omega (arith, rest_and_window max key start times db within)
